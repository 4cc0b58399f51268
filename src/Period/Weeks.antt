-- ===== src/Period/Weeks.antt =====
-- The week of a date: its Thursday and its number, and the Monday that a week number stands for.
use qlerify_live.Prelude.{ℕ, suc, ◌+◌, ◌-◌, ◌*◌, ◌/◌, ◌%◌, ◌≤◌, ◌≡◌, arith}
use qlerify_live.Period.Calendar.{
  Date, day_ms, days_before_year, get_utc_full_year, get_utc_day, utc, shift_utc_date,
}
use qlerify_live.Period.Years.{
  days_before_year-suc, days_before_year_range, days_before_month_edges, days_in_year_range,
  year_le, days_before_year_mono,
}
use qlerify_live.Period.Dates.{utc_fields, utc_lem, day_of_year_range}
use qlerify_live.Period.{iso_day, week_thursday, week_number, week_start}

pub iso_day_lem : (date : Date) → iso_day date ≡ (date / day_ms + 5) % 7 + 1
unfolding iso_day get_utc_day
iso_day_lem date = ground arith

-- A year's first day is the day number of its start.
century_day : (date : Date) → 100 ≤ get_utc_full_year date → 36500 ≤ date / day_ms
century_day date h =
    omega (arith, day_of_year_range date, days_before_year_range (get_utc_full_year date))

pub week_thursday_lem :
    (date : Date)
    → 100 ≤ get_utc_full_year date
    → week_thursday date ≡ (date / day_ms + 3 - (date / day_ms + 5) % 7) * day_ms
unfolding week_thursday shift_utc_date
week_thursday_lem date h =
    rw (utc_fields date h)
      (omega (arith, iso_day_lem ((date / day_ms) * day_ms), century_day date h))

pub week_number_lem :
    (date : Date)
    → 100 ≤ get_utc_full_year date
    → week_number date ≡ (date / day_ms - days_before_year (get_utc_full_year date)) / 7 + 1
unfolding week_number
week_number_lem date h = omega (
  arith,
  utc_lem (get_utc_full_year date) 0 1 h,
  days_before_month_edges (get_utc_full_year date),
  day_of_year_range date,
)

pub week_number_range :
    (date : Date) → 100 ≤ get_utc_full_year date → (1 ≤ week_number date) × (week_number date ≤ 53)
week_number_range date h = omega (
  arith,
  week_number_lem date h,
  day_of_year_range date,
  days_in_year_range (get_utc_full_year date),
)

pub week_start_lem :
    (y w : ℕ)
    → 100 ≤ y
    → week_start y w
      ≡ (days_before_year y + 3 + (w - 1) * 7 - (days_before_year y + 3 + 5) % 7) * day_ms
unfolding week_start shift_utc_date
week_start_lem y w h = omega (
  arith,
  utc_lem y 0 4 h,
  iso_day_lem (utc y 0 4),
  days_before_month_edges y,
  days_before_year_range y,
)

-- The Monday of the week that a date's Thursday numbers is the Monday of the date's week.
pub week_start-week_number :
    (date : Date)
    → 100 ≤ get_utc_full_year date
    → 100 ≤ get_utc_full_year (week_thursday date)
    → week_start (get_utc_full_year (week_thursday date)) (week_number (week_thursday date))
      ≡ (date / day_ms - (date / day_ms + 5) % 7) * day_ms
week_start-week_number date h k =
    let thursday = week_thursday date in
    omega (
      arith,
      week_start_lem (get_utc_full_year thursday) (week_number thursday) k,
      week_number_lem thursday k,
      week_thursday_lem date h,
      day_of_year_range thursday,
      century_day date h,
    )

-- A year on either side holds the Thursday.
pub week_thursday_year :
    (date : Date)
    → 1001 ≤ get_utc_full_year date
    → get_utc_full_year date ≤ 9998
    → (1000 ≤ get_utc_full_year (week_thursday date))
      × (get_utc_full_year (week_thursday date) ≤ 9999)
week_thursday_year date lo hi =
    let y = get_utc_full_year date in
    let thursday = week_thursday date in
    let at = week_thursday_lem date (omega arith) in
    let year = day_of_year_range thursday in
    let next = days_before_year-suc (get_utc_full_year thursday) in
    let own = day_of_year_range date in
    (
      year_le 1000 (get_utc_full_year thursday) (thursday / day_ms)
          (omega (
            arith,
            at,
            own,
            days_before_year_mono 1001 y lo,
            days_before_year-suc 1000,
            days_in_year_range 1000,
          ))
          (omega (arith, year, next)),
      year_le (get_utc_full_year thursday) 9999 (thursday / day_ms) (omega (arith, year)) (
          omega (
            arith,
            at,
            own,
            days_before_year-suc y,
            days_before_year_mono (suc y) 9999 (omega arith),
            days_before_year-suc 9999,
            days_in_year_range 9999,
          )),
    )
