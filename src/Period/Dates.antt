-- ===== src/Period/Dates.antt =====
-- The fields of the dates that `Date.UTC` makes, and the first instants of a date's year and month.
use qlerify_live.Prelude.{ℕ, suc, ◌+◌, ◌-◌, ◌*◌, ◌/◌, ◌≤◌, ◌<◌, ◌≡◌, arith}
use qlerify_live.Period.Calendar.{
  Date, day_ms, days_in_year, days_before_year, days_before_month, get_utc_full_year, get_utc_month,
  get_utc_date, utc, year_of_day,
}
use qlerify_live.Period.Years.{
  days_before_year-suc, days_before_month_edges, days_before_month_le, year_of_day_range,
  year_of_day_unique, month_range, month_unique,
}

-- A day of a year is its first day and the days since.
pub day_of_year_range :
    (date : Date)
    → (days_before_year (get_utc_full_year date) ≤ date / day_ms)
      × (date / day_ms - days_before_year (get_utc_full_year date)
          < days_in_year (get_utc_full_year date))
unfolding get_utc_full_year
day_of_year_range date =
    let day = date / day_ms in
    omega (arith, year_of_day_range day, days_before_year-suc (year_of_day day))

pub utc_lem :
    (y m d : ℕ)
    → 100 ≤ y
    → utc y m d ≡ (days_before_year y + days_before_month y m + d - 1) * day_ms
unfolding utc
utc_lem y m d h = ground arith

module _ (y m d : ℕ) (century : 100 ≤ y) (in_year : m ≤ 11) (first : 1 ≤ d)
    (last : days_before_month y m + d ≤ days_before_month y (suc m)) where
  utc_day : utc y m d / day_ms ≡ days_before_year y + (days_before_month y m + d - 1)
  utc_day = omega (arith, utc_lem y m d century)

  pub get_utc_full_year-utc : get_utc_full_year (utc y m d) ≡ y
  unfolding get_utc_full_year
  get_utc_full_year-utc = year_of_day_unique y _ (omega (arith, utc_day)) (
      omega (
        arith,
        utc_day,
        days_before_year-suc y,
        days_before_month_le y (suc m) 12 (omega arith) (omega arith),
        days_before_month_edges y,
      ))

  pub get_utc_month-utc : get_utc_month (utc y m d) ≡ m
  unfolding get_utc_month
  get_utc_month-utc = rw get_utc_full_year-utc (
      month_unique y m _ in_year (omega (arith, utc_day)) (omega (arith, utc_day)) (
        omega (
          arith,
          utc_day,
          days_before_month_le y (suc m) 12 (omega arith) (omega arith),
          days_before_month_edges y,
        )))

pub get_utc_month_range :
    (date : Date)
    → (get_utc_month date ≤ 11)
      × (days_before_month (get_utc_full_year date) (get_utc_month date)
          ≤ date / day_ms - days_before_year (get_utc_full_year date))
      × (date / day_ms - days_before_year (get_utc_full_year date)
          < days_before_month (get_utc_full_year date) (suc (get_utc_month date)))
unfolding get_utc_month
get_utc_month_range date = month_range _ _ (day_of_year_range date).1

-- `Date.UTC` of a date's own fields is the start of its day.
pub utc_fields :
    (date : Date)
    → 100 ≤ get_utc_full_year date
    → utc (get_utc_full_year date) (get_utc_month date) (get_utc_date date)
      ≡ (date / day_ms) * day_ms
unfolding get_utc_date
utc_fields date h = omega (
  arith,
  utc_lem (get_utc_full_year date) (get_utc_month date) (get_utc_date date) h,
  get_utc_month_range date,
  day_of_year_range date,
)

-- The first of a month that begins by the date's month begins by the date.
pub utc-le :
    (date : Date) (m : ℕ)
    → 100 ≤ get_utc_full_year date
    → m ≤ get_utc_month date
    → utc (get_utc_full_year date) m 1 ≤ date
utc-le date m h le = omega (
  arith,
  utc_lem (get_utc_full_year date) m 1 h,
  get_utc_month_range date,
  day_of_year_range date,
  days_before_month_le (get_utc_full_year date) m (get_utc_month date) le
      (omega (arith, get_utc_month_range date)),
)
