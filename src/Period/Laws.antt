-- ===== src/Period/Laws.antt =====
-- The text of a period and its first instant: `periodOf` and `periodStart` undo each other.
use qlerify_live.Prelude.{
  ℕ, suc, ◌+◌, ◌-◌, ◌*◌, ◌/◌, ◌%◌, ◌≤◌, ◌≡◌, ap, ◌∙◌, arith, ◌++◌, ◌∷◌, some,
}
use qlerify_live.Period.Calendar.{
  Date, day_ms, days_before_month, get_utc_full_year, get_utc_month, utc, year_of_day,
}
use qlerify_live.Period.Years.{
  days_before_month_mono, days_before_year_range, year_le, year_of_day_range,
}
use qlerify_live.Period.Dates.{
  utc-le, get_utc_full_year-utc, get_utc_month-utc, get_utc_month_range, day_of_year_range,
}
use qlerify_live.Period.Digits.{
  match_year-decimal, match_quarter-decimal, match_month-decimal, match_week-decimal,
}
use qlerify_live.Period.Weeks.{
  week_start-week_number, week_thursday_year, week_thursday_lem, week_number_range,
}
use qlerify_live.Period.{
  Text, decimal, pad2, match_quarter, match_year, match_month, match_week, PeriodGranularity,
  quarter, month, week, year, period_of, period_start, week_thursday, week_number, week_start,
}

-- `p` is read as the instant `start`, which is not after the date and lies in `p`.
abbrev pub InPeriod : Date → Text → PeriodGranularity → Date → Type 0
InPeriod date p g start = (period_start p g ≡ some start) × (start ≤ date) × (period_of start g ≡ p)

start-year : (p : Text) (y : ℕ) → match_year p ≡ some y → period_start p year ≡ some (utc y 0 1)
unfolding period_start
start-year p y h = ground arith

start-month :
    (p : Text) (y m : ℕ)
    → 1 ≤ m
    → m ≤ 12
    → match_month p ≡ some (y, m)
    → period_start p month ≡ some (utc y (m - 1) 1)
unfolding period_start
start-month p y m lo hi h = ground arith

start-quarter :
    (p : Text) (y q : ℕ)
    → match_quarter p ≡ some (y, q)
    → period_start p quarter ≡ some (utc y ((q - 1) * 3) 1)
unfolding period_start
start-quarter p y q h = ground arith

start-week :
    (p : Text) (y w : ℕ)
    → 1 ≤ w
    → w ≤ 53
    → match_week p ≡ some (y, w)
    → period_start p week ≡ some (week_start y w)
unfolding period_start
start-week p y w lo hi h = ground arith

third_of_triple : (q : ℕ) → q * 3 / 3 + 1 ≡ q + 1
third_of_triple q = omega arith

month_fits : (y m : ℕ) → m ≤ 11 → days_before_month y m + 1 ≤ days_before_month y (suc m)
month_fits y m h = omega (arith, days_before_month_mono y m (omega arith))

module _ (date : Date) (lo : 1001 ≤ get_utc_full_year date)
    (hi : get_utc_full_year date ≤ 9998) where
  century : 100 ≤ get_utc_full_year date
  century = omega arith

  year_of_first :
      (m : ℕ)
      → m ≤ 11
      → get_utc_full_year (utc (get_utc_full_year date) m 1) ≡ get_utc_full_year date
  year_of_first m h =
      get_utc_full_year-utc (get_utc_full_year date) m 1 century h (omega arith) (month_fits _ m h)

  month_of_first : (m : ℕ) → m ≤ 11 → get_utc_month (utc (get_utc_full_year date) m 1) ≡ m
  month_of_first m h =
      get_utc_month-utc (get_utc_full_year date) m 1 century h (omega arith) (month_fits _ m h)

  -- The day before the Monday's week is still of a year that `Date.UTC` takes as it is.
  monday_century : 100 ≤ get_utc_full_year ((date / day_ms - (date / day_ms + 5) % 7) * day_ms)
  unfolding get_utc_full_year
  monday_century =
      year_le 100 (year_of_day ((date / day_ms - (date / day_ms + 5) % 7) * day_ms / day_ms))
        (date / day_ms - (date / day_ms + 5) % 7)
        (omega (
          arith,
          days_before_year_range 100,
          day_of_year_range date,
          days_before_year_range (get_utc_full_year date),
        ))
        (omega
          (arith, year_of_day_range ((date / day_ms - (date / day_ms + 5) % 7) * day_ms / day_ms)))

  in_year : InPeriod date (period_of date year) year (utc (get_utc_full_year date) 0 1)
  unfolding period_of
  in_year = (
    start-year _ _ (match_year-decimal _ (omega arith) (omega arith)),
    utc-le date 0 century (omega arith),
    ap decimal (year_of_first 0 (omega arith)),
  )

  in_month :
      InPeriod date
        (period_of date month)
        month
        (utc (get_utc_full_year date) (get_utc_month date) 1)
  unfolding period_of
  in_month =
      let m = get_utc_month date in
      let top = (get_utc_month_range date).0 in
      (
        start-month _ _ _ (omega arith) (omega arith)
              (match_month-decimal _ (omega arith) (omega arith) (m + 1) (omega arith))
            ∙ ap (λ k. some (utc (get_utc_full_year date) k 1)) (omega arith),
        utc-le date m century (omega arith),
        cc (year_of_first m top, month_of_first m top),
      )

  in_quarter :
      InPeriod date
        (period_of date quarter)
        quarter
        (utc (get_utc_full_year date) (get_utc_month date / 3 * 3) 1)
  unfolding period_of
  in_quarter =
      let q = get_utc_month date / 3 in
      let top = (get_utc_month_range date).0 in
      let third = month_of_first (q * 3) (omega arith) in
      (
        start-quarter _ _ _ (
              match_quarter-decimal _ (omega arith) (omega arith) (q + 1) (omega arith)
                (omega arith))
            ∙ ap (λ k. some (utc (get_utc_full_year date) (k * 3) 1)) (omega arith),
        utc-le date (q * 3) century (omega arith),
        cc (
          year_of_first (q * 3) (omega arith),
          ap (λ m. decimal (m / 3 + 1)) third,
          ap decimal (third_of_triple q),
        ),
      )

  monday :
      week_start (get_utc_full_year (week_thursday date)) (week_number (week_thursday date))
      ≡ (date / day_ms - (date / day_ms + 5) % 7) * day_ms
  monday = week_start-week_number date century (omega (arith, week_thursday_year date lo hi))

  week_thursday-monday :
      week_thursday ((date / day_ms - (date / day_ms + 5) % 7) * day_ms) ≡ week_thursday date
  week_thursday-monday = omega (
    arith,
    week_thursday_lem date century,
    week_thursday_lem ((date / day_ms - (date / day_ms + 5) % 7) * day_ms) monday_century,
    day_of_year_range date,
    days_before_year_range (get_utc_full_year date),
  )

  in_week :
      InPeriod date
        (period_of date week)
        week
        (week_start (get_utc_full_year (week_thursday date)) (week_number (week_thursday date)))
  unfolding period_of
  in_week =
      let thursday = week_thursday date in
      let years = week_thursday_year date lo hi in
      let weeks = week_number_range thursday (omega (arith, years)) in
      (
        start-week _ _ _ (omega arith) (omega arith)
            (match_week-decimal _ (omega arith) (omega arith) (week_number thursday) (omega arith)),
        omega (arith, monday),
        ap (λ t. decimal (get_utc_full_year t) ++ (45 ∷ 87 ∷ pad2 (week_number t)))
            (ap week_thursday monday ∙ week_thursday-monday),
      )

  -- The text of the period of a date of the years 1001 to 9998 is read back to an instant that is not
  -- after the date and lies in the same period.
  pub period_start-period_of :
      (g : PeriodGranularity) → (start : Date) × InPeriod date (period_of date g) g start
  period_start-period_of quarter = (_, in_quarter)
  period_start-period_of month = (_, in_month)
  period_start-period_of week = (_, in_week)
  period_start-period_of year = (_, in_year)
