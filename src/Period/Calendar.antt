-- ===== src/Period/Calendar.antt =====
-- JavaScript's `Date` in UTC, as src/twin/period.ts uses it: the proleptic Gregorian calendar from the
-- first day of the year 0 on. A `Date` is the number of milliseconds since then.
use qlerify_live.Prelude.{
  ℕ, zero, suc, ◌+◌, ◌-◌, ◌*◌, ◌/◌, ◌%◌, Bool, ◌&&◌, ◌||◌, not, if◌then◌else◌, ltb, leb, nat_beq,
}

abbrev pub Date : Type 0
Date = ℕ

abbrev pub day_ms : ℕ
day_ms = 86400000

unfoldable pub is_leap : ℕ → Bool
is_leap y = nat_beq (y % 4) 0 && (not (nat_beq (y % 100) 0) || nat_beq (y % 400) 0)

unfoldable pub days_in_year : ℕ → ℕ
unfolding is_leap
days_in_year y = if is_leap y then 366 else 365

-- The days before the first of January.
unfoldable pub days_before_year : ℕ → ℕ
days_before_year y = 365 * y + (y + 3) / 4 + (y + 399) / 400 - (y + 99) / 100

-- The days of a year before the first of a month, counted from 0 as JavaScript does.
unfoldable pub days_before_month : ℕ → ℕ → ℕ
days_before_month y m =
    if nat_beq m 0
    then 0
    else if nat_beq m 1
    then 31
    else (days_in_year y - 365)
      + (if nat_beq m 2
          then 59
          else if nat_beq m 3
          then 90
          else if nat_beq m 4
          then 120
          else if nat_beq m 5
          then 151
          else if nat_beq m 6
          then 181
          else if nat_beq m 7
          then 212
          else if nat_beq m 8
          then 243
          else if nat_beq m 9
          then 273
          else if nat_beq m 10
          then 304
          else if nat_beq m 11
          then 334
          else 365)

-- The last year from `y` on that begins by the day; `suc fuel` years are tried.
unfoldable pub year_from : ℕ → ℕ → ℕ → ℕ
year_from zero y day = y
year_from (suc fuel) y day =
    let later = year_from fuel (suc y) day in
    if leb (days_before_year (suc y)) day then later else y

unfoldable pub year_of_day : ℕ → ℕ
year_of_day day = year_from (suc (day / 366 / 365)) (day / 366) day

-- The last month from `m` on that begins by the day.
unfoldable pub month_from : ℕ → ℕ → ℕ → ℕ → ℕ
month_from zero m y day = m
month_from (suc fuel) m y day =
    let later = month_from fuel (suc m) y day in
    if leb (days_before_month y (suc m)) day then later else m

unfoldable pub get_utc_full_year : Date → ℕ
get_utc_full_year date = year_of_day (date / day_ms)

unfoldable pub get_utc_month : Date → ℕ
get_utc_month date =
    let year = get_utc_full_year date in
    month_from 11 0 year (date / day_ms - days_before_year year)

unfoldable pub get_utc_date : Date → ℕ
get_utc_date date =
    let year = get_utc_full_year date in
    suc (date / day_ms - days_before_year year - days_before_month year (get_utc_month date))

-- Sunday is 0; the first day of the year 0 is a Saturday.
unfoldable pub get_utc_day : Date → ℕ
get_utc_day date = (date / day_ms + 6) % 7

-- `Date.UTC` with a month from 0 to 11. It takes a year below 100 as one of the twentieth century.
unfoldable pub utc : ℕ → ℕ → ℕ → Date
utc year month date =
    let full = (if ltb year 100 then 1900 + year else year) in
    (days_before_year full + days_before_month full month + date - 1) * day_ms

-- `setUTCDate(getUTCDate() + later - earlier)`.
unfoldable pub shift_utc_date : Date → ℕ → ℕ → Date
shift_utc_date date later earlier = date + later * day_ms - earlier * day_ms
