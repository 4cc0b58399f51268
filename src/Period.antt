-- ===== src/Period.antt =====
-- src/twin/period.ts: the granularity that a key field names, the period key of an entity, the text of
-- the period of a date, and the first instant of a period. Such a text is a list of code points.
pub mod Calendar
pub mod Names
pub mod Keys
pub mod Years
pub mod Dates
pub mod Digits
pub mod Weeks
pub mod Laws
mod Tests
use Prim.Native.Char.{code}
use Prim.Native.String
use qlerify_live.Prelude.{
  ℕ, zero, suc, String, Bool, true, false, ◌&&◌, ◌||◌, not, Option, none, some, List, [], ◌∷◌, ◌++◌,
  ◌+◌, ◌-◌, ◌*◌, ◌/◌, ◌%◌, ◌==◌, string_eq, if◌then◌else◌, ltb, leb, nat_beq, map, has, length,
}
unfoldable pub use Names.*
unfoldable pub use Keys.*
use Calendar.{
  Date, day_ms, get_utc_full_year, get_utc_month, get_utc_date, get_utc_day, utc, shift_utc_date,
}

-- `String(n)`: JavaScript writes a whole number below 10 ^ 21 without an exponent.
unfoldable pub digits : ℕ → ℕ → Text
digits zero n = []
digits (suc fuel) n =
    let rest = digits fuel (n / 10) in
    if ltb n 10 then (48 + n) ∷ [] else rest ++ ((48 + n % 10) ∷ [])

unfoldable pub decimal : ℕ → Text
decimal n = digits 21 n

-- `String(n).padStart(2, "0")`.
unfoldable pub pad2 : ℕ → Text
pad2 n = if ltb n 10 then 48 ∷ decimal n else decimal n

-- `date.getUTCDay() || 7`.
unfoldable pub iso_day : Date → ℕ
iso_day date = if nat_beq (get_utc_day date) 0 then 7 else get_utc_day date

-- The Thursday of the week of a date.
unfoldable pub week_thursday : Date → Date
week_thursday date =
    let d = utc (get_utc_full_year date) (get_utc_month date) (get_utc_date date) in
    shift_utc_date d 4 (iso_day d)

-- The ceiling of a seventh is the quotient with six added.
unfoldable pub week_number : Date → ℕ
week_number thursday = ((thursday - utc (get_utc_full_year thursday) 0 1) / day_ms + 1 + 6) / 7

unfoldable pub period_of : Date → PeriodGranularity → Text
period_of date quarter =
    decimal (get_utc_full_year date) ++ 81 ∷ decimal (get_utc_month date / 3 + 1)
period_of date month = decimal (get_utc_full_year date) ++ 45 ∷ pad2 (get_utc_month date + 1)
period_of date year = decimal (get_utc_full_year date)
period_of date week =
    let d = week_thursday date in decimal (get_utc_full_year d) ++ 45 ∷ 87 ∷ pad2 (week_number d)

abbrev pub is_digit : ℕ → Bool
is_digit c = within 48 57 c

abbrev pub all_digits : Text → Bool
all_digits [] = true
all_digits (c ∷ s) = is_digit c && all_digits s

-- `Number` of a text of digits.
abbrev pub number_from : ℕ → Text → ℕ
number_from n [] = n
number_from n (c ∷ s) = number_from (10 * n + (c - 48)) s

abbrev pub number_of : Text → ℕ
number_of s = number_from 0 s

-- `/^(\d{4})Q([1-4])$/`: the year and the quarter.
unfoldable pub match_quarter : Text → Option (ℕ × ℕ)
match_quarter (a ∷ b ∷ c ∷ d ∷ q ∷ r ∷ []) =
    let y = a ∷ b ∷ c ∷ d ∷ [] in
    if all_digits y && nat_beq q 81 && within 49 52 r
    then some (number_of y, number_of (r ∷ []))
    else none
match_quarter _ = none

-- `/^(\d{4})-(\d{2})$/`.
unfoldable pub match_month : Text → Option (ℕ × ℕ)
match_month (a ∷ b ∷ c ∷ d ∷ q ∷ r ∷ s ∷ []) =
    let y = a ∷ b ∷ c ∷ d ∷ [] in
    let m = r ∷ s ∷ [] in
    if all_digits y && nat_beq q 45 && all_digits m then some (number_of y, number_of m) else none
match_month _ = none

-- `/^(\d{4})$/`.
unfoldable pub match_year : Text → Option ℕ
match_year (a ∷ b ∷ c ∷ d ∷ []) =
    let y = a ∷ b ∷ c ∷ d ∷ [] in if all_digits y then some (number_of y) else none
match_year _ = none

-- `/^(\d{4})-W(\d{2})$/`.
unfoldable pub match_week : Text → Option (ℕ × ℕ)
match_week (a ∷ b ∷ c ∷ d ∷ q ∷ w ∷ r ∷ s ∷ []) =
    let y = a ∷ b ∷ c ∷ d ∷ [] in
    let n = r ∷ s ∷ [] in
    if all_digits y && nat_beq q 45 && nat_beq w 87 && all_digits n
    then some (number_of y, number_of n)
    else none
match_week _ = none

-- The Monday of week 1 is that of the week of the fourth of January.
unfoldable pub week_start : ℕ → ℕ → Date
week_start y w = let jan4 = utc y 0 4 in shift_utc_date jan4 ((w - 1) * 7) (iso_day jan4 - 1)

unfoldable pub period_start : Text → PeriodGranularity → Option Date
period_start p quarter = elim (match_quarter p) [
  | none ↦ none
  | some (y, q) ↦ some (utc y ((q - 1) * 3) 1)
]
period_start p month = elim (match_month p) [
  | none ↦ none
  | some (y, m) ↦ (if within 1 12 m then some (utc y (m - 1) 1) else none)
]
period_start p year = elim (match_year p) [ none ↦ none | some y ↦ some (utc y 0 1) ]
period_start p week = elim (match_week p) [
  | none ↦ none
  | some (y, w) ↦ (if ltb w 1 || ltb 53 w then none else some (week_start y w))
]

unfoldable pub period_format_example : PeriodGranularity → Text
period_format_example quarter = codes "2026Q3"
period_format_example month = codes "2026-08"
period_format_example week = codes "2026-W32"
period_format_example year = codes "2026"

-- `[...subjectValues, period].join("@")`.
unfoldable pub cycle_id : List Text → Text → Text
cycle_id [] period = period
cycle_id (v ∷ values) period = v ++ 64 ∷ cycle_id values period
