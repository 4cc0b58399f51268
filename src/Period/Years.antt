-- ===== src/Period/Years.antt =====
-- The years and months that Period/Calendar finds for a day number are those that hold the day.
use native.Mathlib.Decide.{le_ind}
use native.Mathlib.Nat.{le_refl}
use qlerify_live.Prelude.{
  ℕ, zero, suc, ◌+◌, ◌*◌, ◌/◌, ◌≤◌, ◌<◌, ◌≡◌, refl, subst, arith, inl, inr, ◌⊎◌,
}
use qlerify_live.Period.Calendar.{
  days_in_year, days_before_year, days_before_month, year_from, year_of_day, month_from,
}

pub days_before_year-suc : (y : ℕ) → days_before_year (suc y) ≡ days_before_year y + days_in_year y
unfolding days_before_year days_in_year
days_before_year-suc y = ground arith

pub days_in_year_range : (y : ℕ) → (365 ≤ days_in_year y) × (days_in_year y ≤ 366)
unfolding days_in_year
days_in_year_range y = ground arith

pub days_before_year_range :
    (y : ℕ) → (365 * y ≤ days_before_year y) × (days_before_year y ≤ 366 * y)
unfolding days_before_year
days_before_year_range y = omega arith

pub days_before_year_mono : (x y : ℕ) → x ≤ y → days_before_year x ≤ days_before_year y
days_before_year_mono x y h =
    le_ind (λ m. days_before_year x ≤ days_before_year m) (le_refl _)
      (λ m le ih. omega (arith, days_before_year-suc m)) y h

compare_cases : (a b : ℕ) → (a ≡ b) ⊎ ((suc a ≤ b) ⊎ (suc b ≤ a))
compare_cases a b = ground arith

-- `year_from` on enough fuel finds the year of the day.
year_from_range :
    (fuel y last day : ℕ)
    → last ≡ y + fuel
    → days_before_year y ≤ day
    → day < days_before_year (suc last)
    → (days_before_year (year_from fuel y day) ≤ day)
      × (day < days_before_year (suc (year_from fuel y day)))
unfolding year_from
year_from_range zero y last day e lo hi =
    (lo, subst (λ z. day < days_before_year (suc z)) (omega arith) hi)
year_from_range (suc fuel) y last day e lo hi =
    ground (arith, year_from_range fuel (suc y) last day (omega arith))

pub year_of_day_range :
    (day : ℕ)
    → (days_before_year (year_of_day day) ≤ day) × (day < days_before_year (suc (year_of_day day)))
unfolding year_of_day
year_of_day_range day =
    year_from_range (suc (day / 366 / 365)) (day / 366) _ day refl
      (omega (arith, days_before_year_range (day / 366)))
      (omega (arith, days_before_year_range (suc (day / 366 + suc (day / 366 / 365)))))

-- A year that begins by a day comes no later than a year that ends after it.
pub year_le : (x y day : ℕ) → days_before_year x ≤ day → day < days_before_year (suc y) → x ≤ y
year_le x y day lo hi = elim (compare_cases x (suc y)) [
  | inl e ↦ absurd (omega (arith, days_before_year_mono (suc y) x (omega arith)))
  | inr (inl before) ↦ omega arith
  | inr (inr after) ↦ absurd (omega (arith, days_before_year_mono (suc y) x (omega arith)))
]

-- No other year holds the day.
pub year_of_day_unique :
    (y day : ℕ) → days_before_year y ≤ day → day < days_before_year (suc y) → year_of_day day ≡ y
year_of_day_unique y day lo hi =
    let found = year_of_day day in
    elim (compare_cases found y) [
      | inl e ↦ e
      | inr (inl before) ↦
          absurd (omega (arith, year_of_day_range day, days_before_year_mono (suc found) y before))
      | inr (inr after) ↦
          absurd (omega (arith, year_of_day_range day, days_before_year_mono (suc y) found after))
    ]

pub days_before_month_mono :
    (y m : ℕ) → m < 12 → days_before_month y m < days_before_month y (suc m)
unfolding days_before_month
days_before_month_mono y m h = ground (arith, days_in_year_range y)

pub days_before_month_edges :
    (y : ℕ) → (days_before_month y 0 ≡ 0) × (days_before_month y 12 ≡ days_in_year y)
unfolding days_before_month
days_before_month_edges y = omega (arith, days_in_year_range y)

-- `month_from` finds the month of the day.
month_from_range :
    (fuel m y day : ℕ)
    → m + fuel ≡ 11
    → days_before_month y m ≤ day
    → day < days_before_month y 12
    → (month_from fuel m y day ≤ 11)
      × (days_before_month y (month_from fuel m y day) ≤ day)
      × (day < days_before_month y (suc (month_from fuel m y day)))
unfolding month_from
month_from_range zero m y day e lo hi =
    (omega arith, lo, subst (λ z. day < days_before_month y (suc z)) {x = 11} (omega arith) hi)
month_from_range (suc fuel) m y day e lo hi =
    ground (arith, month_from_range fuel (suc m) y day (omega arith))

pub month_range :
    (y day : ℕ)
    → day < days_in_year y
    → (month_from 11 0 y day ≤ 11)
      × (days_before_month y (month_from 11 0 y day) ≤ day)
      × (day < days_before_month y (suc (month_from 11 0 y day)))
month_range y day h =
    month_from_range 11 0 y day refl (omega (arith, days_before_month_edges y))
      (omega (arith, days_before_month_edges y))

pub days_before_month_le :
    (y m n : ℕ) → m ≤ n → n ≤ 12 → days_before_month y m ≤ days_before_month y n
days_before_month_le y m n h =
    le_ind (λ k. k ≤ 12 → days_before_month y m ≤ days_before_month y k) (λ _. le_refl _)
      (λ k le ih top. omega (arith, ih (omega arith), days_before_month_mono y k top)) n h

-- No other month holds the day.
pub month_unique :
    (y m day : ℕ)
    → m ≤ 11
    → days_before_month y m ≤ day
    → day < days_before_month y (suc m)
    → day < days_in_year y
    → month_from 11 0 y day ≡ m
month_unique y m day top lo hi fits =
    let found = month_from 11 0 y day in
    let (in_year, from, to) = month_range y day fits in
    elim (compare_cases found m) [
      | inl e ↦ e
      | inr (inl before) ↦
          absurd (omega (arith, days_before_month_le y (suc found) m before (omega arith)))
      | inr (inr after) ↦
          absurd (omega (arith, days_before_month_le y (suc m) found after (omega arith)))
    ]
