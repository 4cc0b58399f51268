-- ===== src/Period/Digits.antt =====
-- The numbers that a period's text is made of, written and read.
use qlerify_live.Prelude.{ℕ, suc, ◌+◌, ◌/◌, ◌%◌, ◌≤◌, ◌<◌, ◌≡◌, refl, arith, [], ◌∷◌, ◌++◌, some}
use qlerify_live.Period.{
  Text, digits, decimal, pad2, match_quarter, match_month, match_year, match_week,
}

abbrev four : ℕ → Text
four y = (48 + y / 1000) ∷ (48 + y / 100 % 10) ∷ (48 + y / 10 % 10) ∷ (48 + y % 10) ∷ []

digits_one : (fuel n : ℕ) → n < 10 → digits (suc fuel) n ≡ (48 + n) ∷ []
unfolding digits
digits_one fuel n h = ground arith

digits_more :
    (fuel n : ℕ) → 10 ≤ n → digits (suc fuel) n ≡ digits fuel (n / 10) ++ ((48 + n % 10) ∷ [])
unfolding digits
digits_more fuel n h = ground arith

quotients : (y : ℕ) → (y / 10 / 10 / 10 ≡ y / 1000) × (y / 10 / 10 % 10 ≡ y / 100 % 10)
quotients y = omega arith

digits-four : (fuel y : ℕ) → 1000 ≤ y → y ≤ 9999 → digits (suc (suc (suc (suc fuel)))) y ≡ four y
digits-four fuel y lo hi =
    rw
      (
        digits_more (suc (suc (suc fuel))) y (omega arith),
        digits_more (suc (suc fuel)) (y / 10) (omega arith),
        digits_more (suc fuel) (y / 10 / 10) (omega arith),
        digits_one fuel (y / 10 / 10 / 10) (omega arith),
        (quotients y).0,
        (quotients y).1,
      )
      refl

pub decimal-four : (y : ℕ) → 1000 ≤ y → y ≤ 9999 → decimal y ≡ four y
unfolding decimal
decimal-four y lo hi = digits-four 17 y lo hi

pub pad2_lem : (n : ℕ) → n < 100 → pad2 n ≡ (48 + n / 10) ∷ (48 + n % 10) ∷ []
unfolding pad2 decimal
pad2_lem n h = ground (arith, digits_one 20 n, digits_more 20 n, digits_one 19 (n / 10))

module _ (y : ℕ) (lo : 1000 ≤ y) (hi : y ≤ 9999) where
  pub match_year-decimal : match_year (decimal y) ≡ some y
  unfolding match_year
  match_year-decimal = rw (decimal-four y lo hi) (ground arith)

  pub match_quarter-decimal :
      (q : ℕ) → 1 ≤ q → q ≤ 4 → match_quarter (decimal y ++ (81 ∷ decimal q)) ≡ some (y, q)
  unfolding match_quarter decimal
  match_quarter-decimal q a b =
      rw (digits-four 17 y lo hi, digits_one 20 q (omega arith)) (ground arith)

  pub match_month-decimal :
      (m : ℕ) → m < 100 → match_month (decimal y ++ (45 ∷ pad2 m)) ≡ some (y, m)
  unfolding match_month
  match_month-decimal m a = rw (decimal-four y lo hi, pad2_lem m a) (ground arith)

  pub match_week-decimal :
      (w : ℕ) → w < 100 → match_week (decimal y ++ (45 ∷ 87 ∷ pad2 w)) ≡ some (y, w)
  unfolding match_week
  match_week-decimal w a = rw (decimal-four y lo hi, pad2_lem w a) (ground arith)
