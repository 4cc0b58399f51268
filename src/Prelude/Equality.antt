-- ===== src/Prelude/Equality.antt =====
-- JavaScript's `===` on the values that the program compares. An instance is a Boolean test with the
-- proof that it decides equality.
use Prim.Native.Nat.{ℕ}
use Prim.Native.String.{String}
use mathlib.Core.Path.{◌≡◌, refl, ap}
use mathlib.Core.Logic.{◌↔◌}
use mathlib.Core.Bool.{Bool, true, false}
use mathlib.Core.Option.{Option, none, some}
use text.Mathlib.Text.{◌==◌ as same_text}
use text.Mathlib.TextEquality.{eq_iff as same_text_iff}
use qlerify_live.Prelude.Tests.{nat_beq, nat_beq_iff}

pub record StrictEq {ℓ} (V : Type ℓ) : Type ℓ where
  pub test : V → V → Bool
  pub decides : (x y : V) → (test x y ≡ true) ↔ (x ≡ y)

module _ {ℓ} {V : Type ℓ} where
  abbrev pub option_test : StrictEq V → Option V → Option V → Bool
  option_test s (some x) (some y) = s.test x y
  option_test s none none = true
  option_test s _ _ = false

  pub option_test_iff : (s : StrictEq V) (x y : Option V) → (option_test s x y ≡ true) ↔ (x ≡ y)
  option_test_iff s (some x) (some y) =
      (λ h. ap some ((s.decides x y).0 h), λ h. (s.decides x y).1 (cc))
  option_test_iff s none none = (λ _. refl, λ _. refl)
  option_test_iff s none (some y) = (λ h. cc, λ h. cc)
  option_test_iff s (some x) none = (λ h. cc, λ h. cc)

  infix 50 ◌==◌
  abbrev pub ◌==◌ : ⦃s : StrictEq V⦄ → V → V → Bool
  ◌==◌ ⦃s⦄ x y = s.test x y

instance abbrev pub string_eq : StrictEq String
string_eq = record { test = same_text; decides = same_text_iff }

instance abbrev pub nat_eq : StrictEq ℕ
nat_eq = record { test = nat_beq; decides = nat_beq_iff }

instance abbrev pub option_eq {ℓ} : {V : Type ℓ} ⦃s : StrictEq V⦄ → StrictEq (Option V)
option_eq ⦃s⦄ = record { test = option_test s; decides = option_test_iff s }

module _ {ℓ} {V : Type ℓ} ⦃s : StrictEq V⦄ where
  pub beq_refl : (x : V) → (x == x) ≡ true
  beq_refl x = (s.decides x x).1 refl

  pub eq_of_beq : (x y : V) → (x == y) ≡ true → x ≡ y
  eq_of_beq x y = (s.decides x y).0

  pub beq_of_eq : (x y : V) → x ≡ y → (x == y) ≡ true
  beq_of_eq x y = (s.decides x y).1

  pub ne_of_beq : (x y : V) → (x == y) ≡ false → ¬ (x ≡ y)
  ne_of_beq x y h p = cc (h, (s.decides x y).1 p)
