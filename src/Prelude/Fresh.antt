-- ===== src/Prelude/Fresh.antt =====
-- How many members of a list are not yet in a set: what shrinks while a worklist marks its items.
use Prim.Native.Nat.{ℕ, suc, ◌+◌, ◌≤◌}
use mathlib.Core.Path.{◌≡◌, refl}
use mathlib.Core.Bool.{false, ◌||◌}
use mathlib.Core.Logic.{inl, inr}
use mathlib.Core.List.{List, [], ◌∷◌, ◌++◌, Memᴰ}
use native.Mathlib.Omega.{arith}
use qlerify_live.Prelude.Tests.{if◌then◌else◌, Bool-cases}
use qlerify_live.Prelude.Equality.{StrictEq, ◌==◌, beq_refl}
use qlerify_live.Prelude.Lists.{any, length, length-append}
use qlerify_live.Prelude.Members.{has, add, add_all}

module _ {ℓ} {A : Type ℓ} ⦃e : StrictEq A⦄ where
  pub has-append : (xs : List A) (p u : A) → has (xs ++ p ∷ []) u ≡ (has xs u || p == u)
  unfolding has any
  has-append [] p u = ground arith
  has-append (x ∷ xs) p u = ground (arith, has-append xs p u)

  unfoldable pub fresh : List A → List A → ℕ
  fresh [] set = 0
  fresh (u ∷ us) set = if has set u then fresh us set else suc (fresh us set)

  fresh-le : (us set : List A) (p : A) → fresh us (set ++ p ∷ []) ≤ fresh us set
  unfolding fresh
  fresh-le [] set p = omega arith
  fresh-le (u ∷ us) set p = ground (arith, has-append set p u, fresh-le us set p)

  -- Marking an unmarked member leaves fewer.
  pub fresh-lt :
      (us set : List A) (p : A)
      → Memᴰ p us
      → has set p ≡ false
      → suc (fresh us (set ++ p ∷ [])) ≤ fresh us set
  unfolding fresh
  fresh-lt [] set p m h = elim m [ ]
  fresh-lt (u ∷ us) set p (Memᴰ.head q) h =
      ground (arith, q, has-append set p p, beq_refl p, fresh-le us set p)
  fresh-lt (u ∷ us) set p (Memᴰ.tail m) h =
      ground (arith, has-append set p u, fresh-lt us set p m h)

  pub fresh-nil : (us : List A) → fresh us [] ≡ length us
  unfolding fresh has any
  fresh-nil [] = refl
  fresh-nil (u ∷ us) = ground (arith, fresh-nil us)

  -- Marking keeps the number of marked and unmarked members together at most what it was.
  pub length-add_all-fresh :
      (us set xs : List A)
      → ((x : A) → Memᴰ x xs → Memᴰ x us)
      → length (add_all set xs) + fresh us (add_all set xs) ≤ length set + fresh us set
  unfolding add_all
  length-add_all-fresh us set [] h = omega arith
  length-add_all-fresh us set (x ∷ xs) h =
      let rest = length-add_all-fresh us (add set x) xs (λ y m. h y (Memᴰ.tail m)) in
      omega (arith, rest, one x (h x (Memᴰ.head refl)))
    where
      one :
          (y : A)
          → Memᴰ y us
          → length (add set y) + fresh us (add set y) ≤ length set + fresh us set
      one y m = elim (Bool-cases (has set y)) [
        | inl old ↦ unfold add in rw old (omega arith)
        | inr new ↦
            unfold add in
            rw new (omega (arith, fresh-lt us set y m new, length-append set (y ∷ [])))
      ]
