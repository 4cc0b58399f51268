-- ===== src/Prelude/Distinct.antt =====
-- Lists without repetition, and how long they can be.
use Prim.Native.Nat.{◌+◌, ◌≤◌}
use mathlib.Core.Path.{◌≡◌, refl, sym, ap, subst, ◌∙◌}
use mathlib.Core.Bool.{true, false}
use mathlib.Core.Logic.{inl, inr}
use mathlib.Core.List.{List, [], ◌∷◌, ◌++◌, Memᴰ}
use native.Mathlib.Omega.{arith}
use qlerify_live.Prelude.Tests.{Bool-cases}
use qlerify_live.Prelude.Equality.{StrictEq, ◌==◌, beq_refl, eq_of_beq}
use qlerify_live.Prelude.Lists.{any, length}
use qlerify_live.Prelude.Members.{has, mem-has, has-mem, true≢false}
use qlerify_live.Prelude.Fresh.{fresh, fresh-lt, fresh-nil, has-append}

module _ {ℓ} {A : Type ℓ} where
  pub append_assoc : (xs ys zs : List A) → (xs ++ ys) ++ zs ≡ xs ++ (ys ++ zs)
  append_assoc [] ys zs = refl
  append_assoc (x ∷ xs) ys zs = ap (λ l. x ∷ l) (append_assoc xs ys zs)

  pub append-nil : (xs : List A) → xs ++ [] ≡ xs
  append-nil [] = refl
  append-nil (x ∷ xs) = ap (λ l. x ∷ l) (append-nil xs)

module _ {ℓ} {A : Type ℓ} ⦃e : StrictEq A⦄ where
  abbrev pub Distinct : List A → Type 0
  Distinct [] = Unit
  Distinct (x ∷ xs) = (has xs x ≡ false) × Distinct xs

  pub has-nil : (u : A) → has [] u ≡ false
  unfolding has any
  has-nil u = refl

  pub Distinct-append :
      (xs : List A) (x : A) → Distinct xs → has xs x ≡ false → Distinct (xs ++ x ∷ [])
  unfolding has any
  Distinct-append [] x d h = (refl, tt)
  Distinct-append (y ∷ xs) x (n, d) h =
      (ground (arith, has-append xs x y, eq_sym), Distinct-append xs x d (ground arith))
    where
      eq_sym : (x == y) ≡ true → (y == x) ≡ true
      eq_sym q = ap (λ z. z == x) (sym (eq_of_beq x y q)) ∙ beq_refl x

  not_has_of : (xs : List A) (x : A) → (has xs x ≡ true → ⊥) → has xs x ≡ false
  not_has_of xs x h = elim (Bool-cases (has xs x)) [ inl t ↦ absurd (h t) | inr f ↦ f ]

  -- Appending members of `us` that are new one by one uses up as many of those outside.
  fresh-append :
      (us set xs : List A)
      → Distinct xs
      → ((x : A) → Memᴰ x xs → (has set x ≡ false) × Memᴰ x us)
      → length xs + fresh us (set ++ xs) ≤ fresh us set
  fresh-append us set [] d h = rw (append-nil set) (omega arith)
  fresh-append us set (x ∷ xs) (n, d) h =
      let (new, m) = h x (Memᴰ.head refl) in
      let rest = fresh-append us (set ++ x ∷ []) xs d later in
      omega (arith, rest, fresh-lt us set x m new, ap (fresh us) (append_assoc set (x ∷ []) xs))
    where
      later : (y : A) → Memᴰ y xs → (has (set ++ x ∷ []) y ≡ false) × Memᴰ y us
      later y k =
          (ground (arith, has-append set x y, (h y (Memᴰ.tail k)).0, other), (h y (Memᴰ.tail k)).1)
        where
          other : (x == y) ≡ true → ⊥
          other q = true≢false (sym (mem-has xs y k) ∙ (ap (has xs) (sym (eq_of_beq x y q)) ∙ n))

  pub length-Distinct :
      (us xs : List A) → Distinct xs → ((x : A) → Memᴰ x xs → Memᴰ x us) → length xs ≤ length us
  length-Distinct us xs d h =
      omega (arith, fresh-append us [] xs d (λ x m. (has-nil x, h x m)), fresh-nil us)

  -- As many as there can be: all of them.
  pub Distinct-all :
      (us xs : List A)
      → Distinct xs
      → ((x : A) → Memᴰ x xs → Memᴰ x us)
      → length us ≤ length xs
      → (y : A) → Memᴰ y us
      → Memᴰ y xs
  Distinct-all us xs d h k y m = elim (Bool-cases (has xs y)) [
    | inl t ↦ has-mem xs y t
    | inr f ↦ absurd (omega (arith, too_long f))
  ]
    where
      too_long : has xs y ≡ false → length (y ∷ xs) ≤ length us
      too_long f =
          length-Distinct us (y ∷ xs) (f, d)
            (λ x n. elim n [ Memᴰ.head q ↦ subst (λ z. Memᴰ z us) (sym q) m | Memᴰ.tail n ↦ h x n ])
