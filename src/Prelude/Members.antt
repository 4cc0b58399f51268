-- ===== src/Prelude/Members.antt =====
-- Membership in an array, and what the array methods have to do with it.
use mathlib.Core.Path.{◌≡◌, refl, ap, subst, sym, ◌∙◌}
use mathlib.Core.Logic.{◌⊎◌, inl, inr}
use mathlib.Core.Bool.{Bool, true, false, ◌&&◌, ◌||◌}
use mathlib.Core.Option.{some}
use mathlib.Core.List.{List, [], ◌∷◌, ◌++◌, map, Memᴰ}
use native.Mathlib.Omega.{arith}
use qlerify_live.Prelude.Tests.{if◌then◌else◌, Bool-cases}
use qlerify_live.Prelude.Equality.{StrictEq, ◌==◌, beq_refl, eq_of_beq}
use qlerify_live.Prelude.Lists.{filter, find, any, all, Exists, All, mem-cons}

pub true≢false : ¬ (true ≡ false)
true≢false h = cc

pub and-eq-true : (a b : Bool) → (a && b) ≡ true → (a ≡ true) × (b ≡ true)
and-eq-true a b h = ground arith

pub and_intro : (a b : Bool) → a ≡ true → b ≡ true → (a && b) ≡ true
and_intro a b h k = ground arith

pub or_intro_right : (a b : Bool) → b ≡ true → (a || b) ≡ true
or_intro_right a b h = ground arith

pub or-eq-true : (a b : Bool) → (a || b) ≡ true → (a ≡ true) ⊎ (b ≡ true)
or-eq-true a b h = ground arith

module _ {ℓ} {A : Type ℓ} where
  pub mem-append_left : {x : A} {xs : List A} (ys : List A) → Memᴰ x xs → Memᴰ x (xs ++ ys)
  mem-append_left ys (Memᴰ.head e) = Memᴰ.head e
  mem-append_left ys (Memᴰ.tail m) = Memᴰ.tail (mem-append_left ys m)

  pub mem-append_right : {x : A} (xs : List A) {ys : List A} → Memᴰ x ys → Memᴰ x (xs ++ ys)
  mem-append_right [] m = m
  mem-append_right (y ∷ xs) m = Memᴰ.tail (mem-append_right xs m)

  pub mem-append : {x : A} (xs : List A) {ys : List A} → Memᴰ x (xs ++ ys) → Memᴰ x xs ⊎ Memᴰ x ys
  mem-append [] m = inr m
  mem-append (y ∷ xs) (Memᴰ.head e) = inl (Memᴰ.head e)
  mem-append (y ∷ xs) (Memᴰ.tail m) = elim (mem-append xs m) [
    | inl l ↦ inl (Memᴰ.tail l)
    | inr r ↦ inr r
  ]

  pub filter-mem :
      (p : A → Bool) {x : A} (xs : List A) → Memᴰ x (filter p xs) → Memᴰ x xs × (p x ≡ true)
  unfolding filter
  filter-mem p [] m = elim m [ ]
  filter-mem p {x} (y ∷ xs) m = elim (Bool-cases (p y)) [
    | inl e ↦ elim (mem-cons (let m' : Memᴰ x (y ∷ filter p xs) = rw e at m in m')) [
      | inl q ↦ (Memᴰ.head q, rw q e)
      | inr m' ↦ let (l, r) = filter-mem p xs m' in (Memᴰ.tail l, r)
    ]
    | inr e ↦
        let m' : Memᴰ x (filter p xs) = rw e at m in
        let (l, r) = filter-mem p xs m' in (Memᴰ.tail l, r)
  ]

  pub mem-filter :
      (p : A → Bool) {x : A} (xs : List A) → Memᴰ x xs → p x ≡ true → Memᴰ x (filter p xs)
  unfolding filter
  mem-filter p [] m h = elim m [ ]
  mem-filter p (y ∷ xs) (Memᴰ.head q) h = rw (ap p (sym q) ∙ h) (Memᴰ.head q)
  mem-filter p (y ∷ xs) (Memᴰ.tail m) h = elim (Bool-cases (p y)) [
    | inl e ↦ rw e (Memᴰ.tail (mem-filter p xs m h))
    | inr e ↦ rw e (mem-filter p xs m h)
  ]

  pub filter-append :
      (p : A → Bool) (xs ys : List A) → filter p (xs ++ ys) ≡ filter p xs ++ filter p ys
  unfolding filter
  filter-append p [] ys = refl
  filter-append p (x ∷ xs) ys = ground (arith, filter-append p xs ys)

  pub filter-append_true :
      (p : A → Bool) (xs : List A) (x : A)
      → p x ≡ true
      → filter p (xs ++ x ∷ []) ≡ filter p xs ++ x ∷ []
  unfolding filter
  filter-append_true p [] x h = rw h
  filter-append_true p (y ∷ xs) x h = ground (arith, filter-append_true p xs x h)

  pub filter-append_false :
      (p : A → Bool) (xs : List A) (x : A) → p x ≡ false → filter p (xs ++ x ∷ []) ≡ filter p xs
  unfolding filter
  filter-append_false p [] x h = rw h
  filter-append_false p (y ∷ xs) x h = ground (arith, filter-append_false p xs x h)

  pub any-Exists : (p : A → Bool) (xs : List A) → any p xs ≡ true → Exists (λ x. p x ≡ true) xs
  unfolding any
  any-Exists p [] h = cc
  any-Exists p (x ∷ xs) h = elim (or-eq-true (p x) (any p xs) h) [
    | inl e ↦ (x, Memᴰ.head refl, e)
    | inr e ↦ let (y, m, q) = any-Exists p xs e in (y, Memᴰ.tail m, q)
  ]

  pub any_of_mem : (p : A → Bool) {x : A} (xs : List A) → Memᴰ x xs → p x ≡ true → any p xs ≡ true
  unfolding any
  any_of_mem p [] m h = elim m [ ]
  any_of_mem p (y ∷ xs) (Memᴰ.head q) h = rw (ap p (sym q) ∙ h)
  any_of_mem p (y ∷ xs) (Memᴰ.tail m) h = ground (arith, any_of_mem p xs m h)

  pub all-All : (p : A → Bool) (xs : List A) → all p xs ≡ true → All (λ x. p x ≡ true) xs
  unfolding all
  all-All p [] h x m = elim m [ ]
  all-All p (y ∷ xs) h x (Memᴰ.head q) = ap p q ∙ (and-eq-true (p y) _ h).0
  all-All p (y ∷ xs) h x (Memᴰ.tail m) = all-All p xs (and-eq-true (p y) _ h).1 x m

  pub all_of_All : (p : A → Bool) (xs : List A) → All (λ x. p x ≡ true) xs → all p xs ≡ true
  unfolding all
  all_of_All p [] h = refl
  all_of_All p (x ∷ xs) h = rw (h x (Memᴰ.head refl), all_of_All p xs (λ y m. h y (Memᴰ.tail m)))

  pub find-eq-some :
      (p : A → Bool) (xs : List A) {x : A} → find p xs ≡ some x → Memᴰ x xs × (p x ≡ true)
  unfolding find
  find-eq-some p [] h = cc
  find-eq-some p (y ∷ xs) {x} h = elim (Bool-cases (p y)) [
    | inl e ↦ let q : y ≡ x = ground arith in (Memᴰ.head (sym q), ap p (sym q) ∙ e)
    | inr e ↦
        let (m, q) = find-eq-some p xs (let h' : find p xs ≡ some x = rw e at h in h') in
        (Memᴰ.tail m, q)
  ]

module _ {ℓ κ} {A : Type ℓ} {B : Type κ} where
  pub mem-map : (f : A → B) {x : A} {xs : List A} → Memᴰ x xs → Memᴰ (f x) (map f xs)
  mem-map f (Memᴰ.head e) = Memᴰ.head (ap f e)
  mem-map f (Memᴰ.tail m) = Memᴰ.tail (mem-map f m)

  pub map-mem : (f : A → B) {y : B} (xs : List A) → Memᴰ y (map f xs) → Exists (λ x. y ≡ f x) xs
  map-mem f [] m = elim m [ ]
  map-mem f (x ∷ xs) (Memᴰ.head e) = (x, Memᴰ.head refl, e)
  map-mem f (x ∷ xs) (Memᴰ.tail m) = let (z, k, e) = map-mem f xs m in (z, Memᴰ.tail k, e)

-- A JavaScript `Set`, by its members in insertion order.
module _ {ℓ} {A : Type ℓ} ⦃e : StrictEq A⦄ where
  unfoldable pub has : List A → A → Bool
  unfolding any
  has xs x = any (λ y. y == x) xs

  -- `Set.add`.
  unfoldable pub add : List A → A → List A
  unfolding has
  add xs x = if has xs x then xs else xs ++ x ∷ []

  unfoldable pub add_all : List A → List A → List A
  unfolding add
  add_all set [] = set
  add_all set (x ∷ xs) = add_all (add set x) xs

  pub has-mem : (xs : List A) (x : A) → has xs x ≡ true → Memᴰ x xs
  unfolding has
  has-mem xs x h =
      let (y, m, q) = any-Exists (λ y. y == x) xs h in subst (λ z. Memᴰ z xs) (eq_of_beq y x q) m

  pub mem-has : (xs : List A) (x : A) → Memᴰ x xs → has xs x ≡ true
  unfolding has
  mem-has xs x m = any_of_mem (λ y. y == x) xs m (beq_refl x)

  pub mem-add_self : (xs : List A) (x : A) → Memᴰ x (add xs x)
  unfolding add
  mem-add_self xs x = elim (Bool-cases (has xs x)) [
    | inl h ↦ rw h (has-mem xs x h)
    | inr h ↦ rw h (mem-append_right xs (Memᴰ.head refl))
  ]

  pub mem-add_of_mem : (xs : List A) (x : A) {y : A} → Memᴰ y xs → Memᴰ y (add xs x)
  unfolding add
  mem-add_of_mem xs x m = elim (Bool-cases (has xs x)) [
    | inl h ↦ rw h m
    | inr h ↦ rw h (mem-append_left (x ∷ []) m)
  ]

  pub mem-add : (xs : List A) (x : A) {y : A} → Memᴰ y (add xs x) → Memᴰ y xs ⊎ (y ≡ x)
  unfolding add
  mem-add xs x {y} m = elim (Bool-cases (has xs x)) [
    | inl h ↦ inl (rw h at m)
    | inr h ↦ elim (mem-append xs (let m' : Memᴰ y (xs ++ x ∷ []) = rw h at m in m')) [
      | inl l ↦ inl l
      | inr (Memᴰ.head q) ↦ inr q
      | inr (Memᴰ.tail n) ↦ elim n [ ]
    ]
  ]

  pub mem-add_all_left : (xs ys : List A) {z : A} → Memᴰ z xs → Memᴰ z (add_all xs ys)
  unfolding add_all
  mem-add_all_left xs [] m = m
  mem-add_all_left xs (y ∷ ys) m = mem-add_all_left (add xs y) ys (mem-add_of_mem xs y m)

  pub mem-add_all_right : (xs ys : List A) {z : A} → Memᴰ z ys → Memᴰ z (add_all xs ys)
  unfolding add_all
  mem-add_all_right xs [] m = elim m [ ]
  mem-add_all_right xs (y ∷ ys) (Memᴰ.head q) =
      mem-add_all_left (add xs y) ys (rw q (mem-add_self xs y))
  mem-add_all_right xs (y ∷ ys) (Memᴰ.tail m) = mem-add_all_right (add xs y) ys m

  pub mem-add_all : (xs ys : List A) {z : A} → Memᴰ z (add_all xs ys) → Memᴰ z xs ⊎ Memᴰ z ys
  unfolding add_all
  mem-add_all xs [] m = inl m
  mem-add_all xs (y ∷ ys) m = elim (mem-add_all (add xs y) ys m) [
    | inl l ↦ elim (mem-add xs y l) [ inl k ↦ inl k | inr q ↦ inr (Memᴰ.head q) ]
    | inr r ↦ inr (Memᴰ.tail r)
  ]
