-- ===== src/NextActions/Sweep.antt =====
-- The sweep finds exactly the events that a fired event follows, directly or through others.
use qlerify_live.Prelude.{
  String, ◌≡◌, refl, sym, ap, subst, ◌∙◌, inl, inr, ◌↔◌, Bool, true, false, some, List, [], ◌∷◌,
  ◌++◌, ◌==◌, string_eq, if◌then◌else◌, Memᴰ, All, Map, get, get-put, has, any, any-Exists,
  any_of_mem, mem-has, mem-append, mem-append_left, mem-cons, mem-map, or-eq-true, true≢false,
  arith, eq_of_beq, beq_of_eq, Bool-cases,
}
use qlerify_live.Prelude.Distinct.{Distinct, append_assoc, append-nil}
use qlerify_live.Ontology.{OntologyEvent, successors_of}
use qlerify_live.Ontology.Graph.{successors_of-Exists, successors_of-predecessor}
use qlerify_live.Ontology.Loop.{After, keys_of, Distinct-before}
use qlerify_live.Ontology.Order.{IsOrder}
use qlerify_live.NextActions.{or_false, ref_of, hit, sweep}

-- One event stands somewhere after another in the graph.
pub data Follows (events : List OntologyEvent) : String → String → Type 0 where
  next : {k s : String} → Memᴰ s (successors_of events k) → Follows events k s
  later :
      {k t s : String} → Memᴰ t (successors_of events k) → Follows events t s → Follows events k s

-- Some event that follows has fired.
abbrev pub Bypassed : List OntologyEvent → List String → String → Type 0
Bypassed events fired k = (s : String) × Follows events k s × (has fired (ref_of events s) ≡ true)

After-predecessor :
    (events : List OntologyEvent) (earlier order : List String)
    → After events earlier order
    → (e : OntologyEvent) → Memᴰ e events
    → Memᴰ e.key order
    → All (λ p. Memᴰ p (earlier ++ order)) e.predecessors
After-predecessor events earlier [] a e m n p l = elim n [ ]
After-predecessor events earlier (k ∷ order) (ready, a) e m n p l = elim (mem-cons n) [
  | inl q ↦ mem-append_left (k ∷ order) (ready e m q p l)
  | inr n' ↦
      subst (Memᴰ p) (append_assoc earlier (k ∷ []) order)
        (After-predecessor events (earlier ++ k ∷ []) order a e m n' p l)
]

After-prefix :
    (events : List OntologyEvent) (earlier xs ys : List String)
    → After events earlier (xs ++ ys)
    → After events earlier xs
After-prefix events earlier [] ys a = tt
After-prefix events earlier (x ∷ xs) ys (ready, a) =
    (ready, After-prefix events (earlier ++ x ∷ []) xs ys a)

After-suffix :
    (events : List OntologyEvent) (earlier xs ys : List String)
    → After events earlier (xs ++ ys)
    → After events (earlier ++ xs) ys
After-suffix events earlier [] ys a = subst (λ l. After events l ys) (sym (append-nil earlier)) a
After-suffix events earlier (x ∷ xs) ys (ready, a) =
    subst (λ l. After events l ys) (append_assoc earlier (x ∷ []) xs)
      (After-suffix events (earlier ++ x ∷ []) xs ys a)

Distinct-after : (xs ys : List String) (y : String) → Distinct (xs ++ y ∷ ys) → has ys y ≡ false
Distinct-after [] ys y (n, d) = n
Distinct-after (x ∷ xs) ys y (n, d) = Distinct-after xs ys y d

module _ (events : List OntologyEvent) (fired topo : List String) (order : IsOrder events topo)
    (distinct : Distinct topo) (unique : Distinct (keys_of events)) where
  -- A successor of an event of the order stands in the rest of the order.
  successor-later :
      (xs ys : List String) (k s : String)
      → xs ++ k ∷ ys ≡ topo
      → Memᴰ s (successors_of events k)
      → Memᴰ s ys
  successor-later xs ys k s q m =
      let (e, em, es) = successors_of-Exists events k s m in
      let named =
        successors_of-predecessor events k e unique em
          (subst (λ z. Memᴰ z (successors_of events k)) (sym es) m) in
      let after = subst (After events []) (sym q) order.2 in
      let placed = subst (Memᴰ e.key) (sym q) (order.1 e.key (mem-map (λ e. e.key) em)) in
      elim (mem-append xs placed) [
        | inl before ↦ absurd (
            not_before (
              After-predecessor events [] xs (After-prefix events [] xs (k ∷ ys) after) e em before
                k named))
        | inr (Memᴰ.head same) ↦
            absurd (not_before ((After-suffix events [] xs (k ∷ ys) after).0 e em same k named))
        | inr (Memᴰ.tail rest) ↦ subst (λ z. Memᴰ z ys) es rest
      ]
    where
      not_before : Memᴰ k xs → ⊥
      not_before n =
          true≢false
            (sym (mem-has xs k n) ∙ Distinct-before xs ys k (subst Distinct (sym q) distinct))

  value_iff :
      (df : Map Bool) (k : String)
      → All (λ s. (or_false (get df s) ≡ true) ↔ Bypassed events fired s) (successors_of events k)
      → (any (hit events fired df) (successors_of events k) ≡ true) ↔ Bypassed events fired k
  unfolding hit
  value_iff df k h = (there, back)
    where
      there : any (hit events fired df) (successors_of events k) ≡ true → Bypassed events fired k
      there e =
          let (s, m, q) = any-Exists (hit events fired df) (successors_of events k) e in
          elim (or-eq-true _ _ q) [
            | inl f ↦ (s, next m, f)
            | inr b ↦ let (t, r, f) = (h s m).0 b in (t, later m r, f)
          ]

      back : Bypassed events fired k → any (hit events fired df) (successors_of events k) ≡ true
      back (s, next m, f) =
          any_of_mem (hit events fired df) (successors_of events k) m (ground (arith, f))
      back (s, later m r, f) =
          any_of_mem (hit events fired df) (successors_of events k) m
            (ground (arith, (h _ m).1 (s, r, f)))

  sweep-suffix_iff :
      (xs ys : List String)
      → xs ++ ys ≡ topo
      → All (λ k. (or_false (get (sweep events fired ys) k) ≡ true) ↔ Bypassed events fired k) ys
  unfolding sweep
  sweep-suffix_iff xs [] q = λ k m. elim m [ ]
  sweep-suffix_iff xs (y ∷ ys) q =
      let rest = sweep-suffix_iff (xs ++ y ∷ []) ys (append_assoc xs (y ∷ []) ys ∙ q) in
      let df = sweep events fired ys in
      λ k m. elim (mem-cons m) [
        | inl e ↦
            subst (λ b. (b ≡ true) ↔ Bypassed events fired k)
              (sym (
                ap or_false (get-put df y (any (hit events fired df) (successors_of events y)) k)
                ∙ same k e df))
              (subst
                (λ z.
                  (any (hit events fired df) (successors_of events y) ≡ true)
                  ↔ Bypassed events fired z)
                (sym e) (value_iff df y (λ s n. rest s (successor-later xs ys y s q n))))
        | inr n ↦
            subst (λ b. (b ≡ true) ↔ Bypassed events fired k)
              (sym (
                ap or_false (get-put df y (any (hit events fired df) (successors_of events y)) k)
                ∙ differ k n df))
              (rest k n)
      ]
    where
      same :
          (k : String)
          → k ≡ y
          → (df : Map Bool)
          → or_false (
              if y == k
              then some (any (hit events fired df) (successors_of events y))
              else get df k)
            ≡ any (hit events fired df) (successors_of events y)
      same k e df = rw (beq_of_eq y k (sym e)) refl

      differ :
          (k : String)
          → Memᴰ k ys
          → (df : Map Bool)
          → or_false (
              if y == k
              then some (any (hit events fired df) (successors_of events y))
              else get df k)
            ≡ or_false (get df k)
      differ k n df = rw (y≢ k n) refl
        where
          y≢ : (k : String) → Memᴰ k ys → (y == k) ≡ false
          y≢ k n = elim (Bool-cases (y == k)) [
            | inl e ↦ absurd (
                true≢false (
                  sym (mem-has ys k n)
                  ∙ (ap (has ys) (sym (eq_of_beq y k e))
                      ∙ Distinct-after xs ys y (subst Distinct (sym q) distinct))))
            | inr e ↦ e
          ]

  -- What the sweep over the whole order says of an event of it.
  pub sweep_iff :
      All (λ k. (or_false (get (sweep events fired topo) k) ≡ true) ↔ Bypassed events fired k) topo
  sweep_iff = sweep-suffix_iff [] topo refl
