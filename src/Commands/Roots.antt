-- ===== src/Commands/Roots.antt =====
-- `isCreateEvent`: no event that comes before the event, directly or not, has its aggregate root.
use qlerify_live.Prelude.{
  ℕ, zero, suc, ◌+◌, ◌≤◌, String, true, false, List, [], ◌∷◌, ◌≡◌, refl, sym, ap, subst, ◌∙◌,
  string_eq, arith, has, length, Memᴰ, Bool-cases, inl, inr, ◌⊎◌, ◌↔◌, has-mem, true≢false,
}
use qlerify_live.Ontology.{OntologyEvent, event_by_key}
use qlerify_live.Ontology.Schema.{Model}
use qlerify_live.Commands.{
  push_all, first_on_root, count_predecessors, is_create_event, event_predecessors, rooted_on,
}
use qlerify_live.Commands.Walk.{
  Ancestor, listed, earlier, Ancestor-mono, mem-push_all, mem-push_all_left, mem-push_all_right,
  length-push_all, unseen, unseen_pop, unseen_nil,
}

-- A list of keys without one rooted on `root`, and with the predecessors of each.
pub record Closed (ont : Model) (root : String) (keys : List String) : Type 0 where
  pub not_rooted : (k : String) → Memᴰ k keys → rooted_on root (event_by_key ont.events k) ≡ false
  pub closed :
      (k p : String)
      → Memᴰ k keys
      → Memᴰ p (event_predecessors (event_by_key ont.events k))
      → Memᴰ p keys

Closed-Ancestor :
    {ont : Model} {root : String} {keys start : List String}
    → Closed ont root keys
    → ((x : String) → Memᴰ x start → Memᴰ x keys)
    → (k : String) → Ancestor ont start k
    → Memᴰ k keys
Closed-Ancestor c h k (listed _ m) = h k m
Closed-Ancestor c h p (earlier k _ a m) = c.closed k p (Closed-Ancestor c h k a) m

without_known :
    (seen : List String) (k : String) (stack : List String)
    → has seen k ≡ true
    → (x : String) → Memᴰ x seen ⊎ Memᴰ x (k ∷ stack)
    → Memᴰ x seen ⊎ Memᴰ x stack
without_known seen k stack h x (inl m) = inl m
without_known seen k stack h x (inr (Memᴰ.head e)) =
    inl (subst (λ z. Memᴰ z seen) (sym e) (has-mem seen k h))
without_known seen k stack h x (inr (Memᴰ.tail m)) = inr m

with_new :
    (preds seen : List String) (k : String) (stack : List String) (x : String)
    → Memᴰ x seen ⊎ Memᴰ x (k ∷ stack)
    → Memᴰ x (k ∷ seen) ⊎ Memᴰ x (push_all preds stack)
with_new preds seen k stack x (inl m) = inl (Memᴰ.tail m)
with_new preds seen k stack x (inr (Memᴰ.head e)) = inl (Memᴰ.head e)
with_new preds seen k stack x (inr (Memᴰ.tail m)) = inr (mem-push_all_left preds stack m)

from_pushed :
    (ont : Model) (k : String) (stack : List String) (x : String)
    → Memᴰ x (push_all (event_predecessors (event_by_key ont.events k)) stack)
    → Ancestor ont (k ∷ stack) x
from_pushed ont k stack x m =
    elim (mem-push_all (event_predecessors (event_by_key ont.events k)) stack m) [
      | inl n ↦ earlier k x (listed k (Memᴰ.head refl)) n
      | inr n ↦ listed x (Memᴰ.tail n)
    ]

module _ (ont : Model) (root : String) where
  -- The seen keys are not rooted on `root`, and their predecessors are seen or on the stack.
  record Explored (seen stack : List String) : Type 0 where
    clean : (k : String) → Memᴰ k seen → rooted_on root (event_by_key ont.events k) ≡ false
    next :
        (k p : String)
        → Memᴰ k seen
        → Memᴰ p (event_predecessors (event_by_key ont.events k))
        → Memᴰ p seen ⊎ Memᴰ p stack

  abbrev ResultOf : List String → List String → Type 0
  ResultOf seen stack =
      (keys : List String) × Closed ont root keys
      × ((x : String) → Memᴰ x seen ⊎ Memᴰ x stack → Memᴰ x keys)

  step_known :
      (rounds : ℕ) (seen : List String) (k : String) (stack : List String)
      → has seen k ≡ true
      → first_on_root ont root (suc rounds) seen (k ∷ stack)
        ≡ first_on_root ont root rounds seen stack
  unfolding first_on_root
  step_known rounds seen k stack h = simp h refl

  step_rooted :
      (rounds : ℕ) (seen : List String) (k : String) (stack : List String)
      → has seen k ≡ false
      → rooted_on root (event_by_key ont.events k) ≡ true
      → first_on_root ont root (suc rounds) seen (k ∷ stack) ≡ false
  unfolding first_on_root
  step_rooted rounds seen k stack h r = simp (h, r) refl

  step_new :
      (rounds : ℕ) (seen : List String) (k : String) (stack : List String)
      → has seen k ≡ false
      → rooted_on root (event_by_key ont.events k) ≡ false
      → first_on_root ont root (suc rounds) seen (k ∷ stack)
        ≡ first_on_root ont root rounds
            (k ∷ seen)
            (push_all (event_predecessors (event_by_key ont.events k)) stack)
  unfolding first_on_root
  step_new rounds seen k stack h r = simp (h, r) refl

  Explored-pop :
      (seen : List String) (k : String) (stack : List String)
      → has seen k ≡ true
      → Explored seen (k ∷ stack)
      → Explored seen stack
  Explored-pop seen k stack h ex = record {
    clean = ex.clean;
    next = λ j p m n. without_known seen k stack h p (ex.next j p m n);
  }

  Explored-new :
      (seen : List String) (k : String) (stack : List String)
      → rooted_on root (event_by_key ont.events k) ≡ false
      → Explored seen (k ∷ stack)
      → Explored (k ∷ seen) (push_all (event_predecessors (event_by_key ont.events k)) stack)
  Explored-new seen k stack r ex = record { clean = clean_with; next = next_with }
    where
      clean_with :
          (j : String) → Memᴰ j (k ∷ seen) → rooted_on root (event_by_key ont.events j) ≡ false
      clean_with j (Memᴰ.head e) = ap (λ z. rooted_on root (event_by_key ont.events z)) e ∙ r
      clean_with j (Memᴰ.tail m) = ex.clean j m

      next_with :
          (j p : String)
          → Memᴰ j (k ∷ seen)
          → Memᴰ p (event_predecessors (event_by_key ont.events j))
          → Memᴰ p (k ∷ seen)
            ⊎ Memᴰ p (push_all (event_predecessors (event_by_key ont.events k)) stack)
      next_with j p (Memᴰ.head e) n = inr (
          mem-push_all_right _ stack
            (subst (λ z. Memᴰ p (event_predecessors (event_by_key ont.events z))) e n))
      next_with j p (Memᴰ.tail m) n =
          with_new (event_predecessors (event_by_key ont.events k)) seen k stack p (ex.next j p m n)

  nothing-Explored : (stack : List String) → Explored [] stack
  nothing-Explored stack = record { clean = λ k m. elim m [ ]; next = λ k p m n. elim m [ ] }

  first_on_root-true :
      (rounds : ℕ) (seen stack : List String)
      → suc (length stack + unseen seen ont.events) ≤ rounds
      → Explored seen stack
      → first_on_root ont root rounds seen stack ≡ true
      → ResultOf seen stack
  first_on_root-true zero seen stack enough ex h = absurd (omega arith)
  first_on_root-true (suc rounds) seen [] enough ex h = (
    seen,
    record { not_rooted = ex.clean; closed = λ k p m n. in_seen (ex.next k p m n) },
    λ x. in_seen,
  )
    where
      in_seen : {x : String} → Memᴰ x seen ⊎ Memᴰ x [] → Memᴰ x seen
      in_seen (inl m) = m
      in_seen (inr m) = elim m [ ]
  first_on_root-true (suc rounds) seen (k ∷ stack) enough ex h = elim (Bool-cases (has seen k)) [
    | inl known ↦
        let (keys, c, i) =
          first_on_root-true rounds seen stack (omega arith) (Explored-pop seen k stack known ex)
            (sym (step_known rounds seen k stack known) ∙ h) in
        (keys, c, λ x m. i x (without_known seen k stack known x m))
    | inr new ↦ elim (Bool-cases (rooted_on root (event_by_key ont.events k))) [
      | inl bad ↦ absurd (true≢false (sym h ∙ step_rooted rounds seen k stack new bad))
      | inr good ↦
          let (keys, c, i) =
            first_on_root-true rounds (k ∷ seen) _ (omega (arith, unseen_pop ont k seen stack new))
              (Explored-new seen k stack good ex)
              (sym (step_new rounds seen k stack new good) ∙ h) in
          (
            keys,
            c,
            λ x m. i x (with_new (event_predecessors (event_by_key ont.events k)) seen k stack x m),
          )
    ]
  ]

  -- Where the walk stops at an event rooted on `root`, it has come there from the stack.
  first_on_root-false :
      (rounds : ℕ) (seen stack : List String)
      → first_on_root ont root rounds seen stack ≡ false
      → (k : String) × Ancestor ont stack k × (rooted_on root (event_by_key ont.events k) ≡ true)
  unfolding first_on_root
  first_on_root-false zero seen stack h = absurd (true≢false h)
  first_on_root-false (suc rounds) seen [] h = absurd (true≢false h)
  first_on_root-false (suc rounds) seen (k ∷ stack) h = elim (Bool-cases (has seen k)) [
    | inl known ↦
        let (j, a, r) =
          first_on_root-false rounds seen stack (sym (step_known rounds seen k stack known) ∙ h) in
        (j, Ancestor-mono (λ x m. listed x (Memᴰ.tail m)) j a, r)
    | inr new ↦ elim (Bool-cases (rooted_on root (event_by_key ont.events k))) [
      | inl bad ↦ (k, listed k (Memᴰ.head refl), bad)
      | inr good ↦
          let (j, a, r) =
            first_on_root-false rounds (k ∷ seen) _
              (sym (step_new rounds seen k stack new good) ∙ h) in
          (j, Ancestor-mono (λ x m. from_pushed ont k stack x m) j a, r)
    ]
  ]

-- An event creates exactly when no event that comes before it, directly or through others, has its
-- aggregate root: the rounds given suffice.
pub is_create_event_iff :
    (event : OntologyEvent) (ont : Model)
    → (is_create_event event ont ≡ true) ↔ (
        (k : String)
        → Ancestor ont event.predecessors k
        → rooted_on event.aggregate_root (event_by_key ont.events k) ≡ false)
unfolding is_create_event
is_create_event_iff event ont = (to, from)
  where
    stack_in : (x : String) → Memᴰ x (push_all event.predecessors []) → Memᴰ x event.predecessors
    stack_in x m = elim (mem-push_all event.predecessors [] m) [ inl n ↦ n | inr n ↦ elim n [ ] ]

    to :
        first_on_root ont event.aggregate_root
            (suc (length event.predecessors + count_predecessors ont.events))
            []
            (push_all event.predecessors [])
          ≡ true
        → (k : String) → Ancestor ont event.predecessors k
        → rooted_on event.aggregate_root (event_by_key ont.events k) ≡ false
    to h k a =
        let (keys, c, i) =
          first_on_root-true ont event.aggregate_root _ [] _
            (omega (arith, length-push_all event.predecessors [], unseen_nil ont.events))
            (nothing-Explored ont event.aggregate_root _) h in
        c.not_rooted k
          (Closed-Ancestor c (λ x m. i x (inr (mem-push_all_right event.predecessors [] m))) k a)

    from :
        ((k : String)
          → Ancestor ont event.predecessors k
          → rooted_on event.aggregate_root (event_by_key ont.events k) ≡ false)
        → first_on_root ont event.aggregate_root
            (suc (length event.predecessors + count_predecessors ont.events))
            []
            (push_all event.predecessors [])
          ≡ true
    from h =
        elim (Bool-cases (
          first_on_root ont event.aggregate_root
            (suc (length event.predecessors + count_predecessors ont.events)) []
            (push_all event.predecessors []))) [
              | inl q ↦ q
              | inr q ↦
                  let (k, a, r) = first_on_root-false ont event.aggregate_root _ [] _ q in
                  absurd
                    (true≢false (sym r ∙ h k (Ancestor-mono (λ x m. listed x (stack_in x m)) k a)))
            ]
