-- ===== src/NextActions/Frontier.antt =====
-- Which events the planner offers for a case.
use qlerify_live.Prelude.{
  String, ◌≡◌, refl, sym, ap, subst, ◌∙◌, ◌⊎◌, inl, inr, ◌↔◌, Bool, true, false, not, Option, none,
  some, List, [], ◌∷◌, Memᴰ, Exists, Map, get, has, any, any-Exists, any_of_mem, map-mem, mem-map,
  mem-cons, true≢false, string_eq, if◌then◌else◌,
}
use qlerify_live.Errors.{ok}
use qlerify_live.Prelude.Distinct.{Distinct}
use qlerify_live.Ontology.{OntologyEvent, event_by_key, topological_order}
use qlerify_live.Ontology.Graph.{get-index_by}
use qlerify_live.Ontology.Loop.{keys_of}
use qlerify_live.Ontology.Order.{IsOrder, topological_order-IsOrder}
use qlerify_live.NextActions.{
  NextActionReason, start, ready, or_false, is_step, pred_satisfied, sweep, by_predecessors,
  reason_of, push_action, push_key, collect_ready, frontier,
}
use qlerify_live.NextActions.Sweep.{Bypassed, sweep_iff}

none≢some : {A : Type 0} {a : A} → ¬ (none ≡ some a)
none≢some h = cc

some-eq : {A : Type 0} {a b : A} → some a ≡ some b → a ≡ b
some-eq h = cc

-- The case has not begun and the event has no predecessor, or one of its predecessors is satisfied.
abbrev pub May : (String → Bool) → List String → List String → NextActionReason → Type 0
May satisfied fired ps start = (ps ≡ []) × (fired ≡ [])
May satisfied fired ps ready = Exists (λ p. satisfied p ≡ true) ps

ready≢start : (b : Bool) → ¬ ((if b then some ready else none) ≡ some start)
ready≢start true h = cc
ready≢start false h = cc

chosen : (b : Bool) → (if b then some ready else none) ≡ some ready → b ≡ true
chosen true h = refl
chosen false h = cc

checks_iff :
    (step gone below : Bool) (o : Option NextActionReason) (reason : NextActionReason) (P : Type 0)
    → (o ≡ some reason) ↔ P
    → ((if not step then none else if gone then none else if below then none else o) ≡ some reason)
      ↔ ((step ≡ true) × (gone ≡ false) × (below ≡ false) × P)
checks_iff true false false o reason P (to, from) =
    ((λ h. (refl, refl, refl, to h)), (λ (_, _, _, p). from p))
checks_iff true false true o reason P h = ((λ q. absurd (none≢some q)), (λ (_, _, q, _). cc))
checks_iff true true below o reason P h = ((λ q. absurd (none≢some q)), (λ (_, q, _, _). cc))
checks_iff false gone below o reason P h = ((λ q. absurd (none≢some q)), (λ (q, _, _, _). cc))

-- An event that can happen next: a step of the model that has not fired, that no fired event follows,
-- and that is not blocked.
pub record IsNext (events : List OntologyEvent) (fired : List String) (e : OntologyEvent)
    (reason : NextActionReason) : Type 0 where
  pub in_model : Memᴰ e events
  pub step : is_step e ≡ true
  pub not_fired : has fired e.ref ≡ false
  pub not_bypassed : ¬ (Bypassed events fired e.key)
  pub unblocked : May (pred_satisfied events fired) fired e.predecessors reason

by_predecessors_iff :
    (satisfied : String → Bool) (fired ps : List String) (reason : NextActionReason)
    → (by_predecessors satisfied fired ps ≡ some reason) ↔ May satisfied fired ps reason
unfolding by_predecessors
by_predecessors_iff satisfied [] [] start = ((λ _. (refl, refl)), (λ _. refl))
by_predecessors_iff satisfied [] [] ready = ((λ h. cc), (λ (p, m, q). elim m [ ]))
by_predecessors_iff satisfied (f ∷ fired) [] start = ((λ h. cc), (λ (_, q). cc))
by_predecessors_iff satisfied (f ∷ fired) [] ready = ((λ h. cc), (λ (p, m, q). elim m [ ]))
by_predecessors_iff satisfied fired (p ∷ ps) start =
    ((λ h. absurd (ready≢start (any satisfied (p ∷ ps)) h)), (λ (q, _). cc))
by_predecessors_iff satisfied fired (p ∷ ps) ready = (
  (λ h. any-Exists satisfied (p ∷ ps) (chosen (any satisfied (p ∷ ps)) h)),
  (λ (x, m, q). rw (any_of_mem satisfied (p ∷ ps) m q) refl),
)

module _ (events : List OntologyEvent) (fired : List String) where
  reason_of_iff :
      (df : Map Bool) (e : OntologyEvent) (reason : NextActionReason)
      → (reason_of events fired df e ≡ some reason) ↔ (
          (is_step e ≡ true)
          × (has fired e.ref ≡ false)
          × (or_false (get df e.key) ≡ false)
          × May (pred_satisfied events fired) fired e.predecessors reason)
  unfolding reason_of
  reason_of_iff df e reason =
      checks_iff (is_step e) (has fired e.ref) (or_false (get df e.key)) _ reason _
        (by_predecessors_iff (pred_satisfied events fired) fired e.predecessors reason)

  push_action_iff :
      (e : OntologyEvent) (o : Option NextActionReason)
      (rest : List (OntologyEvent × NextActionReason)) (x : OntologyEvent)
      (reason : NextActionReason)
      → Memᴰ (x, reason) (push_action events e o rest)
        ↔ (((e ≡ x) × (o ≡ some reason)) ⊎ Memᴰ (x, reason) rest)
  push_action_iff e none rest x reason =
      ((λ m. inr m), (λ s. elim s [ inl (_, q) ↦ absurd (none≢some q) | inr m ↦ m ]))
  push_action_iff e (some r) rest x reason = (
    (λ m. elim (mem-cons m) [
      | inl q ↦ inl (sym (ap (λ y. y.0) q), sym (ap (λ y. some y.1) q))
      | inr n ↦ inr n
    ]),
    (λ s. elim s [
      | inl (q, q') ↦
          Memᴰ.head (ap (λ z. (z, reason)) (sym q) ∙ ap (λ z. (e, z)) (sym (some-eq q')))
      | inr n ↦ Memᴰ.tail n
    ]),
  )

  push_key_iff :
      (df : Map Bool) (o : Option OntologyEvent) (rest : List (OntologyEvent × NextActionReason))
      (e : OntologyEvent) (reason : NextActionReason)
      → Memᴰ (e, reason) (push_key events fired df o rest)
        ↔ (((o ≡ some e) × (reason_of events fired df e ≡ some reason)) ⊎ Memᴰ (e, reason) rest)
  unfolding push_key
  push_key_iff df none rest e reason =
      ((λ m. inr m), (λ s. elim s [ inl (q, _) ↦ absurd (none≢some q) | inr m ↦ m ]))
  push_key_iff df (some f) rest e reason =
      let (to, from) = push_action_iff f (reason_of events fired df f) rest e reason in
      (
        (λ m. elim (to m) [
          | inl (q, h) ↦ inl (ap some q, ap (reason_of events fired df) (sym q) ∙ h)
          | inr n ↦ inr n
        ]),
        (λ s. elim s [
          | inl (q, h) ↦ from (inl (some-eq q, ap (reason_of events fired df) (some-eq q) ∙ h))
          | inr n ↦ from (inr n)
        ]),
      )

  Collected : Map Bool → List String → OntologyEvent → NextActionReason → Type 0
  Collected df keys e reason =
      Exists
        (λ key. (event_by_key events key ≡ some e) × (reason_of events fired df e ≡ some reason))
        keys

  collect_ready_iff :
      (df : Map Bool) (keys : List String) (e : OntologyEvent) (reason : NextActionReason)
      → Memᴰ (e, reason) (collect_ready events fired df keys) ↔ Collected df keys e reason
  unfolding collect_ready Collected
  collect_ready_iff df [] e reason = ((λ m. elim m [ ]), (λ (k, m, q). elim m [ ]))
  collect_ready_iff df (key ∷ keys) e reason =
      let (to, from) =
        push_key_iff df (event_by_key events key) (collect_ready events fired df keys) e reason in
      let (deep, up) = collect_ready_iff df keys e reason in
      (
        (λ m. elim (to m) [
          | inl (q, h) ↦ (key, Memᴰ.head refl, (q, h))
          | inr n ↦ let (k, l, h) = deep n in (k, Memᴰ.tail l, h)
        ]),
        (λ (k, m, (q, h)). elim (mem-cons m) [
          | inl p ↦ from (inl (ap (event_by_key events) (sym p) ∙ q, h))
          | inr n ↦ from (inr (up (k, n, (q, h))))
        ]),
      )

own-key :
    (events : List OntologyEvent) (e : OntologyEvent)
    → Distinct (keys_of events)
    → Memᴰ e events
    → event_by_key events e.key ≡ some e
unfolding event_by_key
own-key events e unique m = get-index_by (λ e. e) events [] e unique m

false_of_not : (b : Bool) → ¬ (b ≡ true) → b ≡ false
false_of_not true h = absurd (h refl)
false_of_not false h = refl

-- For a model whose events have different keys and that has a topological order: an event is offered
-- for a case, with a reason, exactly when it is a step of the model that has not fired, no event that
-- follows it, directly or through others, has fired, and either the event has no predecessor and
-- nothing has fired (`start`) or one of its predecessors is satisfied (`ready`).
pub frontier_iff :
    (events : List OntologyEvent) (topo fired : List String) (e : OntologyEvent)
    (reason : NextActionReason)
    → Distinct (keys_of events)
    → topological_order events ≡ ok topo
    → Memᴰ (e, reason) (frontier events topo fired) ↔ IsNext events fired e reason
unfolding frontier Collected
frontier_iff events topo fired e reason unique h = (there, back)
  where
    topo-IsOrder : IsOrder events topo
    topo-IsOrder = (topological_order-IsOrder events unique topo h).0

    bypassed_iff :
        (m : Memᴰ e events)
        → (or_false (get (sweep events fired topo) e.key) ≡ true) ↔ Bypassed events fired e.key
    bypassed_iff m =
        sweep_iff events fired topo topo-IsOrder (topological_order-IsOrder events unique topo h).1
          unique e.key (topo-IsOrder.1 e.key (mem-map (λ e. e.key) m))

    there : Memᴰ (e, reason) (frontier events topo fired) → IsNext events fired e reason
    there m =
        let (key, km, (found, given)) =
          (collect_ready_iff events fired (sweep events fired topo) topo e reason).0 m in
        let (f, fm, fk) = map-mem (λ e. e.key) events (topo-IsOrder.0 key km) in
        let same : f ≡ e =
          some-eq
            (sym (own-key events f unique fm) ∙ (ap (event_by_key events) (sym fk) ∙ found)) in
        let em = subst (λ x. Memᴰ x events) same fm in
        let (step, gone, under, may) =
          (reason_of_iff events fired (sweep events fired topo) e reason).0 given in
        record {
          in_model = em;
          step = step;
          not_fired = gone;
          not_bypassed = λ b. true≢false (sym ((bypassed_iff em).1 b) ∙ under);
          unblocked = may;
        }

    back : IsNext events fired e reason → Memᴰ (e, reason) (frontier events topo fired)
    back n = (collect_ready_iff events fired (sweep events fired topo) topo e reason).1 (
      e.key,
      topo-IsOrder.1 e.key (mem-map (λ e. e.key) n.in_model),
      (
        own-key events e unique n.in_model,
        (reason_of_iff events fired (sweep events fired topo) e reason).1 (
          n.step,
          n.not_fired,
          false_of_not _ (λ t. n.not_bypassed ((bypassed_iff n.in_model).0 t)),
          n.unblocked,
        ),
      ),
    )
