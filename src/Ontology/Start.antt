-- ===== src/Ontology/Start.antt =====
-- `topologicalOrder` before its loop: the counters and the queue that it starts with.
use qlerify_live.Prelude.{
  String, ◌≡◌, refl, sym, ap, ◌∙◌, Bool, false, some, List, [], ◌∷◌, string_eq, nat_eq, nat_beq,
  length, get, arith, Memᴰ, has, any, mem-has, has-mem, true≢false, inl, inr, mem-map, Bool-cases,
  filter, filter-mem, mem-filter, map-mem,
}
use qlerify_live.Prelude.Fresh.{fresh-nil}
use qlerify_live.Prelude.Distinct.{Distinct}
use qlerify_live.Ontology.{OntologyEvent, initial_indegree, initial_queue, number_or_zero}
use qlerify_live.Ontology.Numbers.{pos, is_zero}
use qlerify_live.Ontology.Graph.{count, get-index_by}
use qlerify_live.Ontology.Release.{Waiting, wait, is_zero-pos}
use qlerify_live.Ontology.Loop.{keys_of}

has-filter :
    (p : OntologyEvent → Bool) (us : List OntologyEvent) (k : String)
    → has (keys_of us) k ≡ false
    → has (keys_of (filter p us)) k ≡ false
unfolding has any filter
has-filter p [] k h = refl
has-filter p (u ∷ us) k h = ground (arith, has-filter p us k)

Distinct-filter :
    (p : OntologyEvent → Bool) (us : List OntologyEvent)
    → Distinct (keys_of us)
    → Distinct (keys_of (filter p us))
unfolding filter
Distinct-filter p [] d = tt
Distinct-filter p (u ∷ us) (n, d) = elim (Bool-cases (p u)) [
  | inl kept ↦ rw kept (has-filter p us u.key n, Distinct-filter p us d)
  | inr dropped ↦ rw dropped (Distinct-filter p us d)
]

module _ (events : List OntologyEvent) (unique : Distinct (keys_of events)) where
  zero_at : String → Bool
  zero_at k = is_zero (number_or_zero (get (initial_indegree events) k))

  start-count :
      (e : OntologyEvent)
      → Memᴰ e events
      → get (initial_indegree events) e.key ≡ some (pos (length e.predecessors))
  unfolding initial_indegree
  start-count e m = get-index_by (λ e. pos (length e.predecessors)) events [] e unique m

  start-wait : (e : OntologyEvent) → length e.predecessors ≡ wait [] [] e
  unfolding count
  start-wait e = omega (arith, fresh-nil e.predecessors)

  start-queued :
      (e : OntologyEvent) → Memᴰ e events → has (initial_queue events) e.key ≡ zero_at e.key
  unfolding initial_queue zero_at
  start-queued e m = elim (Bool-cases (has (initial_queue events) e.key)) [
    | inl there ↦
        let (f, n, q) = map-mem (λ e. e.key) _ (has-mem (initial_queue events) e.key there) in
        there ∙ sym (ap zero_at q ∙ (filter-mem (λ e. zero_at e.key) events n).1)
    | inr missing ↦ elim (Bool-cases (zero_at e.key)) [
      | inl z ↦ absurd (
          true≢false (
            sym (
              mem-has (initial_queue events) e.key
                (mem-map (λ e. e.key) (mem-filter (λ e. zero_at e.key) events m z)))
            ∙ missing))
      | inr z ↦ missing ∙ sym z
    ]
  ]

  pub start-Waiting : Waiting events [] [] (initial_indegree events) (initial_queue events)
  unfolding initial_queue zero_at
  start-Waiting = record {
    counted = λ e m. start-count e m ∙ ap (λ n. some (pos n)) (start-wait e);
    queued = λ e m.
        start-queued e m
        ∙ (ap (λ o. is_zero (number_or_zero o)) (start-count e m)
            ∙ (is_zero-pos (length e.predecessors) ∙ ap (λ n. nat_beq n 0) (start-wait e)));
    distinct = Distinct-filter (λ e. zero_at e.key) events unique;
    known = λ k m.
        let (e, n, q) = map-mem (λ e. e.key) (filter (λ e. zero_at e.key) events) m in
        (e, (filter-mem (λ e. zero_at e.key) events n).0, sym q);
  }
