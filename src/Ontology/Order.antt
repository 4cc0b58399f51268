-- ===== src/Ontology/Order.antt =====
-- `topologicalOrder`: what it returns is an order of the events, and it returns one where there is one.
use qlerify_live.Prelude.{
  String, ◌≡◌, refl, sym, ap, ◌∙◌, true, List, [], ◌∷◌, ◌++◌, ◌==◌, string_eq, nat_eq, length,
  arith, Memᴰ, has, has-mem, beq_of_eq, eq_of_beq, All, inl, inr, subst, Bool-cases, length-map,
  map-mem, mem-append, mem-cons,
}
use qlerify_live.Errors.{Error, ok, throw}
use qlerify_live.Prelude.Distinct.{Distinct, length-Distinct, Distinct-all, append-nil}
use qlerify_live.Ontology.{OntologyEvent, kahn, topological_order, initial_indegree, initial_queue}
use qlerify_live.Ontology.Graph.{count}
use qlerify_live.Ontology.Loop.{After, keys_of, Finished, kahn-Finished, fresh_of_All, known-mem}
use qlerify_live.Ontology.Start.{start-Waiting}

ok-injective : {x y : List String} → ok x ≡ ok y → x ≡ y
ok-injective h = cc

throw≢ok : {x : List String} {e : Error} → ¬ (throw e ≡ ok x)
throw≢ok h = cc

-- An order of the events: all their keys and no others, each after the predecessors of its event.
abbrev pub IsOrder : List OntologyEvent → List String → Type 0
IsOrder events order =
    All (λ k. Memᴰ k (keys_of events)) order
    × All (λ k. Memᴰ k order) (keys_of events)
    × After events [] order

module _ (events : List OntologyEvent) (unique : Distinct (keys_of events)) where
  final : List String
  final = kahn events (length events) (initial_indegree events) (initial_queue events) []

  final-Finished : Finished events unique [] final
  unfolding final
  final-Finished =
      kahn-Finished events unique (length events) _ _ [] (start-Waiting events unique) (omega arith)

  final-After : After events [] final
  final-After =
      let (later, e, after, settled) = final-Finished in subst (After events []) (sym e) after

  final-Distinct : Distinct final
  final-Distinct =
      let (later, e, after, (indegree, w)) = final-Finished in
      subst Distinct (append-nil final) w.distinct

  final-known : All (λ k. Memᴰ k (keys_of events)) final
  final-known k m =
      let (later, e, after, (indegree, w)) = final-Finished in
      known-mem k (w.known k (subst (Memᴰ k) (sym (append-nil final)) m))

  final-ready :
      (e : OntologyEvent)
      → Memᴰ e events
      → All (λ p. Memᴰ p final) e.predecessors
      → Memᴰ e.key final
  unfolding count
  final-ready e m h =
      let (later, q, after, (indegree, w)) = final-Finished in
      has-mem final e.key (
        ap (λ l. has l e.key) (sym (append-nil final))
        ∙ (w.queued e m ∙ ground (arith, fresh_of_All e.predecessors final h)))

  -- Where there is an order, the loop has put every key into its own.
  All-final :
      (earlier plan : List String)
      → All (λ k. Memᴰ k final) earlier
      → All (λ k. Memᴰ k (keys_of events)) plan
      → After events earlier plan
      → All (λ k. Memᴰ k final) plan
  All-final earlier [] h known a = λ x m. elim m [ ]
  All-final earlier (k ∷ plan) h known (ready, a) = λ x m. elim (mem-cons m) [
    | inl q ↦ subst (λ z. Memᴰ z final) (sym q) first
    | inr n ↦ All-final (earlier ++ k ∷ []) plan earlier_too (λ y l. known y (Memᴰ.tail l)) a x n
  ]
    where
      first : Memᴰ k final
      first =
          let (e, m, q) = map-mem (λ e. e.key) events (known k (Memᴰ.head refl)) in
          subst (λ z. Memᴰ z final) (sym q) (final-ready e m (λ p l. h p (ready e m (sym q) p l)))

      earlier_too : All (λ y. Memᴰ y final) (earlier ++ k ∷ [])
      earlier_too y l = elim (mem-append earlier l) [
        | inl old ↦ h y old
        | inr (Memᴰ.head q) ↦ subst (λ z. Memᴰ z final) (sym q) first
        | inr (Memᴰ.tail n) ↦ elim n [ ]
      ]

  -- For events with different keys: the order that is returned has every event's key, each once and
  -- no others, and every event stands after all the events that it names as predecessors.
  pub topological_order-IsOrder :
      (order : List String)
      → topological_order events ≡ ok order
      → IsOrder events order × Distinct order
  unfolding topological_order final
  topological_order-IsOrder order h = elim (Bool-cases (length final == length events)) [
    | inl full ↦
        let e : final ≡ order = ok-injective (rw full at h) in
        subst (λ o. IsOrder events o × Distinct o) e
          ((final-known, everything full, final-After), final-Distinct)
    | inr short ↦ absurd (throw≢ok (rw short at h))
  ]
    where
      everything : (length final == length events) ≡ true → All (λ k. Memᴰ k final) (keys_of events)
      everything full = Distinct-all (keys_of events) final final-Distinct final-known (
          omega
            (arith, eq_of_beq (length final) (length events) full, length-map events (λ e. e.key)))

  -- For events with different keys: where some list is an order of the events, one is returned.
  pub topological_order-total :
      (plan : List String)
      → IsOrder events plan
      → (order : List String) × (topological_order events ≡ ok order)
  unfolding topological_order final
  topological_order-total plan (known, full, after) = (final, rw enough refl)
    where
      enough : (length final == length events) ≡ true
      enough = beq_of_eq (length final) (length events) (
          omega (
            arith,
            length-map events (λ e. e.key),
            length-Distinct (keys_of events) final final-Distinct final-known,
            length-Distinct final (keys_of events) unique
                (λ k m. All-final [] plan (λ x l. elim l [ ]) known after k (full k m)),
          ))
