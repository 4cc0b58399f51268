-- ===== src/Ontology/Loop.antt =====
-- The loop of `topologicalOrder`: what it returns continues the order that it was given.
use qlerify_live.Prelude.{
  ℕ, zero, suc, String, ◌+◌, ◌≤◌, ◌≡◌, refl, sym, ap, ◌∙◌, false, some, List, [], ◌∷◌, ◌++◌, map,
  ◌==◌, string_eq, nat_beq, length, Map, arith, eq_iff, Memᴰ, has, any, mem-has, has-mem,
  true≢false, eq_of_beq, Exists, All, inl, inr, mem-map, subst, Bool-cases, mem-append_right,
  length-append, length-map,
}
use qlerify_live.Prelude.Fresh.{fresh, has-append}
use qlerify_live.Prelude.Distinct.{Distinct, append_assoc, append-nil, length-Distinct}
use qlerify_live.Ontology.{OntologyEvent, kahn, successors_of}
use qlerify_live.Ontology.Numbers.{ℤ}
use qlerify_live.Ontology.Graph.{count, count-successors_of_event, successors_of-Exists}
use qlerify_live.Ontology.Release.{Waiting, wait, release-Waiting}

-- The keys of an order, after some earlier ones: the predecessors of each stand before it.
abbrev pub After : List OntologyEvent → List String → List String → Type 0
After events earlier [] = Unit
After events earlier (k ∷ order) =
    All (λ e. e.key ≡ k → All (λ p. Memᴰ p earlier) e.predecessors) events
    × After events (earlier ++ k ∷ []) order

abbrev pub keys_of : List OntologyEvent → List String
keys_of events = map (λ e. e.key) events

fresh-done :
    (us done : List String) (k : String)
    → has done k ≡ false
    → fresh us (done ++ k ∷ []) + count k us ≡ fresh us done
unfolding fresh count
fresh-done [] done k h = omega arith
fresh-done (u ∷ us) done k h =
    ground (arith, fresh-done us done k h, has-append done k u, eq_iff k u, eq_iff u k, h)

pub fresh-zero : (us set : List String) → fresh us set ≡ 0 → All (λ u. Memᴰ u set) us
unfolding fresh
fresh-zero [] set h x m = elim m [ ]
fresh-zero (u ∷ us) set h x m = elim (Bool-cases (has set u)) [
  | inl there ↦ elim m [
    | Memᴰ.head q ↦ has-mem set x (ap (has set) q ∙ there)
    | Memᴰ.tail n ↦ fresh-zero us set (ground arith) x n
  ]
  | inr missing ↦ absurd (ground arith)
]

pub fresh_of_All : (us set : List String) → All (λ u. Memᴰ u set) us → fresh us set ≡ 0
unfolding fresh
fresh_of_All [] set h = refl
fresh_of_All (u ∷ us) set h =
    rw (mem-has set u (h u (Memᴰ.head refl))) (fresh_of_All us set (λ x m. h x (Memᴰ.tail m)))

pub Distinct-before :
    (xs ys : List String) (k : String) → Distinct (xs ++ k ∷ ys) → has xs k ≡ false
unfolding has any
Distinct-before [] ys k d = refl
Distinct-before (x ∷ xs) ys k (n, d) = elim (Bool-cases (x == k)) [
  | inl q ↦ absurd (
      true≢false (
        sym (
          mem-has (xs ++ k ∷ ys) x (
            subst (λ z. Memᴰ z (xs ++ k ∷ ys)) (sym (eq_of_beq x k q))
              (mem-append_right xs (Memᴰ.head refl))))
        ∙ n))
  | inr q ↦ ground (arith, q, Distinct-before xs ys k d)
]

count-nil : (x : String) → count x [] ≡ 0
unfolding count
count-nil x = refl

pub known-mem :
    {events : List OntologyEvent} (k : String)
    → Exists (λ e. e.key ≡ k) events
    → Memᴰ k (keys_of events)
known-mem {events} k (e, m, q) = subst (λ z. Memᴰ z (keys_of events)) q (mem-map (λ e. e.key) m)

module _ (events : List OntologyEvent) (unique : Distinct (keys_of events)) where
  -- Taking a key out of the queue: each event still waits as before, for the turns of the key too.
  pop-Waiting :
      (done : List String) (k : String) (queue : List String) (indegree : Map ℤ)
      → Waiting events done [] indegree (k ∷ queue)
      → Waiting events (done ++ k ∷ []) (successors_of events k) indegree queue
  pop-Waiting done k queue indegree w = record {
    counted = λ e m. w.counted e m ∙ ap (λ n. some (ℤ.pos n)) (same e m);
    queued = λ e m.
        ap (λ l. has l e.key) (append_assoc done (k ∷ []) queue)
        ∙ (w.queued e m ∙ ap (λ n. nat_beq n 0) (same e m));
    distinct = subst Distinct (sym (append_assoc done (k ∷ []) queue)) w.distinct;
    known =
        subst (All (λ k. Exists (λ e. e.key ≡ k) events)) (sym (append_assoc done (k ∷ []) queue))
          w.known;
  }
    where
      same :
          (e : OntologyEvent)
          → Memᴰ e events
          → wait done [] e ≡ wait (done ++ k ∷ []) (successors_of events k) e
      same e m = omega (
        arith,
        fresh-done e.predecessors done k (Distinct-before done queue k w.distinct),
        count-successors_of_event events k e unique m,
        count-nil e.key,
      )

  pub Waiting-length :
      (done rest queue : List String) (indegree : Map ℤ)
      → Waiting events done rest indegree queue
      → length done + length queue ≤ length events
  Waiting-length done rest queue indegree w = omega (
    arith,
    length-append done queue,
    length-map events (λ e. e.key),
    length-Distinct (keys_of events) (done ++ queue) w.distinct (λ k m. known-mem k (w.known k m)),
  )

  -- A key that is next in the queue has all its predecessors done.
  pop-ready :
      (done : List String) (k : String) (queue : List String) (indegree : Map ℤ)
      → Waiting events done [] indegree (k ∷ queue)
      → All (λ e. e.key ≡ k → All (λ p. Memᴰ p done) e.predecessors) events
  pop-ready done k queue indegree w e m q = fresh-zero e.predecessors done (
      ground (
        arith,
        w.queued e m,
        count-nil e.key,
        mem-has (done ++ k ∷ queue) e.key (mem-append_right done (Memᴰ.head q)),
      ))

  -- The state that the loop ends in, with an empty queue.
  abbrev pub Finished : List String → List String → Type 0
  Finished done order =
      (later : List String) × (order ≡ done ++ later)
      × After events done later
      × ((indegree : Map ℤ) × Waiting events order [] indegree [])

  pub kahn-Finished :
      (fuel : ℕ) (indegree : Map ℤ) (queue done : List String)
      → Waiting events done [] indegree queue
      → length events ≤ length done + fuel
      → Finished done (kahn events fuel indegree queue done)
  unfolding kahn
  kahn-Finished zero indegree [] done w h = ([], sym (append-nil done), tt, (indegree, w))
  kahn-Finished (suc fuel) indegree [] done w h = ([], sym (append-nil done), tt, (indegree, w))
  kahn-Finished zero indegree (k ∷ queue) done w h =
      absurd (omega (arith, Waiting-length done [] (k ∷ queue) indegree w, h))
  kahn-Finished (suc fuel) indegree (k ∷ queue) done w h =
      let released =
        release-Waiting (successors_of events k) indegree queue (successors_of-Exists events k)
          (pop-Waiting done k queue indegree w) in
      let (later, e, after, settled) =
        kahn-Finished fuel _ _ (done ++ k ∷ []) released
          (omega (arith, h, length-append done (k ∷ []))) in
      (
        k ∷ later,
        e ∙ append_assoc done (k ∷ []) later,
        (pop-ready done k queue indegree w, after),
        settled,
      )
