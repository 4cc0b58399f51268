-- ===== src/Ontology/Release.antt =====
-- The inner loop of `topologicalOrder`: what holds of the counters and of the queue on the way.
use qlerify_live.Prelude.{
  ℕ, zero, suc, String, ◌+◌, ◌≡◌, refl, sym, ap, ◌∙◌, Bool, true, false, ◌&&◌, ◌||◌, Option, some,
  List, [], ◌∷◌, ◌++◌, ◌==◌, string_eq, if◌then◌else◌, nat_beq, Map, get, put, get-put, arith,
  eq_iff, Memᴰ, has, eq_of_beq, Exists, All, inl, inr, subst, Bool-cases, mem-append,
}
use qlerify_live.Prelude.Fresh.{fresh, has-append}
use qlerify_live.Prelude.Distinct.{Distinct, Distinct-append, append_assoc}
use qlerify_live.Ontology.{OntologyEvent, release, number_or_zero}
use qlerify_live.Ontology.Numbers.{ℤ, pos, minus_one, is_zero}
use qlerify_live.Ontology.Graph.{count}

-- Once more than the number of predecessors that are not done, for each turn that is still to come.
abbrev pub wait : List String → List String → OntologyEvent → ℕ
wait done rest e = fresh e.predecessors done + count e.key rest

module _ (events : List OntologyEvent) (done : List String) where
  pub record Waiting (rest : List String) (indegree : Map ℤ) (queue : List String) : Type 0 where
    pub counted : All (λ e. get indegree e.key ≡ some (pos (wait done rest e))) events
    pub queued : All (λ e. has (done ++ queue) e.key ≡ nat_beq (wait done rest e) 0) events
    pub distinct : Distinct (done ++ queue)
    pub known : All (λ k. Exists (λ e. e.key ≡ k) events) (done ++ queue)

has-push :
    (done queue : List String) (b : Bool) (s x : String)
    → has (done ++ (if b then queue ++ s ∷ [] else queue)) x
      ≡ (has (done ++ queue) x || b && s == x)
has-push done queue true s x =
    ap (λ l. has l x) (sym (append_assoc done queue (s ∷ []))) ∙ has-append (done ++ queue) s x
has-push done queue false s x = ground arith

count_self : (s : String) (keys : List String) → count s (s ∷ keys) ≡ suc (count s keys)
unfolding count
count_self s keys = ground (arith, eq_iff s s)

count-other :
    (s x : String) (keys : List String) → (s == x) ≡ false → count x (s ∷ keys) ≡ count x keys
unfolding count
count-other s x keys h = ground (arith, h)

pos_less :
    (number : Option ℤ) (n : ℕ)
    → number ≡ some (pos (suc n))
    → minus_one (number_or_zero number) ≡ pos n
pos_less number n h = ap (λ o. minus_one (number_or_zero o)) h

pub is_zero-pos : (n : ℕ) → is_zero (pos n) ≡ nat_beq n 0
is_zero-pos zero = refl
is_zero-pos (suc n) = ground arith

module _ {events : List OntologyEvent} {done : List String} (s : String) (keys : List String)
    {indegree : Map ℤ} {queue : List String}
    (w : Waiting events done (s ∷ keys) indegree queue) where
  new_count : ℤ
  new_count = minus_one (number_or_zero (get indegree s))

  new_count-eq :
      (e : OntologyEvent) → Memᴰ e events → s ≡ e.key → new_count ≡ pos (wait done keys e)
  unfolding new_count
  new_count-eq e m q =
      pos_less (get indegree s) (wait done keys e)
        (ap (get indegree) q ∙ (w.counted e m ∙ ap (λ n. some (pos n)) one_more))
    where
      one_more : wait done (s ∷ keys) e ≡ suc (wait done keys e)
      one_more = omega (arith, ap (λ k. count e.key (k ∷ keys)) q, count_self e.key keys)

  wait-other :
      (e : OntologyEvent) → (s == e.key) ≡ false → wait done (s ∷ keys) e ≡ wait done keys e
  wait-other e h = ap (λ n. fresh e.predecessors done + n) (count-other s e.key keys h)

  -- The key was not yet in the queue, since it was waiting for this turn.
  new_key : (e : OntologyEvent) → Memᴰ e events → s ≡ e.key → has (done ++ queue) s ≡ false
  new_key e m q =
      ap (has (done ++ queue)) q
      ∙ (w.queued e m ∙ ground (arith, ap (λ k. count e.key (k ∷ keys)) q, count_self e.key keys))

  release_step :
      (e : OntologyEvent)
      → Memᴰ e events
      → s ≡ e.key
      → Waiting events done keys
          (put indegree s new_count)
          (if is_zero new_count then queue ++ s ∷ [] else queue)
  release_step e m q = record {
    counted = λ f k. elim (Bool-cases (s == f.key)) [
      | inl same ↦
          get-put indegree s new_count f.key
          ∙ ground (arith, same, new_count-eq f k (eq_of_beq s f.key same))
      | inr other ↦
          get-put indegree s new_count f.key
          ∙ ground (arith, other, w.counted f k, wait-other f other)
    ];
    queued = λ f k.
        has-push done queue (is_zero new_count) s f.key ∙ elim (Bool-cases (s == f.key)) [
          | inl same ↦
              let p = eq_of_beq s f.key same in
              ground (
                arith,
                same,
                ap (has (done ++ queue)) p,
                new_key f k p,
                ap is_zero (new_count-eq f k p),
                is_zero-pos (wait done keys f),
              )
          | inr other ↦ ground (arith, other, w.queued f k, wait-other f other)
        ];
    distinct = elim (Bool-cases (is_zero new_count)) [
      | inl zero_now ↦ rw zero_now (
          subst Distinct (append_assoc done queue (s ∷ []))
            (Distinct-append (done ++ queue) s w.distinct (new_key e m q)))
      | inr more ↦ rw more w.distinct
    ];
    known = elim (Bool-cases (is_zero new_count)) [
      | inl zero_now ↦ rw zero_now (
          subst (All (λ k. Exists (λ e. e.key ≡ k) events)) (append_assoc done queue (s ∷ []))
            (λ k n. elim (mem-append (done ++ queue) n) [
              | inl l ↦ w.known k l
              | inr (Memᴰ.head p) ↦ (e, m, sym (p ∙ q))
              | inr (Memᴰ.tail none_left) ↦ elim none_left [ ]
            ]))
      | inr more ↦ rw more w.known
    ];
  }

pub release-Waiting :
    {events : List OntologyEvent} {done : List String} (keys : List String) (indegree : Map ℤ)
    (queue : List String)
    → All (λ k. Exists (λ e. e.key ≡ k) events) keys
    → Waiting events done keys indegree queue
    → Waiting events done [] (release keys indegree queue).0 (release keys indegree queue).1
unfolding release new_count
release-Waiting [] indegree queue h w = w
release-Waiting (s ∷ keys) indegree queue h w =
    let (e, m, q) = h s (Memᴰ.head refl) in
    release-Waiting keys _ _ (λ k n. h k (Memᴰ.tail n)) (release_step s keys w e m (sym q))
