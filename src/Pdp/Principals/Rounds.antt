-- ===== src/Pdp/Principals/Rounds.antt =====
-- One round of the inner loop of `expandPrincipal`: what it does to the set and to the queue.
use qlerify_live.Prelude.Fresh.{fresh, fresh-lt}
use qlerify_live.Prelude.{
  String, ◌+◌, ◌≤◌, ◌≡◌, refl, ◌⊎◌, inl, inr, false, List, [], ◌∷◌, ◌++◌, Memᴰ, string_eq,
  option_eq, arith, Bool-cases, length, length-append, mem-cons, has, has-mem, mem-append,
  mem-append_left, mem-append_right, All,
}
use qlerify_live.Pdp.Types.{Tables}
use qlerify_live.Pdp.Principals.{push_parents}
use qlerify_live.Pdp.Principals.Rows.{all_groups}

module _ (db : Tables) (organization_id : String) where
  -- What one round of the inner loop does to the set and the queue.
  pub record Pushed (ps : List String) (before after : List String × List String) : Type 0 where
    pub keeps : All (λ x. Memᴰ x after.0) before.0
    pub queued : All (λ x. Memᴰ x after.1) before.1
    pub marked : All (λ x. Memᴰ x after.0) ps
    pub new_set : All (λ x. Memᴰ x before.0 ⊎ Memᴰ x after.1) after.0
    pub origin : All (λ x. Memᴰ x before.0 ⊎ Memᴰ x ps) after.0
    pub new_queue : All (λ x. Memᴰ x before.1 ⊎ Memᴰ x ps) after.1
    pub measure :
        All (λ x. Memᴰ x (all_groups db organization_id)) ps
        → length after.1 + fresh (all_groups db organization_id) after.0
          ≤ length before.1 + fresh (all_groups db organization_id) before.0

  push_old :
      (p : String) (ps : List String) (ids queue : List String) {after : List String × List String}
      → Memᴰ p ids
      → Pushed ps (ids, queue) after
      → Pushed (p ∷ ps) (ids, queue) after
  push_old p ps ids queue m r = record {
    keeps = r.keeps;
    queued = r.queued;
    marked = λ x k. elim (mem-cons k) [ inl q ↦ r.keeps x (rw q m) | inr k' ↦ r.marked x k' ];
    new_set = r.new_set;
    origin = λ x k. elim (r.origin x k) [ inl a ↦ inl a | inr b ↦ inr (Memᴰ.tail b) ];
    new_queue = λ x k. elim (r.new_queue x k) [ inl a ↦ inl a | inr b ↦ inr (Memᴰ.tail b) ];
    measure = λ h. r.measure (λ x k. h x (Memᴰ.tail k));
  }

  push_new :
      (p : String) (ps : List String) (ids queue : List String) {after : List String × List String}
      → has ids p ≡ false
      → Pushed ps (ids ++ p ∷ [], queue ++ p ∷ []) after
      → Pushed (p ∷ ps) (ids, queue) after
  push_new p ps ids queue {after} new r = record {
    keeps = λ x k. r.keeps x (mem-append_left _ k);
    queued = λ x k. r.queued x (mem-append_left _ k);
    marked = λ x k. elim (mem-cons k) [ inl q ↦ rw q here | inr k' ↦ r.marked x k' ];
    new_set = λ x k. elim (r.new_set x k) [
      | inl a ↦ elim (mem-append ids a) [
        | inl old ↦ inl old
        | inr (Memᴰ.head q) ↦ inr (rw q there)
        | inr (Memᴰ.tail n) ↦ elim n [ ]
      ]
      | inr b ↦ inr b
    ];
    origin = λ x k. elim (r.origin x k) [
      | inl a ↦ elim (mem-append ids a) [
        | inl old ↦ inl old
        | inr (Memᴰ.head q) ↦ inr (Memᴰ.head q)
        | inr (Memᴰ.tail n) ↦ elim n [ ]
      ]
      | inr b ↦ inr (Memᴰ.tail b)
    ];
    new_queue = λ x k. elim (r.new_queue x k) [
      | inl a ↦ elim (mem-append queue a) [
        | inl old ↦ inl old
        | inr (Memᴰ.head q) ↦ inr (Memᴰ.head q)
        | inr (Memᴰ.tail n) ↦ elim n [ ]
      ]
      | inr b ↦ inr (Memᴰ.tail b)
    ];
    measure = λ h. omega (
      arith,
      r.measure (λ x k. h x (Memᴰ.tail k)),
      fresh-lt (all_groups db organization_id) ids p (h p (Memᴰ.head refl)) new,
      length-append queue (p ∷ []),
    );
  }
    where
      here : Memᴰ p after.0
      here = r.keeps p (mem-append_right ids (Memᴰ.head refl))

      there : Memᴰ p after.1
      there = r.queued p (mem-append_right queue (Memᴰ.head refl))

  pub push_parents-Pushed :
      (ps ids queue : List String) → Pushed ps (ids, queue) (push_parents ps (ids, queue))
  unfolding push_parents
  push_parents-Pushed [] ids queue = record {
    keeps = λ x k. k;
    queued = λ x k. k;
    marked = λ x k. elim k [ ];
    new_set = λ x k. inl k;
    origin = λ x k. inl k;
    new_queue = λ x k. inl k;
    measure = λ h. omega arith;
  }
  push_parents-Pushed (p ∷ ps) ids queue = elim (Bool-cases (has ids p)) [
    | inl old ↦
        rw old (push_old p ps ids queue (has-mem ids p old) (push_parents-Pushed ps ids queue))
    | inr new ↦ rw new (push_new p ps ids queue new (push_parents-Pushed ps _ _))
  ]
