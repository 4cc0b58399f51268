-- ===== src/Pdp/Principals/Closure.antt =====
-- The groups that `expandPrincipal` finds are exactly those that hold the identity, directly or
-- through other groups.
use qlerify_live.Prelude.Fresh.{fresh, fresh-nil, length-add_all-fresh}
use qlerify_live.Prelude.{
  ℕ, zero, suc, String, ◌+◌, ◌≤◌, refl, subst, ◌⊎◌, inl, inr, ◌↔◌, List, [], ◌∷◌, Memᴰ, string_eq,
  option_eq, arith, length, length-map, mem-map, add_all, mem-add_all, mem-add_all_right, All,
}
use qlerify_live.Pdp.Types.{Tables}
use qlerify_live.Pdp.Principals.{direct_groups, parent_groups, walk_groups, groups_of}
use qlerify_live.Pdp.Principals.Rows.{Holds, direct, nested, all_groups, selected, select}
use qlerify_live.Pdp.Principals.Rounds.{Pushed, push_parents-Pushed}

module _ (db : Tables) (organization_id : String) where
  -- Before a round: every marked group is queued, or all groups that hold it are marked.
  abbrev Pending : List String → List String → Type 0
  Pending ids queue =
      All (λ x. Memᴰ x queue ⊎ All (λ p. Memᴰ p ids) (parent_groups db organization_id x)) ids

  parents_listed :
      (x : String)
      → All (λ p. Memᴰ p (all_groups db organization_id)) (parent_groups db organization_id x)
  unfolding parent_groups
  parents_listed x p k =
      let (m, listed, (_, q)) = selected db organization_id (λ r. r.member_group_id) x k in
      rw q (mem-map (λ r. r.group_id) listed)

  direct_listed :
      (id : String)
      → All (λ x. Memᴰ x (all_groups db organization_id)) (direct_groups db organization_id id)
  unfolding direct_groups
  direct_listed id x k =
      let (m, n, (_, q)) = selected db organization_id (λ r. r.member_identity_id) id k in
      rw q (mem-map (λ r. r.group_id) n)

  step-Pending :
      (gid : String) (ids queue : List String) {after : List String × List String}
      → Pending ids (gid ∷ queue)
      → Pushed db organization_id (parent_groups db organization_id gid) (ids, queue) after
      → Pending after.0 after.1
  step-Pending gid ids queue inv r x k = elim (r.new_set x k) [
    | inr queued ↦ inl queued
    | inl old ↦ elim (inv x old) [
      | inr done ↦ inr (λ p m. r.keeps p (done p m))
      | inl (Memᴰ.head q) ↦
          inr (λ p m. r.marked p (subst (λ z. Memᴰ p (parent_groups db organization_id z)) q m))
      | inl (Memᴰ.tail m) ↦ inl (r.queued x m)
    ]
  ]

  walk_groups_keep :
      (fuel : ℕ) (ids queue : List String)
      → All (λ x. Memᴰ x (walk_groups db organization_id fuel (ids, queue))) ids
  unfolding walk_groups
  walk_groups_keep zero ids [] x k = k
  walk_groups_keep (suc fuel) ids [] x k = k
  walk_groups_keep zero ids (gid ∷ queue) x k = k
  walk_groups_keep (suc fuel) ids (gid ∷ queue) x k =
      let r =
        push_parents-Pushed db organization_id (parent_groups db organization_id gid) ids queue in
      walk_groups_keep fuel _ _ x (r.keeps x k)

  -- With the fuel that is given the walk ends with an empty queue, so the result is closed.
  walk_groups_closed :
      (fuel : ℕ) (ids queue : List String)
      → length queue + fresh (all_groups db organization_id) ids ≤ fuel
      → Pending ids queue
      → let out = walk_groups db organization_id fuel (ids, queue) in
        All (λ x. All (λ p. Memᴰ p out) (parent_groups db organization_id x)) out
  unfolding walk_groups
  walk_groups_closed zero ids [] h inv x k = elim (inv x k) [ inl m ↦ elim m [ ] | inr done ↦ done ]
  walk_groups_closed (suc fuel) ids [] h inv x k = elim (inv x k) [
    | inl m ↦ elim m [ ]
    | inr done ↦ done
  ]
  walk_groups_closed zero ids (gid ∷ queue) h inv x k = absurd (omega arith)
  walk_groups_closed (suc fuel) ids (gid ∷ queue) h inv x k =
      let r =
        push_parents-Pushed db organization_id (parent_groups db organization_id gid) ids queue in
      walk_groups_closed fuel _ _ (omega (arith, r.measure (parents_listed gid)))
        (step-Pending gid ids queue inv r) x k

  walk_groups_sound :
      (id : String) (fuel : ℕ) (ids queue : List String)
      → All (Holds db organization_id id) ids
      → All (Holds db organization_id id) queue
      → All (Holds db organization_id id) (walk_groups db organization_id fuel (ids, queue))
  unfolding walk_groups
  walk_groups_sound id zero ids [] h k = h
  walk_groups_sound id (suc fuel) ids [] h k = h
  walk_groups_sound id zero ids (gid ∷ queue) h k = h
  walk_groups_sound id (suc fuel) ids (gid ∷ queue) h k =
      let r =
        push_parents-Pushed db organization_id (parent_groups db organization_id gid) ids queue in
      walk_groups_sound id fuel _ _ (λ x m. elim (r.origin x m) [ inl a ↦ h x a | inr b ↦ up x b ])
        (λ x m. elim (r.new_queue x m) [ inl a ↦ k x (Memᴰ.tail a) | inr b ↦ up x b ])
    where
      up :
          (x : String)
          → Memᴰ x (parent_groups db organization_id gid)
          → Holds db organization_id id x
      up x m =
          nested (k gid (Memᴰ.head refl))
            (unfold parent_groups in selected db organization_id (λ r. r.member_group_id) gid m)

  groups-Holds : (id : String) → All (Holds db organization_id id) (groups_of db organization_id id)
  unfolding groups_of
  groups-Holds id = walk_groups_sound id _ _ _ first first
    where
      first : All (Holds db organization_id id) (add_all [] (direct_groups db organization_id id))
      first x m = elim (mem-add_all [] _ m) [
        | inl n ↦ elim n [ ]
        | inr k ↦
            direct
              (unfold direct_groups in selected db organization_id (λ r. r.member_identity_id) id k)
      ]

  groups-closed :
      (id : String)
      → All
          (λ x.
            All
              (λ p. Memᴰ p (groups_of db organization_id id))
              (parent_groups db organization_id x))
          (groups_of db organization_id id)
  unfolding groups_of
  groups-closed id =
      let ids = add_all [] (direct_groups db organization_id id) in
      walk_groups_closed (length db.group_memberships) ids ids
        (omega (
          arith,
          length-add_all-fresh (all_groups db organization_id) []
              (direct_groups db organization_id id) (direct_listed id),
          fresh-nil (all_groups db organization_id),
          length-map db.group_memberships (λ m. m.group_id),
        ))
        (λ x k. inl k)

  Holds-groups :
      (id : String) {g : String}
      → Holds db organization_id id g
      → Memᴰ g (groups_of db organization_id id)
  Holds-groups id (direct h) =
      unfold groups_of in
      walk_groups_keep _ _ _ _ (
        mem-add_all_right [] _
          (unfold direct_groups in select db organization_id (λ r. r.member_identity_id) id h))
  Holds-groups id (nested {h = h} k row) =
      groups-closed id h (Holds-groups id k) _
        (unfold parent_groups in select db organization_id (λ r. r.member_group_id) h row)

  -- The groups that the walk finds are exactly the groups that hold the identity.
  pub groups_of_iff :
      (id g : String) → Memᴰ g (groups_of db organization_id id) ↔ Holds db organization_id id g
  groups_of_iff id g = (groups-Holds id g, Holds-groups id)
