-- ===== src/Pdp/Principals.antt =====
-- platform/pdp/index.ts: the principals that a caller acts as (`expandPrincipal`) and the markings
-- that they hold (`heldMarkings`). The queue of the breadth-first walk takes as fuel the number of
-- membership rows: a group enters the queue once, and only out of a row.
pub mod Rows
pub mod Rounds
pub mod Closure
pub mod Markings
use qlerify_live.Prelude.{
  ℕ, zero, suc, String, Bool, Option, some, List, [], ◌∷◌, ◌++◌, map, ◌&&◌, ◌==◌, string_eq,
  option_eq, if◌then◌else◌, filter, has, add_all, length, template,
}
use qlerify_live.Pdp.Types.{
  PrincipalType, identity, group, service_account, Principal, type_name, GroupMembership,
  MarkingGrant, Tables,
}

unfoldable pub principal_key : String → String → String
unfolding template
principal_key type id = template (type ∷ ":" ∷ id ∷ [])

unfoldable pub keys_of_type : PrincipalType → String → List String → List String
unfolding add_all principal_key
keys_of_type identity own groups = add_all (own ∷ []) (map (principal_key "group") groups)
keys_of_type _ own groups = own ∷ []

abbrev pub holder : MarkingGrant → String
holder g = principal_key g.principal_type g.principal_id

-- The inner `for`: a group that is new enters the set and the queue.
unfoldable pub push_parents : List String → List String × List String → List String × List String
unfolding has
push_parents [] state = state
push_parents (p ∷ ps) (group_ids, queue) =
    push_parents ps
      (if has group_ids p then (group_ids, queue) else (group_ids ++ p ∷ [], queue ++ p ∷ []))

module _ (db : Tables) (organization_id : String) where
  -- Direct groups the identity is a member of.
  unfoldable pub direct_groups : String → List String
  unfolding filter
  direct_groups id =
      map (λ m. m.group_id)
        (filter (λ m. m.organization_id == organization_id && m.member_identity_id == some id)
          db.group_memberships)

  -- Groups that contain a group.
  unfoldable pub parent_groups : String → List String
  unfolding filter
  parent_groups gid =
      map (λ m. m.group_id)
        (filter (λ m. m.organization_id == organization_id && m.member_group_id == some gid)
          db.group_memberships)

  -- `while (queue.length)`, on fuel.
  unfoldable pub walk_groups : ℕ → List String × List String → List String
  unfolding push_parents parent_groups
  walk_groups fuel (group_ids, []) = group_ids
  walk_groups zero (group_ids, gid ∷ queue) = group_ids
  walk_groups (suc fuel) (group_ids, gid ∷ queue) =
      walk_groups fuel (push_parents (parent_groups gid) (group_ids, queue))

  -- The groups of an identity, its direct groups first.
  unfoldable pub groups_of : String → List String
  unfolding direct_groups walk_groups add_all
  groups_of id =
      let group_ids = add_all [] (direct_groups id) in
      walk_groups (length db.group_memberships) (group_ids, group_ids)

  unfoldable pub expand_principal : Principal → List String
  unfolding principal_key groups_of keys_of_type type_name
  expand_principal principal =
      keys_of_type principal.type (principal_key (type_name principal.type) principal.id)
        (groups_of principal.id)

  -- The set of markings that a principal holds, its groups included.
  unfoldable pub held_markings : List String → List String
  unfolding add_all filter has principal_key
  held_markings principal_keys = add_all [] (
      map (λ g. g.marking_id)
        (filter (λ g. has principal_keys (holder g))
          (filter (λ g. g.organization_id == organization_id) db.marking_grants)))
