-- ===== src/Pdp/Decision/Grants.antt =====
-- The permissions that `authorize` gathers from roles and shares, by the rows that grant them.
use qlerify_live.Prelude.{
  String, ◌≡◌, refl, subst, ◌⊎◌, inl, inr, ◌↔◌, Bool, List, [], ◌∷◌, Memᴰ, ◌&&◌, ◌==◌, string_eq,
  if◌then◌else◌, Bool-cases, filter, filter-mem, mem-filter, any, any-Exists, any_of_mem, has,
  has-mem, mem-has, add_all, mem-add_all, mem-add_all_left, mem-add_all_right, eq_of_beq, beq_of_eq,
  and-eq-true, and_intro, Exists,
}
use qlerify_live.Pdp.Types.{
  Permission, permission_eq, ScopeType, scope_eq, AuthzResource, RoleAssignment, SharingGrant,
  Tables,
}
use qlerify_live.Pdp.Decision.{
  assignee, sharee, collect_grants, role_permissions, expand_permission, scopes_of, collect_roles,
  collect_shares, in_scope, assignments_in, shares_of, granted_permissions,
}

module _ {Row : Type 0} (holder_of : Row → String) (permissions : Row → List Permission)
    (keys : List String) (p : Permission) where
  abbrev RowGrants : Row → Type 0
  RowGrants row = Memᴰ (holder_of row) keys × Memᴰ p (permissions row)

  abbrev next : List Permission → Row → List Permission
  next granted row = if has keys (holder_of row) then add_all granted (permissions row) else granted

  next_origin :
      (granted : List Permission) (row : Row)
      → Memᴰ p (next granted row)
      → Memᴰ p granted ⊎ RowGrants row
  next_origin granted row m = elim (Bool-cases (has keys (holder_of row))) [
    | inl e ↦ elim (mem-add_all granted (permissions row) (rw e at m)) [
      | inl old ↦ inl old
      | inr new ↦ inr (has-mem keys _ e, new)
    ]
    | inr e ↦ inl (rw e at m)
  ]

  collect_grants_origin :
      (rows : List Row) (granted : List Permission)
      → Memᴰ p (collect_grants holder_of permissions keys granted rows)
      → Memᴰ p granted ⊎ Exists RowGrants rows
  unfolding collect_grants
  collect_grants_origin [] granted m = inl m
  collect_grants_origin (row ∷ rows) granted m =
      elim (collect_grants_origin rows (next granted row) m) [
        | inr (b, k, g) ↦ inr (b, Memᴰ.tail k, g)
        | inl k ↦ elim (next_origin granted row k) [
          | inl old ↦ inl old
          | inr new ↦ inr (row, Memᴰ.head refl, new)
        ]
      ]

  collect_grants_keep :
      (rows : List Row) (granted : List Permission)
      → Memᴰ p granted
      → Memᴰ p (collect_grants holder_of permissions keys granted rows)
  unfolding collect_grants
  collect_grants_keep [] granted m = m
  collect_grants_keep (row ∷ rows) granted m = collect_grants_keep rows (next granted row) kept
    where
      kept : Memᴰ p (next granted row)
      kept = elim (Bool-cases (has keys (holder_of row))) [
        | inl e ↦ rw e (mem-add_all_left granted (permissions row) m)
        | inr e ↦ rw e m
      ]

  collect_grants_complete :
      (rows : List Row) (granted : List Permission)
      → Exists RowGrants rows
      → Memᴰ p (collect_grants holder_of permissions keys granted rows)
  unfolding collect_grants
  collect_grants_complete [] granted (a, m, g) = elim m [ ]
  collect_grants_complete (b ∷ rows) granted (a, Memᴰ.head q, (acts, grants)) =
      collect_grants_keep rows (next granted b) (
        subst (λ c. Memᴰ p (next granted c)) q
          (rw (mem-has keys (holder_of a) acts) (mem-add_all_right granted (permissions a) grants)))
  collect_grants_complete (b ∷ rows) granted (a, Memᴰ.tail m, g) =
      collect_grants_complete rows (next granted b) (a, m, g)

-- A scope of a chain, named by a row.
abbrev pub InChain : List (ScopeType × String) → RoleAssignment → Type 0
InChain scopes a = Exists (λ s. (a.scope_type ≡ s.0) × (a.scope_id ≡ s.1)) scopes

module _ (db : Tables) (r : AuthzResource) (organization_id : String) where
  -- A role of the caller, at a scope of the resource's chain, that stands for the permission.
  abbrev pub RoleGrants : (String → Type 0) → Permission → RoleAssignment → Type 0
  RoleGrants Key p a =
      (a.organization_id ≡ organization_id)
      × InChain (scopes_of r organization_id) a
      × Key (assignee a)
      × Memᴰ p (role_permissions a.role_key)

  -- A share of the resource with the caller that stands for the permission.
  abbrev pub ShareGrants : (String → Type 0) → Permission → SharingGrant → Type 0
  ShareGrants Key p s =
      (s.organization_id ≡ organization_id)
      × (s.resource_id ≡ r.id)
      × Key (sharee s)
      × Memᴰ p (expand_permission s.permission)

  abbrev pub IsGranted : (String → Type 0) → Permission → Type 0
  IsGranted Key p =
      Exists (RoleGrants Key p) db.role_assignments ⊎ Exists (ShareGrants Key p) db.sharing_grants

  pub IsGranted-map :
      {Key Key' : String → Type 0} {p : Permission}
      → ((k : String) → Key k → Key' k)
      → IsGranted Key p
      → IsGranted Key' p
  IsGranted-map f (inl (a, m, (org, chained, acts, means))) =
      inl (a, m, (org, chained, f _ acts, means))
  IsGranted-map f (inr (s, m, (org, id, acts, means))) = inr (s, m, (org, id, f _ acts, means))

module _ (db : Tables) (keys : List String) (r : AuthzResource) (organization_id : String) where
  assignments_iff :
      (a : RoleAssignment)
      → Memᴰ a (assignments_in db organization_id (scopes_of r organization_id)) ↔ (
          Memᴰ a db.role_assignments
          × (a.organization_id ≡ organization_id)
          × InChain (scopes_of r organization_id) a)
  unfolding assignments_in
  assignments_iff a = (there, back)
    where
      scopes : List (ScopeType × String)
      scopes = scopes_of r organization_id

      test : RoleAssignment → Bool
      test row =
          row.organization_id == organization_id
          && any (in_scope row.scope_type row.scope_id) scopes

      there :
          Memᴰ a (filter test db.role_assignments)
          → Memᴰ a db.role_assignments × (a.organization_id ≡ organization_id) × InChain scopes a
      there m =
          let (listed, holds) = filter-mem test db.role_assignments m in
          let (org, chained) = and-eq-true _ _ holds in
          let (s, k, fits) = any-Exists (in_scope a.scope_type a.scope_id) scopes chained in
          let (kind, id) = and-eq-true _ _ fits in
          (listed, eq_of_beq _ _ org, (s, k, (eq_of_beq _ _ kind, eq_of_beq _ _ id)))

      back :
          Memᴰ a db.role_assignments × (a.organization_id ≡ organization_id) × InChain scopes a
          → Memᴰ a (filter test db.role_assignments)
      back (listed, org, (s, k, (kind, id))) = mem-filter test db.role_assignments listed (
          and_intro _ _ (beq_of_eq _ _ org) (
            any_of_mem (in_scope a.scope_type a.scope_id) scopes k
              (and_intro _ _ (beq_of_eq _ _ kind) (beq_of_eq _ _ id))))

  shares_iff :
      (s : SharingGrant)
      → Memᴰ s (shares_of db organization_id r.id) ↔ (
          Memᴰ s db.sharing_grants × (s.organization_id ≡ organization_id) × (s.resource_id ≡ r.id))
  unfolding shares_of
  shares_iff s = (there, back)
    where
      test : SharingGrant → Bool
      test row = row.organization_id == organization_id && row.resource_id == r.id

      there :
          Memᴰ s (filter test db.sharing_grants)
          → Memᴰ s db.sharing_grants
            × (s.organization_id ≡ organization_id)
            × (s.resource_id ≡ r.id)
      there m =
          let (listed, holds) = filter-mem test db.sharing_grants m in
          let (org, id) = and-eq-true _ _ holds in (listed, eq_of_beq _ _ org, eq_of_beq _ _ id)

      back :
          Memᴰ s db.sharing_grants × (s.organization_id ≡ organization_id) × (s.resource_id ≡ r.id)
          → Memᴰ s (filter test db.sharing_grants)
      back (listed, org, id) =
          mem-filter test db.sharing_grants listed
            (and_intro _ _ (beq_of_eq _ _ org) (beq_of_eq _ _ id))

  -- The gathered permissions are exactly those that a role or a share of the caller stands for.
  pub granted_permissions_iff :
      (p : Permission)
      → Memᴰ p (granted_permissions db keys r organization_id)
        ↔ IsGranted db r organization_id (λ k. Memᴰ k keys) p
  unfolding granted_permissions collect_roles collect_shares
  granted_permissions_iff p = (there, back)
    where
      roles : List RoleAssignment
      roles = assignments_in db organization_id (scopes_of r organization_id)

      shares : List SharingGrant
      shares = shares_of db organization_id r.id

      there :
          Memᴰ p (collect_shares keys (collect_roles keys [] roles) shares)
          → IsGranted db r organization_id (λ k. Memᴰ k keys) p
      there m =
          elim (collect_grants_origin sharee (λ s. expand_permission s.permission) keys p shares _
            m) [
              | inr (s, k, (acts, means)) ↦
                  let (listed, org, id) = (shares_iff s).0 k in
                  inr (s, listed, (org, id, acts, means))
              | inl k ↦
                  elim (collect_grants_origin assignee (λ a. role_permissions a.role_key) keys p
                    roles [] k) [
                      | inl n ↦ elim n [ ]
                      | inr (a, k', (acts, means)) ↦
                          let (listed, org, chained) = (assignments_iff a).0 k' in
                          inl (a, listed, (org, chained, acts, means))
                    ]
            ]

      back :
          IsGranted db r organization_id (λ k. Memᴰ k keys) p
          → Memᴰ p (collect_shares keys (collect_roles keys [] roles) shares)
      back (inr (s, listed, (org, id, acts, means))) =
          collect_grants_complete sharee (λ s. expand_permission s.permission) keys p shares _
            (s, (shares_iff s).1 (listed, org, id), (acts, means))
      back (inl (a, listed, (org, chained, acts, means))) =
          collect_grants_keep sharee (λ s. expand_permission s.permission) keys p shares _
            (collect_grants_complete assignee (λ a. role_permissions a.role_key) keys p roles []
              (a, (assignments_iff a).1 (listed, org, chained), (acts, means)))
