-- ===== src/Pdp/Principals/Markings.antt =====
-- What `expandPrincipal` and `heldMarkings` return, by the rows of the tables.
use qlerify_live.Prelude.{
  String, ◌≡◌, refl, sym, subst, ◌⊎◌, inl, inr, ◌↔◌, List, [], ◌∷◌, map, Memᴰ, ◌==◌, string_eq,
  filter, filter-mem, mem-filter, map-mem, mem-map, has, has-mem, mem-has, add_all, mem-add_all,
  mem-add_all_left, mem-add_all_right, eq_of_beq, beq_of_eq, Exists, mem-cons,
}
use qlerify_live.Pdp.Types.{
  PrincipalType, identity, group, service_account, Principal, type_name, MarkingGrant, Tables,
}
use qlerify_live.Pdp.Principals.{
  principal_key, keys_of_type, groups_of, expand_principal, holder, held_markings,
}
use qlerify_live.Pdp.Principals.Rows.{Holds}
use qlerify_live.Pdp.Principals.Closure.{groups_of_iff}

module _ (db : Tables) (organization_id : String) where
  -- A key that the caller acts under: its own, or, for an identity, that of a group that holds it.
  abbrev pub IsKey : Principal → String → Type 0
  IsKey principal k =
      (k ≡ principal_key (type_name principal.type) principal.id)
      ⊎ ((principal.type ≡ identity)
          × ((g : String) × Holds db organization_id principal.id g
              × (k ≡ principal_key "group" g)))

  keys-IsKey :
      (type : PrincipalType) (id own : String) {k : String}
      → Memᴰ k (keys_of_type type own (groups_of db organization_id id))
      → (k ≡ own)
        ⊎ ((type ≡ identity)
            × ((g : String) × Holds db organization_id id g × (k ≡ principal_key "group" g)))
  unfolding keys_of_type
  keys-IsKey identity id own m = elim (mem-add_all (own ∷ []) _ m) [
    | inl l ↦ elim (mem-cons l) [ inl q ↦ inl q | inr n ↦ elim n [ ] ]
    | inr r ↦
        let (g, here, q) = map-mem (principal_key "group") (groups_of db organization_id id) r in
        inr (refl, (g, (groups_of_iff db organization_id id g).0 here, q))
  ]
  keys-IsKey group id own m = elim (mem-cons m) [ inl q ↦ inl q | inr n ↦ elim n [ ] ]
  keys-IsKey service_account id own m = elim (mem-cons m) [ inl q ↦ inl q | inr n ↦ elim n [ ] ]

  own-keys :
      (type : PrincipalType) (own : String) (groups : List String)
      → Memᴰ own (keys_of_type type own groups)
  unfolding keys_of_type
  own-keys identity own groups =
      mem-add_all_left (own ∷ []) (map (principal_key "group") groups) (Memᴰ.head refl)
  own-keys group own groups = Memᴰ.head refl
  own-keys service_account own groups = Memᴰ.head refl

  group-keys :
      (type : PrincipalType) (own : String) {g : String} (groups : List String)
      → type ≡ identity
      → Memᴰ g groups
      → Memᴰ (principal_key "group" g) (keys_of_type type own groups)
  unfolding keys_of_type
  group-keys identity own groups e m = mem-add_all_right (own ∷ []) _ (mem-map _ m)
  group-keys group own groups e m = cc
  group-keys service_account own groups e m = cc

  -- The keys that a caller acts under are its own and, for an identity, those of the groups that
  -- hold it directly or through other groups, and no others.
  pub expand_principal_iff :
      (principal : Principal) (k : String)
      → Memᴰ k (expand_principal db organization_id principal) ↔ IsKey principal k
  unfolding expand_principal
  expand_principal_iff principal k = (keys-IsKey principal.type principal.id _, back)
    where
      own : String
      own = principal_key (type_name principal.type) principal.id

      groups : List String
      groups = groups_of db organization_id principal.id

      keys : List String
      keys = keys_of_type principal.type own groups

      back : IsKey principal k → Memᴰ k keys
      back (inl q) = subst (λ z. Memᴰ z keys) (sym q) (own-keys principal.type own groups)
      back (inr (person, (g, h, q))) =
          subst (λ z. Memᴰ z keys) (sym q)
            (group-keys principal.type own groups person
              ((groups_of_iff db organization_id principal.id g).1 h))

  -- A marking is held through a grant, in the organisation, to a key of the caller.
  abbrev pub IsHeld : (String → Type 0) → String → Type 0
  IsHeld Key marking_id =
      Exists
        (λ g. (g.organization_id ≡ organization_id) × Key (holder g) × (marking_id ≡ g.marking_id))
        db.marking_grants

  pub held_markings_iff :
      (keys : List String) (marking_id : String)
      → Memᴰ marking_id (held_markings db organization_id keys)
        ↔ IsHeld (λ k. Memᴰ k keys) marking_id
  unfolding held_markings
  held_markings_iff keys marking_id = (there, back)
    where
      granted : List MarkingGrant
      granted = filter (λ g. g.organization_id == organization_id) db.marking_grants

      there :
          Memᴰ marking_id
            (add_all [] (map (λ g. g.marking_id) (filter (λ g. has keys (holder g)) granted)))
          → IsHeld (λ k. Memᴰ k keys) marking_id
      there m = elim (mem-add_all [] _ m) [
        | inl n ↦ elim n [ ]
        | inr k ↦
            let (g, kept, q) = map-mem (λ r. r.marking_id) _ k in
            let (kept', acts) = filter-mem (λ r. has keys (holder r)) granted kept in
            let (listed, org) =
              filter-mem (λ r. r.organization_id == organization_id) db.marking_grants kept' in
            (g, listed, (eq_of_beq _ _ org, has-mem keys _ acts, q))
      ]

      back :
          IsHeld (λ k. Memᴰ k keys) marking_id
          → Memᴰ marking_id
              (add_all [] (map (λ g. g.marking_id) (filter (λ g. has keys (holder g)) granted)))
      back (g, listed, (org, acts, q)) = mem-add_all_right [] _ (
          subst (λ z. Memᴰ z (map (λ r. r.marking_id) (filter (λ r. has keys (holder r)) granted)))
            (sym q)
            (mem-map (λ r. r.marking_id)
              (mem-filter (λ r. has keys (holder r)) granted
                (mem-filter _ db.marking_grants listed (beq_of_eq _ _ org)) (mem-has keys _ acts))))
