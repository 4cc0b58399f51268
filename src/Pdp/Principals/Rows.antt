-- ===== src/Pdp/Principals/Rows.antt =====
-- The membership rows that the queries of `expandPrincipal` select, and the groups that hold an
-- identity through them.
use qlerify_live.Prelude.{
  String, ◌≡◌, subst, Option, some, List, map, Memᴰ, ◌&&◌, ◌==◌, string_eq, option_eq, filter,
  filter-mem, mem-filter, map-mem, mem-map, and-eq-true, eq_of_beq, beq_of_eq, and_intro, Exists,
}
use qlerify_live.Pdp.Types.{GroupMembership, Tables}

module _ (db : Tables) (organization_id : String) where
  abbrev pub all_groups : List String
  all_groups = map (λ m. m.group_id) db.group_memberships

  abbrev pub Row : (GroupMembership → Option String) → String → GroupMembership → Type 0
  Row member id m = (m.organization_id ≡ organization_id) × (member m ≡ some id)

  -- A group holds the identity: by a membership row of its own, or by one of a group that does.
  pub data Holds (id : String) : String → Type 0 where
    direct :
        {g : String}
        → Exists (λ m. Row (λ r. r.member_identity_id) id m × (g ≡ m.group_id)) db.group_memberships
        → Holds id g
    nested :
        {h g : String}
        → Holds id h
        → Exists (λ m. Row (λ r. r.member_group_id) h m × (g ≡ m.group_id)) db.group_memberships
        → Holds id g

  pub selected :
      (member : GroupMembership → Option String) (id : String) {g : String}
      → Memᴰ g (
          map
            (λ m. m.group_id)
            (filter
              (λ m. m.organization_id == organization_id && member m == some id)
              db.group_memberships))
      → Exists (λ m. Row member id m × (g ≡ m.group_id)) db.group_memberships
  selected member id k =
      let (m, kept, q) = map-mem (λ r. r.group_id) _ k in
      let (listed, test) = filter-mem _ db.group_memberships kept in
      let (org, this) = and-eq-true _ _ test in
      (m, listed, ((eq_of_beq _ _ org, eq_of_beq _ _ this), q))

  pub select :
      (member : GroupMembership → Option String) (id : String) {g : String}
      → Exists (λ m. Row member id m × (g ≡ m.group_id)) db.group_memberships
      → Memᴰ g (
          map
            (λ m. m.group_id)
            (filter
              (λ m. m.organization_id == organization_id && member m == some id)
              db.group_memberships))
  select member id (m, listed, ((org, this), q)) = rw q (
      mem-map (λ r. r.group_id)
        (mem-filter _ db.group_memberships listed
          (and_intro _ _ (beq_of_eq _ _ org) (beq_of_eq _ _ this))))

-- Only the membership rows count.
pub Holds-of_same_rows :
    (db db' : Tables) (organization_id id : String) {g : String}
    → db.group_memberships ≡ db'.group_memberships
    → Holds db organization_id id g
    → Holds db' organization_id id g
Holds-of_same_rows db db' organization_id id {g} e (direct row) = direct (
    subst (Exists (λ m. Row db organization_id (λ r. r.member_identity_id) id m × (g ≡ m.group_id)))
      e row)
Holds-of_same_rows db db' organization_id id {g} e (nested {h = h} k row) =
    nested (Holds-of_same_rows db db' organization_id id e k) (
      subst (Exists (λ m. Row db organization_id (λ r. r.member_group_id) h m × (g ≡ m.group_id))) e
        row)
