-- ===== src/Pdp/Decision/Laws.antt =====
-- When `authorize` allows an action.
use qlerify_live.Prelude.{
  String, ◌≡◌, refl, sym, subst, ◌≢◌, ◌⊎◌, inl, inr, ◌↔◌, true, false, Option, none, some, List,
  Memᴰ, ◌&&◌, ◌==◌, string_eq, arith, Bool-cases, has, has-mem, mem-has, eq_of_beq, beq_of_eq,
  and-eq-true, and_intro, or-eq-true, or_intro_right, ◌||◌, All,
}
use qlerify_live.Errors.{Result, ok, throw, ◌>>=◌}
use qlerify_live.Pdp.Types.{
  Permission, view, edit, administer, deploy, permission_eq, TenantContext, AuthzResource, Tables,
}
use qlerify_live.Pdp.ActionMap.{action_to_permission}
use qlerify_live.Pdp.Principals.{expand_principal, held_markings}
use qlerify_live.Pdp.Principals.Markings.{IsKey, expand_principal_iff, IsHeld, held_markings_iff}
use qlerify_live.Pdp.Decision.{
  AuthzDecision, missing_marking, break_glass_permissions, required_markings, granted_permissions,
  decide_access, after_markings, authorize,
}
use qlerify_live.Pdp.Decision.Grants.{IsGranted, IsGranted-map, granted_permissions_iff}
use qlerify_live.Pdp.Decision.Markings.{
  missing_marking_iff, OnResource, required-listed, listed-required,
}

abbrev pub Allows : Result AuthzDecision → Type 0
Allows (ok d) = d.allow ≡ true
Allows (throw e) = ⊥

bind-Allows :
    (m : Result Permission) (f : Permission → AuthzDecision)
    → Allows (m >>= λ p. ok (f p))
    → (p : Permission) × (m ≡ ok p) × ((f p).allow ≡ true)
bind-Allows (ok p) f h = (p, refl, h)
bind-Allows (throw e) f h = absurd h

module _ (db : Tables) (action : String) (r : AuthzResource) (ctx : TenantContext) where
  abbrev ActsAs : String → Type 0
  ActsAs = IsKey db ctx.organization_id ctx.principal

  -- The caller holds every marking of the resource.
  abbrev pub HoldsMarkings : Type 0
  HoldsMarkings =
      All
        (λ m.
          OnResource db ctx.organization_id r.id m
          → IsHeld db ctx.organization_id ActsAs m.marking_id)
        db.resource_markings

  -- The decision flow, as a statement about the rows of the tables.
  pub record IsPermitted : Type 0 where
    pub same_org : r.organization_id ≡ ctx.organization_id
    pub marked : HoldsMarkings
    pub permission : Permission
    pub mapped : action_to_permission action ≡ ok permission
    pub access :
        ((ctx.acting_as_platform_admin ≡ true) × (permission ≢ deploy))
        ⊎ IsGranted db r ctx.organization_id ActsAs permission

  keys : List String
  keys = expand_principal db ctx.organization_id ctx.principal

  break_glass_iff : (p : Permission) → (has break_glass_permissions p ≡ true) ↔ (p ≢ deploy)
  unfolding has
  break_glass_iff view = ((λ _. cc), (λ _. refl))
  break_glass_iff edit = ((λ _. cc), (λ _. refl))
  break_glass_iff administer = ((λ _. cc), (λ _. refl))
  break_glass_iff deploy = ((λ h. cc), (λ h. absurd (h refl)))

  granted_permissions_by_key :
      (p : Permission)
      → Memᴰ p (granted_permissions db keys r ctx.organization_id)
        ↔ IsGranted db r ctx.organization_id ActsAs p
  unfolding keys
  granted_permissions_by_key p =
      let (to, from) = granted_permissions_iff db keys r ctx.organization_id p in
      (
        λ m.
            IsGranted-map db r ctx.organization_id
              (λ k. (expand_principal_iff db ctx.organization_id ctx.principal k).0) (to m),
        λ g. from (
            IsGranted-map db r ctx.organization_id
              (λ k. (expand_principal_iff db ctx.organization_id ctx.principal k).1) g),
      )

  allow-decide_access :
      (p : Permission)
      → (decide_access db action r ctx keys p).allow ≡ (
          ctx.acting_as_platform_admin && has break_glass_permissions p
          || has (granted_permissions db keys r ctx.organization_id) p)
  unfolding decide_access
  allow-decide_access p = ground arith

  access_iff :
      (p : Permission)
      → ((decide_access db action r ctx keys p).allow ≡ true) ↔ (
          ((ctx.acting_as_platform_admin ≡ true) × (p ≢ deploy))
          ⊎ IsGranted db r ctx.organization_id ActsAs p)
  access_iff p = rw (allow-decide_access p) (there, back)
    where
      granted : List Permission
      granted = granted_permissions db keys r ctx.organization_id

      there :
          (ctx.acting_as_platform_admin && has break_glass_permissions p || has granted p) ≡ true
          → ((ctx.acting_as_platform_admin ≡ true) × (p ≢ deploy))
            ⊎ IsGranted db r ctx.organization_id ActsAs p
      there h = elim (or-eq-true _ _ h) [
        | inl glass ↦
            let (acting, few) = and-eq-true _ _ glass in inl (acting, (break_glass_iff p).0 few)
        | inr given ↦ inr ((granted_permissions_by_key p).0 (has-mem granted p given))
      ]

      back :
          ((ctx.acting_as_platform_admin ≡ true) × (p ≢ deploy))
            ⊎ IsGranted db r ctx.organization_id ActsAs p
          → (ctx.acting_as_platform_admin && has break_glass_permissions p || has granted p) ≡ true
      back (inl (acting, few)) = rw (and_intro _ _ acting ((break_glass_iff p).1 few))
      back (inr given) =
          or_intro_right _ _ (mem-has granted p ((granted_permissions_by_key p).1 given))

  markings_iff :
      (missing_marking
          (held_markings db ctx.organization_id keys)
          (required_markings db ctx.organization_id r.id)
        ≡ none)
      ↔ HoldsMarkings
  unfolding keys
  markings_iff = (there, back)
    where
      held : List String
      held = held_markings db ctx.organization_id keys

      required : List String
      required = required_markings db ctx.organization_id r.id

      to_caller : (id : String) → Memᴰ id held ↔ IsHeld db ctx.organization_id ActsAs id
      to_caller id =
          let (to, from) = held_markings_iff db ctx.organization_id keys id in
          let key = expand_principal_iff db ctx.organization_id ctx.principal in
          (
            λ m. let (g, k, (org, acts, q)) = to m in (g, k, (org, (key _).0 acts, q)),
            λ (g, k, (org, acts, q)). from (g, k, (org, (key _).1 acts, q)),
          )

      there : missing_marking held required ≡ none → HoldsMarkings
      there e m k on = (to_caller m.marking_id).0 (
          (missing_marking_iff held required).0 e m.marking_id
            (listed-required db ctx.organization_id r.id m k on))

      back : HoldsMarkings → missing_marking held required ≡ none
      back h = (missing_marking_iff held required).1 λ id k.
          let (m, listed, (on, q)) = required-listed db ctx.organization_id r.id id k in
          (to_caller id).1 (subst (IsHeld db ctx.organization_id ActsAs) (sym q) (h m listed on))

  -- What follows the boundary check.
  past_boundary : Result AuthzDecision
  unfolding keys
  past_boundary = after_markings db action r ctx keys (
      missing_marking (held_markings db ctx.organization_id keys)
        (required_markings db ctx.organization_id r.id))

  authorize-past_boundary :
      r.organization_id ≡ ctx.organization_id → authorize db action r ctx ≡ past_boundary
  unfolding authorize past_boundary
  authorize-past_boundary same = rw (beq_of_eq _ _ same)

  same-boundary : Allows (authorize db action r ctx) → r.organization_id ≡ ctx.organization_id
  unfolding authorize
  same-boundary h = elim (Bool-cases (r.organization_id == ctx.organization_id)) [
    | inl e ↦ eq_of_beq _ _ e
    | inr e ↦ let h' : false ≡ true = rw e at h in cc
  ]

  after_markings_gate :
      (gate : Option String)
      → Allows (after_markings db action r ctx keys gate)
      → (gate ≡ none)
        × ((p : Permission) × (action_to_permission action ≡ ok p)
            × ((decide_access db action r ctx keys p).allow ≡ true))
  unfolding after_markings
  after_markings_gate none h = (refl, bind-Allows (action_to_permission action) _ h)
  after_markings_gate (some id) h = cc

  past-permitted :
      Allows past_boundary
      → HoldsMarkings
        × ((p : Permission) × (action_to_permission action ≡ ok p)
            × ((decide_access db action r ctx keys p).allow ≡ true))
  unfolding past_boundary
  past-permitted h =
      let (none_missing, rest) = after_markings_gate _ h in (markings_iff.0 none_missing, rest)

  permitted-past :
      HoldsMarkings
      → (p : Permission) → action_to_permission action ≡ ok p
      → (decide_access db action r ctx keys p).allow ≡ true
      → Allows past_boundary
  unfolding past_boundary after_markings
  permitted-past marks p mapped h = rw (markings_iff.1 marks, mapped) h

  -- An action is allowed exactly when the resource belongs to the caller's organisation, the caller
  -- (itself or through its groups) holds a grant of every marking of the resource, the action is in
  -- the map, and its permission is either granted by a role on the containment chain or by a share,
  -- or the caller acts as platform admin and the permission is not `deploy`.
  pub authorize_iff : Allows (authorize db action r ctx) ↔ IsPermitted
  authorize_iff = (there, back)
    where
      there : Allows (authorize db action r ctx) → IsPermitted
      there h =
          let same = same-boundary h in
          let (marks, (p, mapped, allowed)) =
            past-permitted (subst Allows (authorize-past_boundary same) h) in
          record {
            same_org = same;
            marked = marks;
            permission = p;
            mapped = mapped;
            access = (access_iff p).0 allowed;
          }

      back : IsPermitted → Allows (authorize db action r ctx)
      back w =
          subst Allows (sym (authorize-past_boundary w.same_org))
            (permitted-past w.marked w.permission w.mapped ((access_iff w.permission).1 w.access))
