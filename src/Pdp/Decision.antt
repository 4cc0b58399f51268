-- ===== src/Pdp/Decision.antt =====
-- platform/pdp/index.ts: `authorize`, `resourceRef`.
pub mod Grants
pub mod Markings
pub mod Laws
pub mod Subtract
use qlerify_live.Prelude.{
  String, Bool, true, false, Option, none, some, List, [], ◌∷◌, ◌++◌, map, ◌&&◌, ◌==◌, not,
  string_eq, option_eq, if◌then◌else◌, filter, find, has, any, add_all, template, ◌||◌,
}
use qlerify_live.Errors.{Result, ok, throw, ◌>>=◌}
use qlerify_live.Pdp.Types.{
  Permission, view, edit, administer, deploy, permission_eq, ScopeType, organization, environment,
  workspace, workflow, resource, scope_eq, Principal, TenantContext, AuthzResource, RoleAssignment,
  SharingGrant, ResourceMarking, Tables,
}
use qlerify_live.Pdp.ActionMap.{action_to_permission}
use qlerify_live.Pdp.Principals.{principal_key, expand_principal, held_markings}

pub record AuthzDecision : Type 0 where
  pub allow : Bool
  pub reason : String

abbrev pub allow_for : String → AuthzDecision
allow_for reason = record { allow = true; reason = reason }

abbrev pub deny_for : String → AuthzDecision
deny_for reason = record { allow = false; reason = reason }

unfoldable pub role_permissions : String → List Permission
role_permissions role_key =
    if role_key == "owner" || role_key == "org_admin"
    then administer ∷ edit ∷ view ∷ []
    else if role_key == "editor"
    then edit ∷ view ∷ []
    else if role_key == "viewer"
    then view ∷ []
    else if role_key == "deployer"
    then deploy ∷ []
    else []

unfoldable pub expand_permission : String → List Permission
expand_permission p =
    if p == "administer"
    then administer ∷ edit ∷ view ∷ []
    else if p == "edit"
    then edit ∷ view ∷ []
    else if p == "view"
    then view ∷ []
    else if p == "deploy"
    then deploy ∷ []
    else []

unfoldable pub permission_name : Permission → String
permission_name view = "view"
permission_name edit = "edit"
permission_name administer = "administer"
permission_name deploy = "deploy"

-- The loop of the MAC gate: the first required marking that is not held.
unfoldable pub missing_marking : List String → List String → Option String
unfolding has
missing_marking held [] = none
missing_marking held (marking_id ∷ required) =
    if has held marking_id then missing_marking held required else some marking_id

-- `if (id) scopes.push(...)`: null and the empty text are skipped.
unfoldable pub scope_of : ScopeType → Option String → List (ScopeType × String)
scope_of scope_type none = []
scope_of scope_type (some id) = if id == "" then [] else (scope_type, id) ∷ []

abbrev pub scope_type_or_resource : Option ScopeType → ScopeType
scope_type_or_resource none = resource
scope_type_or_resource (some scope_type) = scope_type

-- The containment chain: resource, workflow, workspace, environment, organisation.
unfoldable pub scopes_of : AuthzResource → String → List (ScopeType × String)
unfolding scope_of
scopes_of r organization_id =
    (scope_type_or_resource r.scope_type, r.id)
    ∷ (scope_of workflow r.workflow_id
        ++ (scope_of workspace r.workspace_id
            ++ (scope_of environment r.environment_id ++ (organization, organization_id) ∷ [])))

abbrev pub assignee : RoleAssignment → String
assignee a = principal_key a.principal_type a.principal_id

abbrev pub sharee : SharingGrant → String
sharee s = principal_key s.principal_type s.principal_id

-- The loop over role assignments and the loop over sharing grants: the rows of the caller add the
-- permissions that they stand for.
unfoldable pub collect_grants :
    {Row : Type 0} (holder_of : Row → String) (permissions : Row → List Permission)
    → List String
    → List Permission
    → List Row
    → List Permission
unfolding has add_all
collect_grants holder_of permissions keys granted [] = granted
collect_grants holder_of permissions keys granted (row ∷ rows) =
    collect_grants holder_of permissions keys
      (if has keys (holder_of row) then add_all granted (permissions row) else granted) rows

unfoldable pub collect_roles : List String → List Permission → List RoleAssignment → List Permission
unfolding collect_grants principal_key role_permissions
collect_roles = collect_grants assignee (λ a. role_permissions a.role_key)

unfoldable pub collect_shares : List String → List Permission → List SharingGrant → List Permission
unfolding collect_grants principal_key expand_permission
collect_shares = collect_grants sharee (λ s. expand_permission s.permission)

abbrev pub in_scope : ScopeType → String → ScopeType × String → Bool
in_scope scope_type scope_id scope = scope_type == scope.0 && scope_id == scope.1

-- Break-glass grants these and no `deploy`.
abbrev pub break_glass_permissions : List Permission
break_glass_permissions = administer ∷ edit ∷ view ∷ []

module _ (db : Tables) where
  unfoldable pub required_markings : String → String → List String
  unfolding filter
  required_markings organization_id resource_id =
      map (λ m. m.marking_id)
        (filter (λ m. m.organization_id == organization_id && m.resource_id == resource_id)
          db.resource_markings)

  unfoldable pub assignments_in : String → List (ScopeType × String) → List RoleAssignment
  unfolding filter any
  assignments_in organization_id scopes =
      filter
        (λ a. a.organization_id == organization_id && any (in_scope a.scope_type a.scope_id) scopes)
        db.role_assignments

  unfoldable pub shares_of : String → String → List SharingGrant
  unfolding filter
  shares_of organization_id resource_id =
      filter (λ s. s.organization_id == organization_id && s.resource_id == resource_id)
        db.sharing_grants

  unfoldable pub granted_permissions : List String → AuthzResource → String → List Permission
  unfolding scopes_of assignments_in shares_of collect_roles collect_shares
  granted_permissions keys r organization_id =
      collect_shares keys
        (collect_roles keys [] (assignments_in organization_id (scopes_of r organization_id)))
        (shares_of organization_id r.id)

  -- Step 2: break-glass, else the roles along the chain and the shares of the resource.
  unfoldable pub decide_access :
      String → AuthzResource → TenantContext → List String → Permission → AuthzDecision
  unfolding granted_permissions has permission_name template
  decide_access action r ctx keys required_perm =
      if ctx.acting_as_platform_admin && has break_glass_permissions required_perm
      then allow_for
          (template ("platform-admin break-glass: " ∷ permission_name required_perm ∷ []))
      else if has (granted_permissions keys r ctx.organization_id) required_perm
      then allow_for (template ("granted " ∷ permission_name required_perm ∷ " for " ∷ action ∷ []))
      else deny_for
          (template ("no " ∷ permission_name required_perm ∷ " permission for " ∷ action ∷ []))

  -- After the MAC gate: the action's permission, which throws for an action that is not in the map.
  unfoldable pub after_markings :
      String → AuthzResource → TenantContext → List String → Option String → Result AuthzDecision
  unfolding action_to_permission decide_access template
  after_markings action r ctx keys (some marking_id) =
      ok (deny_for (template ("MAC: missing required marking " ∷ marking_id ∷ [])))
  after_markings action r ctx keys none = do
    required_perm ← action_to_permission action
    ok (decide_access action r ctx keys required_perm)

  unfoldable pub authorize : String → AuthzResource → TenantContext → Result AuthzDecision
  unfolding after_markings missing_marking required_markings held_markings expand_principal
  authorize action r ctx =
      if not (r.organization_id == ctx.organization_id)
      then ok (deny_for "cross-organization: resource belongs to a different tenant")
      else let keys = expand_principal db ctx.organization_id ctx.principal in
        after_markings action r ctx keys (
          missing_marking (held_markings db ctx.organization_id keys)
            (required_markings ctx.organization_id r.id))

-- An `AuthzResource` from a stored resource row, which always stands at the resource scope.
unfoldable pub resource_ref :
    (id organization_id : String) (workflow_id workspace_id environment_id : Option String)
    → AuthzResource
resource_ref id organization_id workflow_id workspace_id environment_id = record {
  id = id;
  organization_id = organization_id;
  scope_type = some resource;
  workflow_id = workflow_id;
  workspace_id = workspace_id;
  environment_id = environment_id;
}
