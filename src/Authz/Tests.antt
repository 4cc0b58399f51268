-- ===== src/Authz/Tests.antt =====
-- Runs of the guards for alice, an editor of the organisation `acme`, and the uses of their theorems.
use qlerify_live.Prelude.{
  String, ◌≡◌, ◌≢◌, refl, ◌↔◌, ◌⊎◌, true, false, Option, none, some, List, [], ◌∷◌, map,
}
use qlerify_live.Errors.{ok, throw, auth_error, domain_error}
use qlerify_live.Pdp.Types.{
  Permission, identity, organization, TenantContext, AuthzResource, Tables,
}
use qlerify_live.Pdp.ActionMap.{action_to_permission}
use qlerify_live.Pdp.Decision.Laws.{IsPermitted}
use qlerify_live.Audit.{AuditEvent}
use qlerify_live.Tenancy.{RequestContext, human, narrow}
use qlerify_live.Authz.{World, ensure_allowed, guard_data, workflow_resource}
use qlerify_live.Authz.Outcome.{Told, ensure_allowed_iff, ensure_allowed-Told}
use qlerify_live.Authz.Guard.{IsGuarded, guard_data_iff}

abbrev acme : Tables
acme = record {
  group_memberships = [];
  marking_grants = [];
  resource_markings = [];
  role_assignments =
      record {
        organization_id = "acme";
        scope_type = organization;
        scope_id = "acme";
        principal_type = "identity";
        principal_id = "alice";
        role_key = "editor";
      }
      ∷ [];
  sharing_grants = [];
}

abbrev world : World
world = record { sha256 = λ s. "h"; db = acme; id = "e1"; now = "t1" }

abbrev request : RequestContext
request = record {
  principal = record { id = "alice"; type = identity };
  identity_id = some "alice";
  subject = none;
  organization_id = some "acme";
  workflow_id = some "flow";
  is_platform_admin = false;
  acting_as_platform_admin = false;
}

abbrev alice : TenantContext
alice = narrow request "acme"

abbrev flow : AuthzResource
flow = workflow_resource "flow" alice

abbrev decisions : List AuditEvent → List (Option String)
decisions = map (λ e. e.row.decision)

guard_editor :
    (decisions (guard_data world true "connector.edit" (some request) none []).0
      ≡ some "allow" ∷ [])
    × ((guard_data world true "connector.edit" (some request) none []).1 ≡ ok tt)
    × (decisions (guard_data world true "connector.build" (some request) none []).0
        ≡ some "deny" ∷ [])
    × ((guard_data world true "connector.build" (some request) none []).1
        ≡ throw (auth_error "no administer permission for connector.build"))
    × ((guard_data world false "connector.edit" (some request) none []).1
        ≡ throw
            (domain_error "the connector / AI-codegen subsystem is disabled for this deployment"))
unfolding guard_data
guard_editor = (refl, refl, refl, refl, refl)

ensure_allowed_iff_example :
    ((ensure_allowed world "connector.edit" flow alice human []).1 ≡ ok tt)
    ↔ IsPermitted acme "connector.edit" flow alice
ensure_allowed_iff_example = ensure_allowed_iff world "connector.edit" flow alice human []

ensure_allowed-Told_example :
    Told world "connector.build" flow alice human []
      (ensure_allowed world "connector.build" flow alice human [])
    ⊎ (((ensure_allowed world "connector.build" flow alice human []).0 ≡ [])
        × ((ensure_allowed world "connector.build" flow alice human []).1 ≢ ok tt)
        × ((p : Permission) → action_to_permission "connector.build" ≢ ok p))
ensure_allowed-Told_example = ensure_allowed-Told world "connector.build" flow alice human []

guard_data_iff_example :
    ((guard_data world true "connector.edit" (some request) none []).1 ≡ ok tt)
    ↔ IsGuarded world true "connector.edit" (some request)
guard_data_iff_example = guard_data_iff world true "connector.edit" (some request) none []
