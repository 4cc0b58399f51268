-- ===== src/Pdp/Tests.antt =====
-- Decisions on a small organisation: alice is in the group `staff`, which is in the group `builders`.
use qlerify_live.Prelude.{String, ◌≡◌, refl, ◌↔◌, Bool, true, false, none, some, [], ◌∷◌, Memᴰ}
use qlerify_live.Errors.{ok, throw, other_error}
use qlerify_live.Pdp.Types.{
  identity, organization, Principal, TenantContext, AuthzResource, Tables, ResourceMarking,
}
use qlerify_live.Pdp.Principals.{groups_of, expand_principal}
use qlerify_live.Pdp.Principals.Rows.{Holds}
use qlerify_live.Pdp.Principals.Closure.{groups_of_iff}
use qlerify_live.Pdp.Principals.Markings.{IsKey, expand_principal_iff}
use qlerify_live.Pdp.Decision.{allow_for, deny_for, authorize}
use qlerify_live.Pdp.Decision.Laws.{Allows, IsPermitted, authorize_iff}
use qlerify_live.Pdp.Decision.Subtract.{with_marking, authorize-with_marking}

abbrev alice : Principal
alice = record { id = "alice"; type = identity }

abbrev acme : Tables
acme = record {
  group_memberships =
      record {
        organization_id = "acme";
        group_id = "staff";
        member_identity_id = some "alice";
        member_group_id = none;
      }
      ∷ record {
        organization_id = "acme";
        group_id = "builders";
        member_identity_id = none;
        member_group_id = some "staff";
      }
      ∷ record {
        organization_id = "acme";
        group_id = "staff";
        member_identity_id = none;
        member_group_id = some "builders";
      }
      ∷ [];
  marking_grants =
      record {
        organization_id = "acme";
        marking_id = "secret";
        principal_id = "staff";
        principal_type = "group";
      }
      ∷ [];
  resource_markings =
      record { organization_id = "acme"; resource_id = "plan"; marking_id = "secret" }
      ∷ record { organization_id = "acme"; resource_id = "ledger"; marking_id = "finance" }
      ∷ [];
  role_assignments =
      record {
        organization_id = "acme";
        scope_type = organization;
        scope_id = "acme";
        principal_type = "group";
        principal_id = "builders";
        role_key = "editor";
      }
      ∷ [];
  sharing_grants = [];
}

abbrev request : Bool → TenantContext
request acting = record {
  principal = alice;
  identity_id = some "alice";
  subject = none;
  organization_id = "acme";
  workflow_id = none;
  is_platform_admin = acting;
  acting_as_platform_admin = acting;
}

abbrev asset : String → String → AuthzResource
asset id organization_id = record {
  id = id;
  organization_id = organization_id;
  scope_type = none;
  workflow_id = some "flow";
  workspace_id = none;
  environment_id = none;
}

groups_of_alice : groups_of acme "acme" "alice" ≡ "staff" ∷ "builders" ∷ []
unfolding groups_of
groups_of_alice = refl

decisions :
    (authorize acme "ontology.edit" (asset "plan" "acme") (request false)
      ≡ ok (allow_for "granted edit for ontology.edit"))
    × (authorize acme "ontology.share" (asset "plan" "acme") (request false)
        ≡ ok (deny_for "no administer permission for ontology.share"))
    × (authorize acme "ontology.edit" (asset "ledger" "acme") (request true)
        ≡ ok (deny_for "MAC: missing required marking finance"))
    × (authorize acme "ontology.share" (asset "plan" "acme") (request true)
        ≡ ok (allow_for "platform-admin break-glass: administer"))
    × (authorize acme "environment.deploy" (asset "plan" "acme") (request true)
        ≡ ok (deny_for "no deploy permission for environment.deploy"))
    × (authorize acme "ontology.read" (asset "plan" "other") (request true)
        ≡ ok (deny_for "cross-organization: resource belongs to a different tenant"))
    × (authorize acme "fly" (asset "plan" "acme") (request false)
        ≡ throw (other_error "unknown action \"fly\" — add it to ACTION_PERMISSION_MAP"))
unfolding authorize
decisions = (refl, refl, refl, refl, refl, refl, refl)

groups_of_iff_example :
    Memᴰ "builders" (groups_of acme "acme" "alice") ↔ Holds acme "acme" "alice" "builders"
groups_of_iff_example = groups_of_iff acme "acme" "alice" "builders"

expand_principal_iff_example :
    Memᴰ "group:builders" (expand_principal acme "acme" alice)
    ↔ IsKey acme "acme" alice "group:builders"
expand_principal_iff_example = expand_principal_iff acme "acme" alice "group:builders"

authorize_iff_example :
    Allows (authorize acme "ontology.edit" (asset "plan" "acme") (request false))
    ↔ IsPermitted acme "ontology.edit" (asset "plan" "acme") (request false)
authorize_iff_example = authorize_iff acme "ontology.edit" (asset "plan" "acme") (request false)

abbrev extra_marking : ResourceMarking
extra_marking = record { organization_id = "acme"; resource_id = "plan"; marking_id = "secret" }

marked_twice : Allows (
    authorize
      (with_marking extra_marking acme)
      "ontology.edit"
      (asset "plan" "acme")
      (request false))
unfolding authorize
marked_twice = refl

authorize-with_marking_example :
    Allows (authorize acme "ontology.edit" (asset "plan" "acme") (request false))
authorize-with_marking_example =
    authorize-with_marking acme extra_marking "ontology.edit" (asset "plan" "acme") (request false)
      marked_twice
