-- ===== src/Tenancy.antt =====
-- platform/tenancy/context.ts and actor.ts, with the constants of platform/ids.ts: what a request is
-- bound to. The asynchronous local storage is an argument, `none` outside a request.
use qlerify_live.Prelude.{
  String, Bool, true, Option, none, some, ◌==◌, string_eq, option_eq, if◌then◌else◌,
}
use qlerify_live.Errors.{Result, ok, throw, tenant_context_missing_error, no_active_workflow_error}
use qlerify_live.Pdp.Types.{Principal, TenantContext}

abbrev pub system_org_id : String
system_org_id = "00000000-0000-4000-8000-000000000001"

abbrev pub system_workflow_id : String
system_workflow_id = "00000000-0000-4000-8000-000000000006"

-- An authenticated request, which may have no organisation.
pub record RequestContext : Type 0 where
  pub principal : Principal
  pub identity_id : Option String
  pub subject : Option String
  pub organization_id : Option String
  pub workflow_id : Option String
  pub is_platform_admin : Bool
  pub acting_as_platform_admin : Bool

-- An optional text as a condition: the empty text counts as missing.
abbrev pub given : Option String → Option String
given none = none
given (some id) = if id == "" then none else some id

abbrev pub narrow : RequestContext → String → TenantContext
narrow store organization_id = record {
  principal = store.principal;
  identity_id = store.identity_id;
  subject = store.subject;
  organization_id = organization_id;
  workflow_id = store.workflow_id;
  is_platform_admin = store.is_platform_admin;
  acting_as_platform_admin = store.acting_as_platform_admin;
}

abbrev pub with_org : RequestContext → Option String → Result TenantContext
with_org store none = throw (tenant_context_missing_error "no organization in context")
with_org store (some organization_id) = ok (narrow store organization_id)

unfoldable pub require_tenant : Option RequestContext → Result TenantContext
require_tenant none = throw (
    tenant_context_missing_error
      "no tenant context: organization_id could not be derived from the request")
require_tenant (some store) = with_org store (given store.organization_id)

unfoldable pub require_identity : Option RequestContext → Result RequestContext
require_identity none = throw (tenant_context_missing_error "no authenticated identity in context")
require_identity (some store) = ok store

abbrev org_of : Option String → Result String
org_of none = throw (tenant_context_missing_error "no organization in context")
org_of (some id) = ok id

unfoldable pub current_org_id : Option RequestContext → Result String
current_org_id none = ok system_org_id
current_org_id (some store) = org_of (given store.organization_id)

abbrev pub workflow_of : Option String → Result String
workflow_of none =
    throw
      (no_active_workflow_error "no active workflow — create a workflow in this organization first")
workflow_of (some id) = ok id

unfoldable pub current_workflow_id : Option RequestContext → Result String
current_workflow_id none = ok system_workflow_id
current_workflow_id (some store) = workflow_of (given store.workflow_id)

unfoldable pub is_system_workflow : Option RequestContext → Bool
is_system_workflow none = true
is_system_workflow (some store) = store.workflow_id == some system_workflow_id

pub data ActorKind : Type 0 where
  human ai system adapter : ActorKind

-- The scope that is pinned, else the request's.
unfoldable pub current_actor_kind : Option ActorKind → Option RequestContext → ActorKind
current_actor_kind (some kind) store = kind
current_actor_kind none (some store) = human
current_actor_kind none none = system

unfoldable pub actor_kind_name : ActorKind → String
actor_kind_name human = "human"
actor_kind_name ai = "ai"
actor_kind_name system = "system"
actor_kind_name adapter = "adapter"
