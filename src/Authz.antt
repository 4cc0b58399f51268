-- ===== src/Authz.antt =====
-- platform/authz.ts: `ensureAllowed` and `guardData`. The log is passed in and returned, beside what
-- the call ends in; the tables, the digest, the id and the time of the entry are arguments.
pub mod Outcome
pub mod Guard
mod Tests
use qlerify_live.Prelude.{
  String, Bool, true, false, Option, none, some, List, [], ◌∷◌, ◌&&◌, not, if◌then◌else◌, template,
}
use qlerify_live.Errors.{Result, ok, throw, auth_error, domain_error}
use qlerify_live.Pdp.Types.{TenantContext, AuthzResource, Tables, workflow}
use qlerify_live.Pdp.Decision.{AuthzDecision, authorize}
use qlerify_live.Audit.{AuditInput, AuditEvent, record_audit}
use qlerify_live.Tenancy.{
  RequestContext, ActorKind, require_tenant, current_workflow_id, current_actor_kind,
  actor_kind_name,
}
use text.Mathlib.Text.{starts_with}

-- The log after a call, and what the call ends in.
abbrev pub Logged : Type 0
Logged = List AuditEvent × Result (Unit {0})

-- What stands outside the program at a call: the digest, the rows, the entry's id and time.
pub record World : Type 0 where
  pub sha256 : String → String
  pub db : Tables
  pub id : String
  pub now : String

abbrev pub audit_input :
    String → AuthzResource → TenantContext → ActorKind → AuthzDecision → AuditInput
audit_input action r ctx kind decision = record {
  organization_id = ctx.organization_id;
  actor_principal_id = some ctx.principal.id;
  action = if ctx.acting_as_platform_admin then template ("break_glass." ∷ action ∷ []) else action;
  target_ref = some (template ("resource:" ∷ r.id ∷ []));
  decision = some (if decision.allow then "allow" else "deny");
  reason = some (
      if ctx.acting_as_platform_admin
      then template ("[platform-admin break-glass] " ∷ decision.reason ∷ [])
      else decision.reason);
  actor_kind = some (actor_kind_name kind);
}

abbrev pub refuse_denied : AuthzDecision → Result (Unit {0})
refuse_denied decision = if decision.allow then ok tt else throw (auth_error decision.reason)

-- What follows `await authorize(…)`: an error of it goes on before anything is recorded.
unfoldable pub record_decision :
    World
    → String
    → AuthzResource
    → TenantContext
    → ActorKind
    → List AuditEvent
    → Result AuthzDecision
    → Logged
unfolding record_audit actor_kind_name template
record_decision w action r ctx kind events (throw e) = (events, throw e)
record_decision w action r ctx kind events (ok decision) = (
  (record_audit w.sha256 (audit_input action r ctx kind decision) w.id w.now events).0,
  refuse_denied decision,
)

unfoldable pub ensure_allowed :
    World → String → AuthzResource → TenantContext → ActorKind → List AuditEvent → Logged
unfolding record_decision authorize
ensure_allowed w action r ctx kind events =
    record_decision w action r ctx kind events (authorize w.db action r ctx)

abbrev pub workflow_resource : String → TenantContext → AuthzResource
workflow_resource workflow_id ctx = record {
  id = workflow_id;
  organization_id = ctx.organization_id;
  scope_type = some workflow;
  workflow_id = some workflow_id;
  workspace_id = none;
  environment_id = none;
}

abbrev on_workflow :
    World → String → TenantContext → ActorKind → List AuditEvent → Result String → Logged
on_workflow w action ctx kind events (throw e) = (events, throw e)
on_workflow w action ctx kind events (ok workflow_id) =
    ensure_allowed w action (workflow_resource workflow_id ctx) ctx kind events

abbrev guard_in :
    World
    → Bool
    → String
    → Option RequestContext
    → ActorKind
    → List AuditEvent
    → Result TenantContext
    → Logged
guard_in w connectors_enabled action store kind events (throw e) = (events, throw e)
guard_in w connectors_enabled action store kind events (ok ctx) =
    if starts_with action "connector." && not connectors_enabled
    then (
      events,
      throw (domain_error "the connector / AI-codegen subsystem is disabled for this deployment"),
    )
    else on_workflow w action ctx kind events (current_workflow_id store)

unfoldable pub guard_data :
    World
    → (connectors_enabled : Bool) → String
    → Option RequestContext
    → (pinned : Option ActorKind) → List AuditEvent
    → Logged
unfolding ensure_allowed require_tenant current_workflow_id current_actor_kind
guard_data w connectors_enabled action store pinned events =
    guard_in w connectors_enabled action store (current_actor_kind pinned store) events
      (require_tenant store)
