-- ===== src/Authz/Guard.antt =====
-- `guardData`: when it returns.
use qlerify_live.Prelude.{
  String, ◌≡◌, refl, sym, ap, subst, ◌∙◌, inl, inr, ◌↔◌, Bool, true, false, Option, none, some,
  List, ◌&&◌, not, Bool-cases, true≢false,
}
use text.Mathlib.Text.{starts_with}
use qlerify_live.Errors.{Result, ok, throw, domain_error}
use qlerify_live.Pdp.Types.{TenantContext}
use qlerify_live.Pdp.Decision.Laws.{IsPermitted}
use qlerify_live.Audit.{AuditEvent}
use qlerify_live.Tenancy.{
  RequestContext, ActorKind, require_tenant, current_workflow_id, current_actor_kind, given, narrow,
  with_org, workflow_of,
}
use qlerify_live.Authz.{World, guard_in, on_workflow, guard_data, workflow_resource}
use qlerify_live.Authz.Outcome.{ensure_allowed_iff, throw≢ok}

ok-injective : {A : Type 0} {a b : A} → ok a ≡ ok b → a ≡ b
ok-injective h = cc

-- What `guardData` lets pass: a request that is bound to an organisation and to a workflow, an action
-- of a part that is switched on, and a caller whom the tables permit the action on that workflow.
pub record IsGuarded (w : World) (enabled : Bool) (action : String) (store : Option RequestContext)
    : Type 0 where
  pub request : RequestContext
  pub bound : store ≡ some request
  pub organization_id : String
  pub in_org : given request.organization_id ≡ some organization_id
  pub workflow_id : String
  pub in_workflow : given request.workflow_id ≡ some workflow_id
  pub switched_on : (starts_with action "connector." && not enabled) ≡ false
  pub permitted :
      IsPermitted w.db action
        (workflow_resource workflow_id (narrow request organization_id))
        (narrow request organization_id)

-- The same in terms of the functions that are called.
Passes : World → Bool → String → Option RequestContext → TenantContext → Type 0
Passes w enabled action store ctx =
    ((starts_with action "connector." && not enabled) ≡ false)
    × ((workflow_id : String) × (current_workflow_id store ≡ ok workflow_id)
        × IsPermitted w.db action (workflow_resource workflow_id ctx) ctx)

some-eq : {A : Type 0} {a b : A} → some a ≡ some b → a ≡ b
some-eq h = cc

none≢some : {A : Type 0} {a : A} → ¬ (none ≡ some a)
none≢some h = cc

with_org_iff :
    (request : RequestContext) (org : Option String) (ctx : TenantContext)
    → (with_org request org ≡ ok ctx) ↔ (
        (organization_id : String) × (org ≡ some organization_id)
        × (narrow request organization_id ≡ ctx))
with_org_iff request none ctx = ((λ h. absurd (throw≢ok h)), (λ (o, q, e). absurd (none≢some q)))
with_org_iff request (some org) ctx = (
  (λ h. (org, refl, ok-injective h)),
  (λ (o, q, e). ap (λ x. ok (narrow request x)) (some-eq q) ∙ ap ok e),
)

workflow_of_iff :
    (id : Option String) (workflow_id : String)
    → (workflow_of id ≡ ok workflow_id) ↔ (id ≡ some workflow_id)
workflow_of_iff none workflow_id = ((λ h. absurd (throw≢ok h)), (λ q. absurd (none≢some q)))
workflow_of_iff (some id) workflow_id = ((λ h. ap some (ok-injective h)), (λ q. ap ok (some-eq q)))

module _ (w : World) (enabled : Bool) (action : String) (store : Option RequestContext)
    (pinned : Option ActorKind) (events : List AuditEvent) where
  kind : ActorKind
  kind = current_actor_kind pinned store

  workflow_iff :
      (ctx : TenantContext) (m : Result String)
      → ((on_workflow w action ctx kind events m).1 ≡ ok tt) ↔ (
          (workflow_id : String) × (m ≡ ok workflow_id)
          × IsPermitted w.db action (workflow_resource workflow_id ctx) ctx)
  workflow_iff ctx (throw e) = ((λ h. absurd (throw≢ok h)), (λ (wf, q, p). absurd (throw≢ok q)))
  workflow_iff ctx (ok wf) =
      let (to, from) = ensure_allowed_iff w action (workflow_resource wf ctx) ctx kind events in
      (
        (λ h. (wf, refl, to h)),
        λ (wf', q, p). from (
            subst (λ x. IsPermitted w.db action (workflow_resource x ctx) ctx)
              (sym (ok-injective q)) p),
      )

  tenant_iff :
      (m : Result TenantContext)
      → ((guard_in w enabled action store kind events m).1 ≡ ok tt)
        ↔ ((ctx : TenantContext) × (m ≡ ok ctx) × Passes w enabled action store ctx)
  unfolding Passes
  tenant_iff (throw e) = ((λ h. absurd (throw≢ok h)), (λ (ctx, q, p). absurd (throw≢ok q)))
  tenant_iff (ok ctx) = elim (Bool-cases (starts_with action "connector." && not enabled)) [
    | inl off ↦ (
      (λ h. absurd (throw≢ok (refused off ∙ h))),
      (λ (c, q, (on, p)). absurd (true≢false (sym off ∙ on))),
    )
    | inr on ↦
        let (to, from) = workflow_iff ctx (current_workflow_id store) in
        (
          (λ h. (ctx, refl, (on, to (sym (admitted on) ∙ h)))),
          (λ (c, q, (_, p)).
              admitted on
              ∙ from (
                  subst
                    (λ x.
                      (workflow_id : String) × (current_workflow_id store ≡ ok workflow_id)
                      × IsPermitted w.db action (workflow_resource workflow_id x) x)
                    (sym (ok-injective q)) p)),
        )
  ]
    where
      out : List AuditEvent × Result (Unit {0})
      out = guard_in w enabled action store kind events (ok ctx)

      refused :
          (starts_with action "connector." && not enabled) ≡ true
          → throw
              (domain_error "the connector / AI-codegen subsystem is disabled for this deployment")
            ≡ out.1
      refused off = rw off refl

      admitted :
          (starts_with action "connector." && not enabled) ≡ false
          → out.1 ≡ (on_workflow w action ctx kind events (current_workflow_id store)).1
      admitted on = rw on refl

Passes-IsGuarded :
    (w : World) (enabled : Bool) (action : String) (store : Option RequestContext)
    → ((ctx : TenantContext) × (require_tenant store ≡ ok ctx) × Passes w enabled action store ctx)
    → IsGuarded w enabled action store
unfolding Passes require_tenant current_workflow_id
Passes-IsGuarded w enabled action none (ctx, q, p) = absurd (throw≢ok q)
Passes-IsGuarded w enabled action (some request) (ctx, q, (on, (wf, in_workflow, p))) =
    let (org, in_org, e) = (with_org_iff request (given request.organization_id) ctx).0 q in
    record {
      request = request;
      bound = refl;
      organization_id = org;
      in_org = in_org;
      workflow_id = wf;
      in_workflow = (workflow_of_iff (given request.workflow_id) wf).0 in_workflow;
      switched_on = on;
      permitted = subst (λ c. IsPermitted w.db action (workflow_resource wf c) c) (sym e) p;
    }

IsGuarded-Passes :
    (w : World) (enabled : Bool) (action : String) (store : Option RequestContext)
    → IsGuarded w enabled action store
    → (ctx : TenantContext) × (require_tenant store ≡ ok ctx) × Passes w enabled action store ctx
unfolding Passes require_tenant current_workflow_id
IsGuarded-Passes w enabled action none g = absurd (none≢some g.bound)
IsGuarded-Passes w enabled action (some request) g = (
  narrow request g.organization_id,
  (with_org_iff request (given request.organization_id) _).1 (
    g.organization_id,
    ap (λ (x : RequestContext). given x.organization_id) (some-eq g.bound) ∙ g.in_org,
    refl,
  ),
  (
    g.switched_on,
    (
      g.workflow_id,
      (workflow_of_iff (given request.workflow_id) g.workflow_id).1
          (ap (λ (x : RequestContext). given x.workflow_id) (some-eq g.bound) ∙ g.in_workflow),
      subst
          (λ (x : RequestContext).
            IsPermitted w.db action (workflow_resource g.workflow_id (narrow x g.organization_id))
              (narrow x g.organization_id))
          (sym (some-eq g.bound)) g.permitted,
    ),
  ),
)

module _ (w : World) (enabled : Bool) (action : String) (store : Option RequestContext)
    (pinned : Option ActorKind) (events : List AuditEvent) where
  -- `guardData` returns exactly for a request that is bound to an organisation and to a workflow, an
  -- action of a part that is switched on, and a caller whom the tables permit the action on that
  -- workflow.
  pub guard_data_iff :
      ((guard_data w enabled action store pinned events).1 ≡ ok tt)
      ↔ IsGuarded w enabled action store
  unfolding guard_data kind
  guard_data_iff =
      let (to, from) = tenant_iff w enabled action store pinned events (require_tenant store) in
      (
        (λ h. Passes-IsGuarded w enabled action store (to h)),
        (λ g. from (IsGuarded-Passes w enabled action store g)),
      )
