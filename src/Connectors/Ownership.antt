-- ===== src/Connectors/Ownership.antt =====
-- src/packs/ownership.ts: which connectors the tenant of a request may address. The sidecars are read by
-- an argument.
use qlerify_live.Prelude.{
  String, Bool, true, false, ◌&&◌, Option, none, some, List, [], ◌∷◌, ◌≡◌, refl, sym, subst, ◌∙◌,
  ◌==◌, string_eq, option_eq, if◌then◌else◌, filter, template, Memᴰ, ◌↔◌, filter-mem, mem-filter,
  eq_of_beq, beq_of_eq, and-eq-true, and_intro,
}
use qlerify_live.Errors.{Result, ok, throw, adapter_not_owned_error}
use qlerify_live.Tenancy.{RequestContext, current_org_id, current_workflow_id, is_system_workflow}
use qlerify_live.Connectors.{AdapterConfig}

abbrev pub stamped : AdapterConfig → Result String → Result String → Bool
stamped cfg (ok workflow) (ok org) =
    cfg.organization_id == some org && cfg.workflow_id == some workflow
stamped cfg _ _ = false

-- A sidecar without a stamp, or a request without a workflow, is owned by no tenant.
unfoldable pub adapter_owned : Option RequestContext → AdapterConfig → Bool
adapter_owned ctx cfg =
    if is_system_workflow ctx
    then true
    else stamped cfg (current_workflow_id ctx) (current_org_id ctx)

abbrev pub Sidecars : Type 0
Sidecars = String → Option AdapterConfig

abbrev pub owned_or_global : Option RequestContext → Option AdapterConfig → Bool
unfolding adapter_owned
owned_or_global ctx none = true
owned_or_global ctx (some cfg) = adapter_owned ctx cfg

-- An adapter without a sidecar is the operator's, for all.
unfoldable pub owns_adapter_id : Option RequestContext → Sidecars → String → Bool
unfolding owned_or_global
owns_adapter_id ctx sidecars id =
    if is_system_workflow ctx then true else owned_or_global ctx (sidecars id)

abbrev not_owned : String → Result AdapterConfig
unfolding template
not_owned id =
    throw (adapter_not_owned_error (template ("no adapter \"" ∷ id ∷ "\" in this workflow" ∷ [])))

abbrev required : Option RequestContext → String → Option AdapterConfig → Result AdapterConfig
unfolding not_owned adapter_owned
required ctx id none = not_owned id
required ctx id (some cfg) = if adapter_owned ctx cfg then ok cfg else not_owned id

unfoldable pub require_owned_adapter :
    Option RequestContext → Sidecars → String → Result AdapterConfig
unfolding required
require_owned_adapter ctx sidecars id = required ctx id (sidecars id)

-- The ids of the registry's adapters that the tenant may see.
unfoldable pub list_owned_adapters : Option RequestContext → Sidecars → List String → List String
list_owned_adapters ctx sidecars adapters = filter (owns_adapter_id ctx sidecars) adapters

-- The stamp of a sidecar is that of an organisation and a workflow.
pub record IsStamped (cfg : AdapterConfig) (org workflow : String) : Type 0 where
  pub of_org : cfg.organization_id ≡ some org
  pub of_workflow : cfg.workflow_id ≡ some workflow

some_inj : {x y : AdapterConfig} → some x ≡ some y → x ≡ y
some_inj h = cc

module _ (ctx : Option RequestContext) (org workflow : String)
    (tenant : is_system_workflow ctx ≡ false) (in_org : current_org_id ctx ≡ ok org)
    (in_workflow : current_workflow_id ctx ≡ ok workflow) where
  adapter_owned-stamped :
      (cfg : AdapterConfig)
      → adapter_owned ctx cfg
        ≡ (cfg.organization_id == some org && cfg.workflow_id == some workflow)
  unfolding adapter_owned
  adapter_owned-stamped cfg = simp (tenant, in_org, in_workflow) refl

  adapter_owned-IsStamped :
      (cfg : AdapterConfig) → (adapter_owned ctx cfg ≡ true) ↔ IsStamped cfg org workflow
  adapter_owned-IsStamped cfg = (
    λ h.
        let (a, b) =
          and-eq-true (cfg.organization_id == some org) (cfg.workflow_id == some workflow)
            (sym (adapter_owned-stamped cfg) ∙ h) in
        record { of_org = eq_of_beq _ _ a; of_workflow = eq_of_beq _ _ b },
    λ s.
        adapter_owned-stamped cfg
        ∙ and_intro _ _ (beq_of_eq _ _ s.of_org) (beq_of_eq _ _ s.of_workflow),
  )

  owned_or_global_iff :
      (sidecar : Option AdapterConfig)
      → (owned_or_global ctx sidecar ≡ true)
        ↔ ((cfg : AdapterConfig) → sidecar ≡ some cfg → IsStamped cfg org workflow)
  unfolding owned_or_global
  owned_or_global_iff none = (λ _ cfg e. cc, λ _. refl)
  owned_or_global_iff (some cfg) = (
    λ h other e.
        subst (λ c. IsStamped c org workflow) (some_inj e) ((adapter_owned-IsStamped cfg).0 h),
    λ h. (adapter_owned-IsStamped cfg).1 (h cfg refl),
  )

  owns_adapter_id-owned :
      (sidecars : Sidecars) (id : String)
      → owns_adapter_id ctx sidecars id ≡ owned_or_global ctx (sidecars id)
  unfolding owns_adapter_id
  owns_adapter_id-owned sidecars id = simp tenant refl

  -- For the tenant of an organisation and a workflow, the adapters listed are those of the registry whose
  -- sidecar, if they have one, is stamped with that organisation and that workflow, and no others.
  pub list_owned_adapters_iff :
      (sidecars : Sidecars) (adapters : List String) (id : String)
      → Memᴰ id (list_owned_adapters ctx sidecars adapters) ↔ (
          Memᴰ id adapters
          × ((cfg : AdapterConfig) → sidecars id ≡ some cfg → IsStamped cfg org workflow))
  unfolding list_owned_adapters
  list_owned_adapters_iff sidecars adapters id = (
    λ m.
        let (n, h) = filter-mem (owns_adapter_id ctx sidecars) adapters m in
        (n, (owned_or_global_iff (sidecars id)).0 (sym (owns_adapter_id-owned sidecars id) ∙ h)),
    λ (n, h).
        mem-filter (owns_adapter_id ctx sidecars) adapters n
          (owns_adapter_id-owned sidecars id ∙ (owned_or_global_iff (sidecars id)).1 h),
  )
