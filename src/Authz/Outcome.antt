-- ===== src/Authz/Outcome.antt =====
-- `ensureAllowed`: when it returns, and what it leaves in the log.
use qlerify_live.Prelude.{
  String, ◌≡◌, ◌≢◌, refl, sym, subst, ◌∙◌, ◌⊎◌, inl, inr, ◌↔◌, Bool, true, false, Option, none,
  some, List, [], ◌∷◌, ◌++◌, Bool-cases, string_eq, if◌then◌else◌,
}
use qlerify_live.Errors.{Result, Error, ok, throw, auth_error}
use qlerify_live.Pdp.Types.{Permission, TenantContext, AuthzResource}
use qlerify_live.Pdp.ActionMap.{action_to_permission}
use qlerify_live.Pdp.Decision.{AuthzDecision, authorize, after_markings}
use qlerify_live.Pdp.Decision.Laws.{Allows, IsPermitted, authorize_iff}
use qlerify_live.Audit.{AuditEvent, record_audit}
use qlerify_live.Tenancy.{ActorKind}
use qlerify_live.Authz.{World, audit_input, refuse_denied, record_decision, ensure_allowed}

Result-cases : {A : Type 0} (m : Result A) → ((e : Error) × (m ≡ throw e)) ⊎ ((a : A) × (m ≡ ok a))
Result-cases (throw e) = inl (e, refl)
Result-cases (ok a) = inr (a, refl)

pub throw≢ok : {A : Type 0} {a : A} {e : Error} → ¬ (throw e ≡ ok a)
throw≢ok h = cc

refuse_denied_iff : (d : AuthzDecision) → (refuse_denied d ≡ ok tt) ↔ (d.allow ≡ true)
refuse_denied_iff d = elim (Bool-cases d.allow) [
  | inl e ↦ rw e ((λ _. refl), (λ _. refl))
  | inr e ↦ rw e ((λ h. absurd (throw≢ok h)), (λ h. cc))
]

abbrev Decides : Result AuthzDecision → Type 0
Decides m = (d : AuthzDecision) × (m ≡ ok d)

if-Decides :
    (b : Bool) (d : AuthzDecision) (m : Result AuthzDecision)
    → Decides m
    → Decides (if b then ok d else m)
if-Decides true d m h = (d, refl)
if-Decides false d m h = h

module _ (w : World) (action : String) (r : AuthzResource) (ctx : TenantContext) (kind : ActorKind)
    (events : List AuditEvent) where
  returns_allowed :
      (m : Result AuthzDecision)
      → ((record_decision w action r ctx kind events m).1 ≡ ok tt) ↔ Allows m
  unfolding record_decision
  returns_allowed (throw e) = ((λ h. throw≢ok h), (λ h. absurd h))
  returns_allowed (ok d) = refuse_denied_iff d

  -- `ensureAllowed` returns exactly when the action is permitted by the tables.
  pub ensure_allowed_iff :
      ((ensure_allowed w action r ctx kind events).1 ≡ ok tt) ↔ IsPermitted w.db action r ctx
  unfolding ensure_allowed
  ensure_allowed_iff =
      let (to, from) = returns_allowed (authorize w.db action r ctx) in
      let (there, back) = authorize_iff w.db action r ctx in
      ((λ h. there (to h)), (λ p. from (back p)))

  after_markings-Decides :
      (keys : List String) (gate : Option String) (p : Permission)
      → action_to_permission action ≡ ok p
      → Decides (after_markings w.db action r ctx keys gate)
  unfolding after_markings
  after_markings-Decides keys none p h = rw h (_, refl)
  after_markings-Decides keys (some id) p h = (_, refl)

  authorize-Decides :
      (p : Permission) → action_to_permission action ≡ ok p → Decides (authorize w.db action r ctx)
  unfolding authorize
  authorize-Decides p h = if-Decides _ _ _ (after_markings-Decides _ _ p h)

  -- What a call leaves in the log: one entry, of the caller's organisation, that tells the outcome.
  abbrev pub Told : List AuditEvent × Result (Unit {0}) → Type 0
  Told out =
      (entry : AuditEvent) × (out.0 ≡ events ++ entry ∷ [])
      × (entry.row.organization_id ≡ ctx.organization_id)
      × (((out.1 ≡ ok tt) × (entry.row.decision ≡ some "allow"))
          ⊎ (((reason : String) × (out.1 ≡ throw (auth_error reason)))
              × (entry.row.decision ≡ some "deny")))

  Told-decision : (d : AuthzDecision) → Told (record_decision w action r ctx kind events (ok d))
  unfolding record_decision record_audit
  Told-decision d = (
    (record_audit w.sha256 (audit_input action r ctx kind d) w.id w.now events).1,
    refl,
    refl,
    elim (Bool-cases d.allow) [
      | inl e ↦ inl (rw e refl, rw e refl)
      | inr e ↦ inr ((d.reason, rw e refl), rw e refl)
    ],
  )

  -- A call leaves one more entry in the log, of the caller's organisation: "allow" where it returns,
  -- "deny" where it throws an `AuthError`. Only for an action that is not in the map it leaves the
  -- log as it was, and then it does not return.
  pub ensure_allowed-Told :
      Told (ensure_allowed w action r ctx kind events)
      ⊎ (((ensure_allowed w action r ctx kind events).0 ≡ events)
          × ((ensure_allowed w action r ctx kind events).1 ≢ ok tt)
          × ((p : Permission) → action_to_permission action ≢ ok p))
  unfolding ensure_allowed record_decision
  ensure_allowed-Told = elim (Result-cases (authorize w.db action r ctx)) [
    | inr (d, q) ↦
        inl (
          subst (λ m. Told (record_decision w action r ctx kind events m)) (sym q)
            (Told-decision d))
    | inl (e, q) ↦ inr (
      rw q refl,
      rw q (λ h. throw≢ok h),
      λ p known. let (d, q') = authorize-Decides p known in throw≢ok (sym q ∙ q'),
    )
  ]
