-- ===== src/Audit/Tests.antt =====
-- Logs of two organisations, with a digest that marks its text.
use qlerify_live.Prelude.{
  String, ◌≡◌, ◌≢◌, ◌↔◌, refl, ap, subst, sym, ◌∙◌, true, none, some, List, [], ◌∷◌, Memᴰ, inl, inr,
  string_eq, mem-cons,
}
use qlerify_live.Audit.{
  AuditInput, AuditEvent, chain_text, material, record_audit, stream_of, verify_audit_chain,
}
use qlerify_live.Audit.Chain.{IsChain, verify_audit_chain_iff}
use qlerify_live.Audit.Append.{record_audit-verify, record_all, audit_history-verify}
use qlerify_live.Audit.Tamper.{NoCollision, texts, verify-texts_eq}

abbrev entry : String → String → AuditInput
entry organization_id action = record {
  organization_id = organization_id;
  actor_principal_id = some "alice";
  action = action;
  target_ref = none;
  decision = some "allow";
  reason = none;
  actor_kind = some "human";
}

abbrev digest : String → String
digest s = "h"

abbrev history : List (AuditInput × String × String)
history =
    (entry "acme" "login", "e1", "t1")
    ∷ (entry "beta" "login", "e2", "t2")
    ∷ (entry "acme" "model.apply \"x\"", "e3", "t3")
    ∷ []

material_first :
    material (record_audit digest (entry "acme" "say \"hi\"") "e1" "t1" []).1.row
    ≡ "{\"organizationId\":\"acme\",\"streamId\":\"acme\",\"seq\":0,\"prevHash\":null,\"actorPrincipalId\":\"alice\",\"action\":\"say \\\"hi\\\"\",\"targetRef\":null,\"decision\":\"allow\",\"reason\":null,\"occurredAt\":\"t1\"}"
unfolding record_audit material
material_first = refl

verify_history :
    verify_audit_chain digest "acme" (record_all digest history [])
    ≡ record { ok = true; length = 2; broken_at_seq = none }
unfolding verify_audit_chain record_all record_audit
verify_history = refl

abbrev logged : List AuditEvent
logged = record_all digest history []

verify_audit_chain_iff_example :
    ((verify_audit_chain digest "acme" logged).ok ≡ true)
    ↔ IsChain digest 0 none (stream_of "acme" logged)
verify_audit_chain_iff_example = verify_audit_chain_iff digest "acme" logged

record_audit-verify_example :
    ((verify_audit_chain digest "acme" logged).ok ≡ true
      → (verify_audit_chain digest "acme"
          (record_audit digest (entry "acme" "logout") "e4" "t4" logged).0).ok
        ≡ true)
    × ((other : String)
        → other ≢ "acme"
        → verify_audit_chain digest other
            (record_audit digest (entry "acme" "logout") "e4" "t4" logged).0
          ≡ verify_audit_chain digest other logged)
record_audit-verify_example = record_audit-verify digest (entry "acme" "logout") "e4" "t4" logged

audit_history-verify_example :
    (verify_audit_chain digest "beta" (record_all digest history [])).ok ≡ true
audit_history-verify_example = audit_history-verify digest "beta" history

-- The same entry under another id, which is not hashed.
abbrev kept : List AuditEvent
kept = record_all digest ((entry "acme" "login", "e1", "t1") ∷ []) []

abbrev renamed : List AuditEvent
renamed = record_all digest ((entry "acme" "login", "f1", "t1") ∷ []) []

abbrev written : String → AuditEvent
written id = (record_audit digest (entry "acme" "login") id "t1" []).1

only : {x y : AuditEvent} → Memᴰ x (y ∷ []) → x ≡ y
only m = elim (mem-cons m) [ inl q ↦ q | inr n ↦ elim n [ ] ]

stream_kept : stream_of "acme" kept ≡ written "e1" ∷ []
unfolding record_all record_audit
stream_kept = refl

stream_renamed : stream_of "acme" renamed ≡ written "f1" ∷ []
unfolding record_all record_audit
stream_renamed = refl

same_row : (written "e1").row ≡ (written "f1").row
unfolding record_audit
same_row = refl

no_collision : NoCollision digest (stream_of "acme" kept) (stream_of "acme" renamed)
no_collision r m s k e =
    let p : r ≡ written "e1" = only (subst (Memᴰ r) stream_kept m) in
    let q : s ≡ written "f1" = only (subst (Memᴰ s) stream_renamed k) in
    ap (λ (x : AuditEvent). chain_text x.row) p
    ∙ ap chain_text same_row
    ∙ sym (ap (λ (x : AuditEvent). chain_text x.row) q)

verify-texts_eq_example : texts (stream_of "acme" kept) ≡ texts (stream_of "acme" renamed)
unfolding verify_audit_chain record_all record_audit
verify-texts_eq_example =
    verify-texts_eq digest "acme" kept renamed (λ s t. refl) no_collision refl refl refl refl
