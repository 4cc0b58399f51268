-- ===== src/Sessions/Lifetime.antt =====
-- How long a session resolves: from its login to its end or its logout, and not after.
use qlerify_live.Prelude.{
  ℕ, String, ◌≡◌, refl, ap, ◌∙◌, inl, inr, true, Option, none, some, List, [], ◌∷◌, ◌++◌, ◌==◌,
  string_eq, Bool-cases, beq_of_eq,
}
use qlerify_live.Sessions.{
  Session, taken, new_session, row_of, is_revoked, mark_revoked, revoke_row, create_session,
  resolve_session, revoke_session, identity_at,
}
use qlerify_live.Sessions.Lookup.{Act, created, revoked, act, run, find-append, row_of-mark}

Ended : List Session → String → Type 0
Ended sessions hash =
    (s : Session) × (row_of sessions hash ≡ some s) × (is_revoked s.revoked_at ≡ true)

mark-is_revoked :
    (id : String) (now : ℕ) (s : Session)
    → is_revoked s.revoked_at ≡ true
    → is_revoked (mark_revoked id now s).revoked_at ≡ true
mark-is_revoked id now s h = elim (Bool-cases (s.id == id)) [ inl e ↦ rw e refl | inr e ↦ rw e h ]

append-Ended :
    (sessions : List Session) (x : Session) (hash : String)
    → Ended sessions hash
    → Ended (sessions ++ x ∷ []) hash
unfolding Ended row_of
append-Ended sessions x hash (s, q, h) = (s, find-append _ sessions x s q, h)

revoke_row-Ended :
    (now : ℕ) (sessions : List Session) (o : Option Session) (hash : String)
    → Ended sessions hash
    → Ended (revoke_row now sessions o) hash
unfolding Ended
revoke_row-Ended now sessions none hash e = e
revoke_row-Ended now sessions (some r) hash (s, q, h) =
    elim (Bool-cases (is_revoked r.revoked_at)) [
      | inl old ↦ rw old (s, q, h)
      | inr new ↦ rw new (
        mark_revoked r.id now s,
        row_of-mark r.id now sessions hash s q,
        mark-is_revoked r.id now s h,
      )
    ]

module _ (sha256 : String → String) where
  act-Ended :
      (a : Act) (sessions : List Session) (hash : String)
      → Ended sessions hash
      → Ended (act sha256 a sessions) hash
  unfolding act create_session revoke_session
  act-Ended (created token id identity_id now) sessions hash e =
      elim (Bool-cases (taken sessions id (sha256 token))) [
        | inl t ↦ rw t e
        | inr t ↦
            rw t (append-Ended sessions (new_session id (sha256 token) identity_id now) hash e)
      ]
  act-Ended (revoked token now) sessions hash e =
      revoke_row-Ended now sessions (row_of sessions (sha256 token)) hash e

  run-Ended :
      (acts : List Act) (sessions : List Session) (hash : String)
      → Ended sessions hash
      → Ended (run sha256 acts sessions) hash
  unfolding run
  run-Ended [] sessions hash e = e
  run-Ended (a ∷ acts) sessions hash e =
      run-Ended acts (act sha256 a sessions) hash (act-Ended a sessions hash e)

  Ended-resolve :
      (token : String) (now : ℕ) (sessions : List Session)
      → Ended sessions (sha256 token)
      → resolve_session sha256 token now sessions ≡ none
  unfolding Ended resolve_session
  Ended-resolve token now sessions (s, q, h) = ap (identity_at now) q ∙ rw h refl

  revoke_session-Ended :
      (token : String) (now : ℕ) (sessions : List Session) (s : Session)
      → row_of sessions (sha256 token) ≡ some s
      → Ended (revoke_session sha256 token now sessions) (sha256 token)
  unfolding Ended revoke_session
  revoke_session-Ended token now sessions s q = elim (Bool-cases (is_revoked s.revoked_at)) [
    | inl old ↦ rw (q, old) (s, q, old)
    | inr new ↦
        rw (q, new)
          (
            mark_revoked s.id now s,
            row_of-mark s.id now sessions (sha256 token) s q,
            rw (beq_of_eq s.id s.id refl) refl,
          )
  ]

  -- Once a token that has a session is revoked, it never resolves again, whatever logins and logouts
  -- follow and at whatever time.
  pub resolve_session-revoke_session :
      (token : String) (now later : ℕ) (sessions : List Session) (s : Session) (acts : List Act)
      → row_of sessions (sha256 token) ≡ some s
      → resolve_session sha256 token later
          (run sha256 acts (revoke_session sha256 token now sessions))
        ≡ none
  resolve_session-revoke_session token now later sessions s acts q =
      Ended-resolve token later _
        (run-Ended acts _ (sha256 token) (revoke_session-Ended token now sessions s q))
