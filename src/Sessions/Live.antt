-- ===== src/Sessions/Live.antt =====
-- A session resolves from its login until it expires, while it is not logged out.
use qlerify_live.Prelude.{
  ℕ, String, ◌≡◌, ◌≢◌, refl, sym, ap, subst, ◌∙◌, inl, inr, Bool, true, false, Option, none, some,
  List, [], ◌∷◌, ◌++◌, map, ◌==◌, string_eq, if◌then◌else◌, leb, Memᴰ, any, find, find-eq-some, has,
  mem-has, mem-map, true≢false, arith, Bool-cases, eq_of_beq, beq_of_eq, ◌+◌, mem-cons,
}
use qlerify_live.Errors.{Error, ok, throw}
use qlerify_live.Prelude.Distinct.{Distinct, Distinct-append}
use qlerify_live.Sessions.{
  Session, taken, new_session, row_of, is_revoked, mark_revoked, revoke_row, create_session,
  resolve_session, revoke_session, identity_at, session_ttl_ms,
}
use qlerify_live.Sessions.Lookup.{Act, created, revoked, act, run, find-append, row_of-mark}

abbrev pub ids_of : List Session → List String
ids_of sessions = map (λ s. s.id) sessions

ids-append :
    (sessions : List Session) (x : Session)
    → ids_of (sessions ++ x ∷ []) ≡ ids_of sessions ++ x.id ∷ []
ids-append [] x = refl
ids-append (s ∷ sessions) x = ap (λ l. s.id ∷ l) (ids-append sessions x)

mark-id : (id : String) (now : ℕ) (s : Session) → (mark_revoked id now s).id ≡ s.id
mark-id id now s = elim (Bool-cases (s.id == id)) [ inl e ↦ rw e refl | inr e ↦ rw e refl ]

ids-mark :
    (id : String) (now : ℕ) (sessions : List Session)
    → ids_of (map (mark_revoked id now) sessions) ≡ ids_of sessions
ids-mark id now [] = refl
ids-mark id now (s ∷ sessions) =
    ap (λ x. x ∷ ids_of (map (mark_revoked id now) sessions)) (mark-id id now s)
    ∙ ap (λ l. s.id ∷ l) (ids-mark id now sessions)

taken-id :
    (sessions : List Session) (id hash : String)
    → taken sessions id hash ≡ false
    → has (ids_of sessions) id ≡ false
unfolding any has
taken-id [] id hash h = refl
taken-id (s ∷ sessions) id hash h = ground (arith, taken-id sessions id hash)

same-id :
    (sessions : List Session) (s r : Session)
    → Distinct (ids_of sessions)
    → Memᴰ s sessions
    → Memᴰ r sessions
    → s.id ≡ r.id
    → s ≡ r
same-id [] s r d m n e = elim m [ ]
same-id (x ∷ sessions) s r (fresh_id, d) m n e = elim (mem-cons m) [
  | inl p ↦ elim (mem-cons n) [
    | inl q ↦ p ∙ sym q
    | inr k ↦ absurd (clash r k (sym e ∙ ap (λ (y : Session). y.id) p))
  ]
  | inr l ↦ elim (mem-cons n) [
    | inl q ↦ absurd (clash s l (e ∙ ap (λ (y : Session). y.id) q))
    | inr k ↦ same-id sessions s r d l k e
  ]
]
  where
    clash : (y : Session) → Memᴰ y sessions → y.id ≡ x.id → ⊥
    clash y k q = true≢false (
        sym (mem-has (ids_of sessions) y.id (mem-map (λ s. s.id) k))
        ∙ (ap (has (ids_of sessions)) q ∙ fresh_id))

-- The table has the row for a hash, and no two rows with one id.
abbrev Live : List Session → String → Session → Type 0
Live sessions hash s = Distinct (ids_of sessions) × (row_of sessions hash ≡ some s)

revoke_row-Live :
    (now : ℕ) (sessions : List Session) (hash other : String) (s : Session) (o : Option Session)
    → row_of sessions other ≡ o
    → hash ≢ other
    → Live sessions hash s
    → Live (revoke_row now sessions o) hash s
unfolding row_of
revoke_row-Live now sessions hash other s none found differ l = l
revoke_row-Live now sessions hash other s (some r) found differ (d, q) =
    elim (Bool-cases (is_revoked r.revoked_at)) [
      | inl old ↦ rw old (d, q)
      | inr new ↦ rw new (
        subst Distinct (sym (ids-mark r.id now sessions)) d,
        row_of-mark r.id now sessions hash s q ∙ ap some (kept (s.id == r.id) refl),
      )
    ]
  where
    kept : (b : Bool) → (s.id == r.id) ≡ b → mark_revoked r.id now s ≡ s
    kept false e = rw e refl
    kept true e =
        let (m, p) = find-eq-some _ sessions q in
        let (n, p') = find-eq-some _ sessions found in
        let same = same-id sessions s r d m n (eq_of_beq s.id r.id e) in
        absurd (
          differ (
            sym (eq_of_beq s.token_hash hash p)
            ∙ (ap (λ (y : Session). y.token_hash) same ∙ eq_of_beq r.token_hash other p')))

-- No act of the list is a logout of the token with the hash.
abbrev pub NoLogout : (String → String) → String → List Act → Type 0
NoLogout sha256 hash [] = Unit
NoLogout sha256 hash (created token id identity_id now ∷ acts) = NoLogout sha256 hash acts
NoLogout sha256 hash (revoked token now ∷ acts) = (hash ≢ sha256 token) × NoLogout sha256 hash acts

throw≢ok : {e : Error} {p : List Session × ℕ} → ¬ (throw e ≡ ok p)
throw≢ok q = cc

ok-eq : {p q : List Session × ℕ} → ok p ≡ ok q → p ≡ q
ok-eq h = cc

ok-table : {p q : List Session × ℕ} → ok p ≡ ok q → p.0 ≡ q.0
ok-table h = ap (λ x. x.0) (ok-eq h)

module _ (sha256 : String → String) where
  created-Live :
      (token id identity_id : String) (now : ℕ) (sessions : List Session) (hash : String)
      (s : Session)
      → Live sessions hash s
      → Live (act sha256 (created token id identity_id now) sessions) hash s
  unfolding act create_session row_of
  created-Live token id identity_id now sessions hash s (d, q) =
      elim (Bool-cases (taken sessions id (sha256 token))) [
        | inl t ↦ rw t (d, q)
        | inr t ↦ rw t (
          subst Distinct (sym (ids-append sessions (new_session id (sha256 token) identity_id now)))
              (Distinct-append (ids_of sessions) id d (taken-id sessions id (sha256 token) t)),
          find-append _ sessions (new_session id (sha256 token) identity_id now) s q,
        )
      ]

  run-Live :
      (acts : List Act) (sessions : List Session) (hash : String) (s : Session)
      → NoLogout sha256 hash acts
      → Live sessions hash s
      → Live (run sha256 acts sessions) hash s
  unfolding run act revoke_session
  run-Live [] sessions hash s o l = l
  run-Live (created token id identity_id now ∷ acts) sessions hash s o l =
      run-Live acts _ hash s o (created-Live token id identity_id now sessions hash s l)
  run-Live (revoked token now ∷ acts) sessions hash s (differ, o) l = run-Live acts _ hash s o (
      revoke_row-Live now sessions hash (sha256 token) s (row_of sessions (sha256 token)) refl
        differ l)

  created-row :
      (sessions : List Session) (id hash identity_id : String) (now : ℕ)
      → taken sessions id hash ≡ false
      → row_of (sessions ++ new_session id hash identity_id now ∷ []) hash
        ≡ some (new_session id hash identity_id now)
  unfolding row_of find any
  created-row [] id hash identity_id now h = rw (beq_of_eq hash hash refl) refl
  created-row (s ∷ sessions) id hash identity_id now h =
      ground (arith, created-row sessions id hash identity_id now)

  -- Where no two rows have one id: a token whose login succeeded resolves, after any logins and any
  -- logouts of other tokens, to its identity before twelve hours have passed, and to none after that.
  pub resolve_session-create_session :
      (token id identity_id : String) (now later : ℕ) (sessions after : List Session)
      (acts : List Act) (expires_at : ℕ)
      → Distinct (ids_of sessions)
      → create_session sha256 token id identity_id now sessions ≡ ok (after, expires_at)
      → NoLogout sha256 (sha256 token) acts
      → resolve_session sha256 token later (run sha256 acts after)
        ≡ (if leb (now + session_ttl_ms) later then none else some identity_id)
  unfolding create_session resolve_session
  resolve_session-create_session token id identity_id now later sessions after acts expires_at d h
        o =
      elim (Bool-cases (taken sessions id (sha256 token))) [
        | inl t ↦ absurd (throw≢ok (rw t at h))
        | inr t ↦
            let row = new_session id (sha256 token) identity_id now in
            let same : sessions ++ row ∷ [] ≡ after = ok-table (rw t at h) in
            let l = run-Live acts (sessions ++ row ∷ []) (sha256 token) row o (
              subst Distinct (sym (ids-append sessions row))
                  (Distinct-append (ids_of sessions) id d (taken-id sessions id (sha256 token) t)),
              created-row sessions id (sha256 token) identity_id now t,
            ) in
            ap (λ x. identity_at later (row_of (run sha256 acts x) (sha256 token))) (sym same)
            ∙ ap (identity_at later) l.1
      ]
