-- ===== src/Sessions/Lookup.antt =====
-- What becomes of the row of a token while other sessions come and go.
use qlerify_live.Prelude.{
  ℕ, String, ◌≡◌, refl, ap, inl, inr, Bool, true, some, List, [], ◌∷◌, ◌++◌, map, ◌==◌, string_eq,
  find, arith, Bool-cases,
}
use qlerify_live.Errors.{Result, ok, throw}
use qlerify_live.Sessions.{Session, row_of, mark_revoked, create_session, revoke_session}

-- What happens to the table: a login, a logout. A refused row leaves it as it was.
pub data Act : Type 0 where
  created : (token id identity_id : String) → ℕ → Act
  revoked : (token : String) → ℕ → Act

abbrev pub table_or : List Session → Result (List Session × ℕ) → List Session
table_or sessions (throw e) = sessions
table_or sessions (ok (after, expires_at)) = after

module _ (sha256 : String → String) where
  unfoldable pub act : Act → List Session → List Session
  unfolding create_session revoke_session
  act (created token id identity_id now) sessions =
      table_or sessions (create_session sha256 token id identity_id now sessions)
  act (revoked token now) sessions = revoke_session sha256 token now sessions

  unfoldable pub run : List Act → List Session → List Session
  unfolding act
  run [] sessions = sessions
  run (a ∷ acts) sessions = run acts (act a sessions)

pub find-append :
    {A : Type 0} (p : A → Bool) (xs : List A) (y x : A)
    → find p xs ≡ some x
    → find p (xs ++ y ∷ []) ≡ some x
unfolding find
find-append p [] y x h = cc
find-append p (z ∷ xs) y x h = ground (arith, find-append p xs y x)

mark-hash :
    (id : String) (now : ℕ) (s : Session) → (mark_revoked id now s).token_hash ≡ s.token_hash
mark-hash id now s = elim (Bool-cases (s.id == id)) [ inl e ↦ rw e refl | inr e ↦ rw e refl ]

pub row_of-mark :
    (id : String) (now : ℕ) (sessions : List Session) (hash : String) (s : Session)
    → row_of sessions hash ≡ some s
    → row_of (map (mark_revoked id now) sessions) hash ≡ some (mark_revoked id now s)
unfolding row_of find
row_of-mark id now [] hash s h = cc
row_of-mark id now (x ∷ sessions) hash s h = elim (Bool-cases (x.token_hash == hash)) [
  | inl e ↦ rw (mark-hash id now x, e) (ap (λ y. some (mark_revoked id now y)) (first e))
  | inr e ↦ rw (mark-hash id now x, e) (row_of-mark id now sessions hash s (rw e at h))
]
  where
    first : (x.token_hash == hash) ≡ true → x ≡ s
    first e = inj (rw e at h)
      where
        inj : some x ≡ some s → x ≡ s
        inj q = cc
