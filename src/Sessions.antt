-- ===== src/Sessions.antt =====
-- platform/authn/sessions.ts: the sessions of the login flow. The table is a list of rows; times are
-- milliseconds; the digest, the random token and the ids are arguments. The table's keys, `id` and
-- `tokenHash`, are unique: a row that repeats one is refused by the database.
pub mod Lookup
pub mod Lifetime
pub mod Live
mod Tests
use qlerify_live.Prelude.{
  ℕ, String, ◌+◌, Bool, true, false, Option, none, some, List, [], ◌∷◌, ◌++◌, map, ◌==◌, ◌||◌,
  string_eq, if◌then◌else◌, leb, any, find,
}
use qlerify_live.Errors.{Result, ok, throw, other_error}

abbrev pub session_ttl_ms : ℕ
session_ttl_ms = 43200000

pub record Session : Type 0 where
  pub id : String
  pub token_hash : String
  pub identity_id : String
  pub expires_at : ℕ
  pub revoked_at : Option ℕ

abbrev pub taken : List Session → String → String → Bool
unfolding any
taken sessions id hash = any (λ s. s.id == id || s.token_hash == hash) sessions

abbrev pub new_session : String → String → String → ℕ → Session
new_session id hash identity_id now = record {
  id = id;
  token_hash = hash;
  identity_id = identity_id;
  expires_at = now + session_ttl_ms;
  revoked_at = none;
}

unfoldable pub row_of : List Session → String → Option Session
unfolding find
row_of sessions hash = find (λ s. s.token_hash == hash) sessions

abbrev pub is_revoked : Option ℕ → Bool
is_revoked none = false
is_revoked (some at) = true

abbrev identity_at : ℕ → Option Session → Option String
identity_at now none = none
identity_at now (some s) =
    if is_revoked s.revoked_at || leb s.expires_at now then none else some s.identity_id

abbrev pub mark_revoked : String → ℕ → Session → Session
mark_revoked id now s = if s.id == id then record s { revoked_at = some now } else s

abbrev revoke_row : ℕ → List Session → Option Session → List Session
revoke_row now sessions none = sessions
revoke_row now sessions (some s) =
    if is_revoked s.revoked_at then sessions else map (mark_revoked s.id now) sessions

module _ (sha256 : String → String) where
  -- The token is the random text of the call; the sessions after it, and when it expires.
  unfoldable pub create_session :
      (token id identity_id : String) → ℕ → List Session → Result (List Session × ℕ)
  unfolding taken
  create_session token id identity_id now sessions =
      if taken sessions id (sha256 token)
      then throw (other_error "Unique constraint failed")
      else ok (sessions ++ new_session id (sha256 token) identity_id now ∷ [], now + session_ttl_ms)

  unfoldable pub resolve_session : String → ℕ → List Session → Option String
  unfolding row_of
  resolve_session token now sessions = identity_at now (row_of sessions (sha256 token))

  unfoldable pub revoke_session : String → ℕ → List Session → List Session
  unfolding row_of
  revoke_session token now sessions = revoke_row now sessions (row_of sessions (sha256 token))
