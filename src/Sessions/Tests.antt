-- ===== src/Sessions/Tests.antt =====
-- A login, a logout of another token, and the uses of the theorems on them.
use qlerify_live.Prelude.{
  String, ◌≡◌, ◌≢◌, refl, sym, true≢false, none, some, List, [], ◌∷◌, if◌then◌else◌, leb, ◌+◌, has,
  any, string_eq, eq_iff,
}
use qlerify_live.Errors.{ok}
use qlerify_live.Prelude.Distinct.{Distinct}
use qlerify_live.Sessions.{
  Session, new_session, row_of, create_session, resolve_session, revoke_session, session_ttl_ms,
}
use qlerify_live.Sessions.Lookup.{Act, created, revoked, run}
use qlerify_live.Sessions.Lifetime.{resolve_session-revoke_session}
use qlerify_live.Sessions.Live.{ids_of, resolve_session-create_session}

abbrev digest : String → String
digest s = s

abbrev bob : Session
bob = new_session "s1" "t-bob" "bob" 50

abbrev before : List Session
before = bob ∷ []

abbrev alice : Session
alice = new_session "s2" "t-alice" "alice" 100

abbrev after : List Session
after = bob ∷ alice ∷ []

abbrev acts : List Act
acts = created "t-eve" "s3" "eve" 150 ∷ revoked "t-bob" 200 ∷ []

login : create_session digest "t-alice" "s2" "alice" 100 before ≡ ok (after, 43200100)
unfolding create_session
login = refl

resolved :
    (resolve_session digest "t-alice" 43200099 (run digest acts after) ≡ some "alice")
    × (resolve_session digest "t-alice" 43200100 (run digest acts after) ≡ none)
    × (resolve_session digest "t-bob" 300 (run digest acts after) ≡ none)
    × (resolve_session digest "t-eve" 300 (run digest acts after) ≡ some "eve")
unfolding resolve_session run
resolved = (refl, refl, refl, refl)

other_token : ◌≢◌ {A = String} "t-alice" "t-bob"
other_token e = true≢false (sym ((eq_iff "t-alice" "t-bob").1 e))

one_row : Distinct (ids_of before)
unfolding has any
one_row = (refl, tt)

resolve_session-create_session_example :
    resolve_session digest "t-alice" 300 (run digest acts after)
    ≡ (if leb (100 + session_ttl_ms) 300 then none else some "alice")
resolve_session-create_session_example =
    resolve_session-create_session digest "t-alice" "s2" "alice" 100 300 before after acts 43200100
      one_row login (other_token, tt)

bob_found : row_of before "t-bob" ≡ some bob
unfolding row_of
bob_found = refl

resolve_session-revoke_session_example :
    resolve_session digest "t-bob" 300 (run digest acts (revoke_session digest "t-bob" 60 before))
    ≡ none
resolve_session-revoke_session_example =
    resolve_session-revoke_session digest "t-bob" 60 300 before bob acts bob_found
