-- ===== src/ReadCache/Newest.antt =====
-- A value that was just filled in, and how long it is served.
use qlerify_live.Prelude.{
  ℕ, suc, String, ◌+◌, ◌≡◌, ap, ◌∙◌, Bool, true, false, Option, none, some, [], ◌∷◌, ◌++◌,
  if◌then◌else◌, ltb, length, Map, get, delete, get-delete, arith, eq_iff, string_eq,
}
use qlerify_live.Prelude.Entries.{
  put-missing, delete-append, get-append, get-delete_self, other_key,
}
use qlerify_live.ReadCache.{Entry, max_entries, live, lookup, trim, fill}

module _ {A : Type 0} where
  get-if :
      (b : Bool) (m n : Map (Entry A)) (key : String) {o : Option (Entry A)}
      → get m key ≡ o
      → get n key ≡ o
      → get (if b then m else n) key ≡ o
  get-if true m n key h k = h
  get-if false m n key h k = k

  -- The newest is not the oldest.
  get-trim :
      (m : Map (Entry A)) (key : String) (v : Entry A)
      → get m key ≡ none
      → get (trim (m ++ (key, v) ∷ [])) key ≡ some v
  unfolding trim
  get-trim [] key v h = get-append [] key v h
  get-trim ((x, w) ∷ m) key v h =
      get-if (ltb max_entries (suc (length (m ++ (key, v) ∷ [])))) _ _ key
        (ap (λ d. get d key) (delete-append ((x, w) ∷ m) x key v (other_key x w m key h))
          ∙ get-append (delete ((x, w) ∷ m) x) key v
              (ground (arith, eq_iff x key, h, get-delete ((x, w) ∷ m) x key)))
        (get-append ((x, w) ∷ m) key v h)

  -- Whatever the cache held, a value that is filled in is served until its time is over, and from
  -- then on it is not.
  pub lookup-fill :
      (ttl : ℕ) (store : Map (Entry A)) (key : String) (value : A) (ready now : ℕ)
      → lookup (fill ttl store key value ready) key now
        ≡ (if ltb now (ready + ttl) then some value else none)
  unfolding lookup fill
  lookup-fill ttl store key value ready now =
      let entry : Entry A = record { value = value; expires_at = ready + ttl } in
      let missing = get-delete_self store key in
      ap (live now) (
        ap (λ s. get (trim s) key) (put-missing (delete store key) key entry missing)
        ∙ get-trim (delete store key) key entry missing)
