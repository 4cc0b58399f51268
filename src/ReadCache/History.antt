-- ===== src/ReadCache/History.antt =====
-- The size of the cache over a history of reads and invalidations.
use qlerify_live.Prelude.{
  ℕ, suc, String, ◌+◌, ◌≤◌, Bool, Option, none, some, List, [], ◌∷◌, if◌then◌else◌, length, Map,
  put, delete, arith,
}
use qlerify_live.Prelude.Entries.{length-delete, length-delete_first}
use qlerify_live.Tenancy.{RequestContext, given}
use qlerify_live.ReadCache.{
  Entry, max_entries, lookup, trim, fill, settle, serve, serve_at, drop_keys, stale_prefixes,
  invalidate_org, invalidate_reads, clear_read_cache, cached_read, cached_org_read, read_key,
  org_read_key,
}

-- What can be done with the cache. A fill by itself is the end of a read that other steps came between.
pub data Step (A : Type 0) : Type 0 where
  read :
      (context : Option RequestContext) (request : String) (computed : A) (now ready : ℕ) → Step A
  org_read :
      (context : Option RequestContext) (request : String) (computed : A) (now ready : ℕ) → Step A
  late_fill : (key : String) (computed : A) (ready : ℕ) → Step A
  invalidate : (org_id workflow_id : Option String) → Step A
  clear : Step A

module _ {A : Type 0} (on : Bool) (ttl : ℕ) where
  unfoldable pub take_step : Step A → Map (Entry A) → Map (Entry A)
  take_step (read context request computed now ready) store =
      (cached_read on ttl context request store computed now ready).0
  take_step (org_read context request computed now ready) store =
      (cached_org_read on ttl context request store computed now ready).0
  take_step (late_fill key computed ready) store = fill ttl store key computed ready
  take_step (invalidate org_id workflow_id) store = invalidate_reads org_id workflow_id store
  take_step clear store = clear_read_cache store

  unfoldable pub cache_after : List (Step A) → Map (Entry A)
  unfolding take_step
  cache_after [] = []
  cache_after (step ∷ earlier) = take_step step (cache_after earlier)

module _ {A : Type 0} where
  length-put : (m : Map (Entry A)) (k : String) (v : Entry A) → length (put m k v) ≤ suc (length m)
  unfolding put
  length-put [] k v = omega arith
  length-put ((x, w) ∷ m) k v = ground (arith, length-put m k v)

  length-trim : (m : Map (Entry A)) → length m ≤ suc max_entries → length (trim m) ≤ max_entries
  unfolding trim
  length-trim [] h = omega arith
  length-trim ((x, w) ∷ m) h = ground (arith, length-delete_first x w m)

  length-fill :
      (ttl : ℕ) (store : Map (Entry A)) (key : String) (value : A) (ready : ℕ)
      → length store ≤ max_entries
      → length (fill ttl store key value ready) ≤ max_entries
  unfolding fill
  length-fill ttl store key value ready h =
      let entry : Entry A = record { value = value; expires_at = ready + ttl } in
      length-trim (put (delete store key) key entry)
        (omega (arith, h, length-delete store key, length-put (delete store key) key entry))

  length-drop_keys :
      (prefixes : List String) (store : Map (Entry A))
      → length (drop_keys prefixes store) ≤ length store
  unfolding drop_keys
  length-drop_keys prefixes [] = omega arith
  length-drop_keys prefixes ((k, e) ∷ store) = ground (arith, length-drop_keys prefixes store)

  length-serve_at :
      (key : Option String) (ttl : ℕ) (store : Map (Entry A)) (computed : A) (now ready : ℕ)
      → length store ≤ max_entries
      → length (serve_at key ttl store computed now ready).0 ≤ max_entries
  unfolding serve
  length-serve_at none ttl store computed now ready h = h
  length-serve_at (some key) ttl store computed now ready h = settled (lookup store key now)
    where
      settled : (hit : Option A) → length (settle ttl store key computed ready hit).0 ≤ max_entries
      settled none = length-fill ttl store key computed ready h
      settled (some value) = h

  length-invalidate_org :
      (org_id workflow_id : Option String) (store : Map (Entry A))
      → length (invalidate_org org_id workflow_id store) ≤ length store
  length-invalidate_org none workflow_id store = omega arith
  length-invalidate_org (some org_id) workflow_id store =
      length-drop_keys (stale_prefixes org_id workflow_id) store

  length-take_step :
      (on : Bool) (ttl : ℕ) (step : Step A) (store : Map (Entry A))
      → length store ≤ max_entries
      → length (take_step on ttl step store) ≤ max_entries
  unfolding take_step cached_read cached_org_read invalidate_reads clear_read_cache
  length-take_step on ttl (read context request computed now ready) store h =
      length-serve_at (if on then read_key context request else none) ttl store computed now ready h
  length-take_step on ttl (org_read context request computed now ready) store h =
      length-serve_at (if on then org_read_key context request else none) ttl store computed now
        ready h
  length-take_step on ttl (late_fill key computed ready) store h =
      length-fill ttl store key computed ready h
  length-take_step on ttl (invalidate org_id workflow_id) store h =
      omega (arith, h, length-invalidate_org (given org_id) (given workflow_id) store)
  length-take_step on ttl clear store h = omega arith

-- From an empty cache, whatever reads, org-wide reads, late fills, invalidations and clears have
-- happened, in any order, the cache has at most 500 entries.
pub cache_after-bound :
    {A : Type 0} (on : Bool) (ttl : ℕ) (steps : List (Step A))
    → length (cache_after on ttl steps) ≤ 500
unfolding cache_after
cache_after-bound on ttl [] = omega arith
cache_after-bound on ttl (step ∷ earlier) =
    length-take_step on ttl step (cache_after on ttl earlier) (cache_after-bound on ttl earlier)
