-- ===== src/ReadCache.antt =====
-- platform/read-cache.ts: the cache of reads. The map `store` is passed in and returned, and times are
-- milliseconds. A read is `lookup` when it starts and `fill` once its value is computed; `serve` is
-- both, with nothing in between. Whether the cache is enabled, and how long an entry lives, are
-- arguments, since they come from the environment.
mod Slices
mod Newest
mod History
mod Tests
use Prim.Native.String
use text.Mathlib.Text.{starts_with}
use qlerify_live.Prelude.{
  ℕ, suc, String, ◌+◌, Bool, true, false, not, ◌==◌, string_eq, ◌||◌, Option, none, some, List, [],
  ◌∷◌, if◌then◌else◌, ltb, length, template, Map, get, put, delete, any, filter,
}
use qlerify_live.Pdp.Types.{TenantContext}
use qlerify_live.Tenancy.{RequestContext, given}

pub record Entry (A : Type 0) : Type 0 where
  pub value : A
  pub expires_at : ℕ

abbrev pub org_scope : String
org_scope = "\u{1}org"

abbrev pub max_entries : ℕ
max_entries = 500

abbrev pub sep : String
sep = "\0"

unfoldable pub scope_prefix : String → String → String
unfolding template
scope_prefix org_id workflow_id = template (org_id ∷ sep ∷ workflow_id ∷ sep ∷ [])

-- `(process.env.QLERIFY_READ_CACHE ?? "").toLowerCase()` and `process.env.NODE_ENV`.
unfoldable pub enabled : String → Option String → Bool
enabled v node_env =
    if v == "off" then false else if v == "on" then true else not (is_test node_env)
  where
    is_test : Option String → Bool
    is_test none = false
    is_test (some env) = env == "test"

-- The prefixes of what an invalidation drops.
unfoldable pub stale_prefixes : String → Option String → List String
unfolding scope_prefix template
stale_prefixes org_id none = template (org_id ∷ sep ∷ []) ∷ []
stale_prefixes org_id (some workflow_id) =
    scope_prefix org_id org_scope ∷ scope_prefix org_id workflow_id ∷ []

module _ {A : Type 0} where
  -- `hit && hit.expiresAt > Date.now()`
  abbrev pub live : ℕ → Option (Entry A) → Option A
  live now none = none
  live now (some hit) = if ltb now hit.expires_at then some hit.value else none

  unfoldable pub lookup : Map (Entry A) → String → ℕ → Option A
  unfolding get
  lookup store key now = live now (get store key)

  -- Drops the oldest if there are too many.
  unfoldable pub trim : Map (Entry A) → Map (Entry A)
  unfolding delete
  trim [] = []
  trim ((oldest, entry) ∷ store) =
      if ltb max_entries (length ((oldest, entry) ∷ store))
      then delete ((oldest, entry) ∷ store) oldest
      else (oldest, entry) ∷ store

  -- What `then` does with the value computed.
  unfoldable pub fill : ℕ → Map (Entry A) → String → A → ℕ → Map (Entry A)
  unfolding trim put delete
  fill ttl store key value now =
      trim (put (delete store key) key (record { value = value; expires_at = now + ttl }))

  abbrev pub settle : ℕ → Map (Entry A) → String → A → ℕ → Option A → Map (Entry A) × A
  settle ttl store key computed ready (some value) = (store, value)
  settle ttl store key computed ready none = (fill ttl store key computed ready, computed)

  -- The read starts at `now`; the value `computed` is there at `ready`.
  unfoldable pub serve : ℕ → Map (Entry A) → String → A → ℕ → ℕ → Map (Entry A) × A
  unfolding lookup fill
  serve ttl store key computed now ready =
      settle ttl store key computed ready (lookup store key now)

  abbrev pub serve_at : Option String → ℕ → Map (Entry A) → A → ℕ → ℕ → Map (Entry A) × A
  serve_at none ttl store computed now ready = (store, computed)
  serve_at (some key) ttl store computed now ready = serve ttl store key computed now ready

  unfoldable pub drop_keys : List String → Map (Entry A) → Map (Entry A)
  drop_keys prefixes [] = []
  drop_keys prefixes ((key, entry) ∷ store) =
      if any (λ p. starts_with key p) prefixes
      then drop_keys prefixes store
      else (key, entry) ∷ drop_keys prefixes store

  abbrev pub invalidate_org : Option String → Option String → Map (Entry A) → Map (Entry A)
  invalidate_org none workflow_id store = store
  invalidate_org (some org_id) workflow_id store =
      drop_keys (stale_prefixes org_id workflow_id) store

  unfoldable pub invalidate_reads : Option String → Option String → Map (Entry A) → Map (Entry A)
  unfolding drop_keys
  invalidate_reads org_id workflow_id store =
      invalidate_org (given org_id) (given workflow_id) store

  -- `tenantContext()` is none outside a request.
  unfoldable pub invalidate_current_reads : Option RequestContext → Map (Entry A) → Map (Entry A)
  unfolding invalidate_reads
  invalidate_current_reads none store = invalidate_reads none none store
  invalidate_current_reads (some ctx) store =
      invalidate_reads ctx.organization_id ctx.workflow_id store

  unfoldable pub clear_read_cache : Map (Entry A) → Map (Entry A)
  clear_read_cache store = []

abbrev pub scoped : Option String → Option String → String → Option String
scoped (some org_id) (some workflow_id) request =
    some (template (scope_prefix org_id workflow_id ∷ request ∷ []))
scoped _ _ request = none

-- The key of a read, `none` where the cache is bypassed.
unfoldable pub read_key : Option RequestContext → String → Option String
unfolding scope_prefix template
read_key none request = none
read_key (some ctx) request = scoped (given ctx.organization_id) (given ctx.workflow_id) request

unfoldable pub org_read_key : Option RequestContext → String → Option String
unfolding scope_prefix template
org_read_key none request = none
org_read_key (some ctx) request = scoped (given ctx.organization_id) (some org_scope) request

module _ {A : Type 0} (on : Bool) (ttl : ℕ) (context : Option RequestContext) where
  unfoldable pub cached_read : String → Map (Entry A) → A → ℕ → ℕ → Map (Entry A) × A
  unfolding read_key serve
  cached_read request store computed now ready =
      serve_at (if on then read_key context request else none) ttl store computed now ready

  unfoldable pub cached_org_read : String → Map (Entry A) → A → ℕ → ℕ → Map (Entry A) × A
  unfolding org_read_key serve
  cached_org_read request store computed now ready =
      serve_at (if on then org_read_key context request else none) ttl store computed now ready
