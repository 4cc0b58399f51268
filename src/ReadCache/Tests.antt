-- ===== src/ReadCache/Tests.antt =====
-- Runs of the cache of reads, and the uses of its theorems at concrete inputs.
use qlerify_live.Prelude.{
  ℕ, String, ◌≤◌, ◌≡◌, refl, true, false, none, some, List, [], ◌∷◌, length, Map, any,
}
use qlerify_live.Pdp.Types.{identity}
use qlerify_live.Tenancy.{RequestContext}
use qlerify_live.ReadCache.{
  Entry, enabled, cached_read, cached_org_read, fill, lookup, invalidate_reads,
  invalidate_current_reads, stale_prefixes,
}
use qlerify_live.ReadCache.Slices.{cached_read-invalidate_current_reads}
use qlerify_live.ReadCache.Newest.{lookup-fill}
use qlerify_live.ReadCache.History.{
  Step, read, org_read, late_fill, invalidate, cache_after, cache_after-bound,
}

abbrev context : String → String → RequestContext
context org_id workflow_id = record {
  principal = record { id = "cache-test-principal"; type = identity };
  identity_id = none;
  subject = none;
  organization_id = some org_id;
  workflow_id = some workflow_id;
  is_platform_admin = false;
  acting_as_platform_admin = false;
}

-- The value 1, computed at 10, is served to its own workflow at 11.
abbrev store : Map (Entry ℕ)
store = (cached_read true 1000 (some (context "orgA" "wf1")) "r" [] 1 9 10).0

served : (cached_read true 1000 (some (context "orgA" "wf1")) "r" store 2 11 12).1 ≡ 1
unfolding cached_read
served = refl

not_shared : (cached_read true 1000 (some (context "orgA" "wf2")) "r" store 2 11 12).1 ≡ 2
unfolding cached_read
not_shared = refl

expired : (cached_read true 1000 (some (context "orgA" "wf1")) "r" store 2 1010 1011).1 ≡ 2
unfolding cached_read
expired = refl

dropped_with_org : invalidate_reads (some "orgA") none store ≡ []
unfolding cached_read invalidate_reads any stale_prefixes
dropped_with_org = refl

kept_for_others : length (invalidate_reads (some "orgB") none store) ≡ 1
unfolding cached_read invalidate_reads any stale_prefixes
kept_for_others = refl

off_under_test : enabled "" (some "test") ≡ false
unfolding enabled
off_under_test = refl

cached_read-invalidate_current_reads_example :
    ((cached_read true 1000
        (some (context "orgA" "wf1"))
        "r"
        (invalidate_current_reads (some (context "orgA" "wf1")) store)
        2
        11
        12).1
      ≡ 2)
    × ((cached_org_read true 1000
          (some (context "orgA" "wf2"))
          "r"
          (invalidate_current_reads (some (context "orgA" "wf1")) store)
          2
          11
          12).1
        ≡ 2)
cached_read-invalidate_current_reads_example =
    cached_read-invalidate_current_reads true 1000 (context "orgA" "wf1") (context "orgA" "wf1")
      (context "orgA" "wf2") "r" store 2 11 12 refl refl refl

-- A fill whose read started before the invalidation.
lookup-fill_example :
    lookup (fill 1000 (invalidate_reads (some "orgA") none store) "key" 7 20) "key" 30 ≡ some 7
lookup-fill_example = lookup-fill 1000 (invalidate_reads (some "orgA") none store) "key" 7 20 30

abbrev steps : List (Step ℕ)
steps =
    late_fill "key" 4 40
    ∷ invalidate (some "orgA") none
    ∷ org_read (some (context "orgA" "wf1")) "portfolio" 2 20 21
    ∷ read (some (context "orgA" "wf1")) "r" 1 9 10
    ∷ []

cache_after-bound_example : length (cache_after true 1000 steps) ≤ 500
cache_after-bound_example = cache_after-bound true 1000 steps
