-- ===== src/Cohort/Tests.antt =====
-- The statistics of three cases, and the uses of the theorems on them.
use qlerify_live.Prelude.{◌+◌, ◌≡◌, refl, true, none, some, List, [], ◌∷◌, length, filter, ltb}
use qlerify_live.Cohort.{EventDef, CaseRecord, skipped_edge_count, cohort_stats}
use qlerify_live.Cohort.Sums.{sum, cohort_stats-partition}
use qlerify_live.Cohort.Skipped.{cohort_stats-skipped}

abbrev steps : List EventDef
steps =
    record { ref = "a"; predecessors = [] }
    ∷ record { ref = "b"; predecessors = "a" ∷ [] }
    ∷ record { ref = "c"; predecessors = "b" ∷ "x" ∷ [] }
    ∷ []

abbrev cases : List CaseRecord
cases =
    record { id = "1"; row = true; fr = some (("a", 1) ∷ ("b", 2) ∷ []) }
    ∷ record { id = "2"; row = true; fr = some (("a", 1) ∷ ("c", 1) ∷ []) }
    ∷ record { id = "3"; row = true; fr = none }
    ∷ []

stats_of_cases :
    ((cohort_stats steps cases).furthest ≡ 0 ∷ 1 ∷ 1 ∷ [])
    × ((cohort_stats steps cases).not_started ≡ 1)
    × ((cohort_stats steps cases).anomalies.skipped ≡ 1)
    × ((cohort_stats steps cases).anomalies.multi_fired ≡ 1)
    × ((cohort_stats steps cases).covered_by_ref ≡ ("a", 2) ∷ ("b", 1) ∷ ("c", 1) ∷ [])
    × ((cohort_stats steps cases).total_firings ≡ 5)
unfolding cohort_stats
stats_of_cases = (refl, refl, refl, refl, refl, refl)

cohort_stats-partition_example :
    (length (cohort_stats steps cases).furthest ≡ length steps)
    × (sum (cohort_stats steps cases).furthest + (cohort_stats steps cases).not_started
        ≡ (cohort_stats steps cases).denom)
cohort_stats-partition_example = cohort_stats-partition steps cases

cohort_stats-skipped_example :
    (cohort_stats steps cases).anomalies.skipped
    ≡ length (filter (λ r. ltb 0 (skipped_edge_count steps r.fr)) cases)
cohort_stats-skipped_example = cohort_stats-skipped steps cases
