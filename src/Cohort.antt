-- ===== src/Cohort.antt =====
-- frontend/src/lib/cohort.ts: the statistics of a cohort of cases. The counts of a case are natural
-- numbers by event reference; a row of the case list matters only by whether it is there.
pub mod Sums
pub mod Skipped
mod Tests
use qlerify_live.Prelude.{
  ℕ, zero, suc, String, ◌+◌, Bool, true, false, Option, none, some, List, [], ◌∷◌, ◌++◌, map, ◌==◌,
  ◌&&◌, ◌||◌, not, string_eq, if◌then◌else◌, ltb, nat_beq, length, has, any, filter, Map, get, put,
}

pub record EventDef : Type 0 where
  pub ref : String
  pub predecessors : List String

pub record FlowEdgeRef : Type 0 where
  pub from : String
  pub to : String

-- A case of the slice: whether it has a row, and its counts where it has fired.
pub record CaseRecord : Type 0 where
  pub id : String
  pub row : Bool
  pub fr : Option (Map ℕ)

abbrev edges_to : List String → String → List String → List FlowEdgeRef
unfolding has
edges_to refs to [] = []
edges_to refs to (p ∷ ps) =
    let rest = edges_to refs to ps in
    if has refs p then record { from = p; to = to } ∷ rest else rest

abbrev edges_from : List String → List EventDef → List FlowEdgeRef
unfolding edges_to
edges_from refs [] = []
edges_from refs (e ∷ events) = edges_to refs e.ref e.predecessors ++ edges_from refs events

unfoldable pub flow_edges_of : List EventDef → List FlowEdgeRef
unfolding edges_from
flow_edges_of events = edges_from (map (λ e. e.ref) events) events

-- `counts[ref] || 0`
unfoldable pub count_of : Map ℕ → String → ℕ
unfolding get
count_of counts ref = elim (get counts ref) [ none ↦ 0 | some n ↦ n ]

abbrev pub fired : Map ℕ → String → Bool
unfolding count_of
fired counts ref = ltb 0 (count_of counts ref)

-- The last index, from `i` on, of an event that has fired; `none` for -1.
unfoldable pub furthest_from : Map ℕ → ℕ → List EventDef → Option ℕ
unfolding fired
furthest_from counts i [] = none
furthest_from counts i (e ∷ events) = elim (furthest_from counts (suc i) events) [
  | some j ↦ some j
  | none ↦ if fired counts e.ref then some i else none
]

unfoldable pub furthest_index : List EventDef → Option (Map ℕ) → Option ℕ
unfolding furthest_from
furthest_index events none = none
furthest_index events (some counts) = furthest_from counts 0 events

-- The test of `skippedEdgeCount`.
abbrev pub out_of_order : Map ℕ → FlowEdgeRef → Bool
unfolding count_of
out_of_order counts e = ltb 0 (count_of counts e.to) && nat_beq (count_of counts e.from) 0

unfoldable pub skipped_edge_count : List EventDef → Option (Map ℕ) → ℕ
unfolding flow_edges_of filter out_of_order
skipped_edge_count events none = 0
skipped_edge_count events (some counts) =
    length (filter (out_of_order counts) (flow_edges_of events))

unfoldable pub multi_fired_count : Option (Map ℕ) → ℕ
unfolding filter
multi_fired_count none = 0
multi_fired_count (some counts) = length (filter (λ entry. ltb 1 entry.1) counts)

pub record EdgeStat : Type 0 where
  pub from : String
  pub to : String
  pub waiting : ℕ
  pub out_of_order : ℕ

pub record Anomalies : Type 0 where
  pub skipped : ℕ
  pub never_started : ℕ
  pub uncorrelated : ℕ
  pub multi_fired : ℕ

pub record CohortStats : Type 0 where
  pub denom : ℕ
  pub covered_by_ref : Map ℕ
  pub firings_by_ref : Map ℕ
  pub total_firings : ℕ
  pub furthest : List ℕ
  pub not_started : ℕ
  pub edges : List EdgeStat
  pub anomalies : Anomalies

-- The variables of the loop of `cohortStats`.
pub record Tally : Type 0 where
  pub covered_by_ref : Map ℕ
  pub firings_by_ref : Map ℕ
  pub furthest : List ℕ
  pub edges : List EdgeStat
  pub total_firings : ℕ
  pub not_started : ℕ
  pub skipped : ℕ
  pub uncorrelated : ℕ
  pub multi_fired : ℕ

-- `furthest[i] = (furthest[i] || 0) + 1`, for an index of the array.
unfoldable pub bump : List ℕ → ℕ → List ℕ
bump [] i = []
bump (n ∷ ns) zero = suc n ∷ ns
bump (n ∷ ns) (suc i) = n ∷ bump ns i

abbrev place : Option ℕ → Tally → Tally
unfolding bump
place none t = record t { not_started = suc t.not_started }
place (some i) t = record t { furthest = bump t.furthest i }

unfoldable pub count_refs : Map ℕ → Tally → Tally
unfolding put count_of
count_refs [] t = t
count_refs ((ref, n) ∷ counts) t = count_refs counts (
    if ltb 0 n
    then record t {
      covered_by_ref = put t.covered_by_ref ref (count_of t.covered_by_ref ref + 1);
      firings_by_ref = put t.firings_by_ref ref (count_of t.firings_by_ref ref + n);
      total_firings = t.total_firings + n;
    }
    else t)

abbrev pub edge_ref : EdgeStat → FlowEdgeRef
edge_ref e = record { from = e.from; to = e.to }

-- One edge for one case.
abbrev mark_edge : Map ℕ → EdgeStat → EdgeStat
unfolding fired
mark_edge counts e =
    if fired counts e.from && not (fired counts e.to)
    then record e { waiting = suc e.waiting }
    else if fired counts e.to && not (fired counts e.from)
    then record e { out_of_order = suc e.out_of_order }
    else e

-- The branch of that loop that marks the case as violated.
abbrev pub violates : Map ℕ → EdgeStat → Bool
unfolding fired
violates counts e =
    not (fired counts e.from && not (fired counts e.to))
    && fired counts e.to
    && not (fired counts e.from)

abbrev pub counts_or_empty : Option (Map ℕ) → Map ℕ
counts_or_empty none = []
counts_or_empty (some counts) = counts

abbrev is_fired : Option (Map ℕ) → Bool
is_fired none = false
is_fired (some counts) = true

abbrev add_if : Bool → ℕ → ℕ
add_if true n = suc n
add_if false n = n

-- The body of the loop over the cases.
unfoldable pub tally_case : List EventDef → CaseRecord → Tally → Tally
unfolding place furthest_index count_refs mark_edge any violates
tally_case events r t =
    let counts = counts_or_empty r.fr in
    let placed = place (furthest_index events r.fr) t in
    let counted = count_refs counts placed in
    record counted {
      uncorrelated = add_if (is_fired r.fr && not r.row) counted.uncorrelated;
      multi_fired =
          add_if (any (λ entry. ltb 0 entry.1 && ltb 1 entry.1) counts) counted.multi_fired;
      edges = map (mark_edge counts) counted.edges;
      skipped = add_if (any (violates counts) counted.edges) counted.skipped;
    }

unfoldable pub tally_all : List EventDef → List CaseRecord → Tally → Tally
unfolding tally_case
tally_all events [] t = t
tally_all events (r ∷ recs) t = tally_all events recs (tally_case events r t)

abbrev pub initial_tally : List EventDef → Tally
unfolding flow_edges_of
initial_tally events = record {
  covered_by_ref = [];
  firings_by_ref = [];
  furthest = map (λ e. 0) events;
  edges =
      map (λ e. record { from = e.from; to = e.to; waiting = 0; out_of_order = 0 })
        (flow_edges_of events);
  total_firings = 0;
  not_started = 0;
  skipped = 0;
  uncorrelated = 0;
  multi_fired = 0;
}

unfoldable pub cohort_stats : List EventDef → List CaseRecord → CohortStats
unfolding tally_all initial_tally
cohort_stats events recs =
    let t = tally_all events recs (initial_tally events) in
    record {
      denom = length recs;
      covered_by_ref = t.covered_by_ref;
      firings_by_ref = t.firings_by_ref;
      total_firings = t.total_firings;
      furthest = t.furthest;
      not_started = t.not_started;
      edges = t.edges;
      anomalies = record {
        skipped = t.skipped;
        never_started = t.not_started;
        uncorrelated = t.uncorrelated;
        multi_fired = t.multi_fired;
      };
    }
