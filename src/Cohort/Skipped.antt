-- ===== src/Cohort/Skipped.antt =====
-- The cases that `cohortStats` counts as skipped are those with a violated edge.
use qlerify_live.Prelude.{
  ℕ, ◌+◌, ◌≡◌, refl, ap, ◌∙◌, Bool, false, ◌&&◌, not, Option, none, some, List, [], ◌∷◌, ltb,
  length, map, Map, any, filter, get, arith, Bool-cases, inl, inr,
}
use qlerify_live.Cohort.{
  EventDef, FlowEdgeRef, EdgeStat, CaseRecord, Tally, fired, count_of, out_of_order, violates,
  edge_ref, mark_edge, place, count_refs, furthest_index, tally_case, tally_all, counts_or_empty,
  add_if, flow_edges_of, skipped_edge_count, initial_tally, cohort_stats,
}

-- Both loops call the same edges violated.
any-violates :
    (counts : Map ℕ) (edges : List EdgeStat)
    → any (violates counts) edges ≡ any (out_of_order counts) (map edge_ref edges)
unfolding any violates out_of_order fired
any-violates counts [] = refl
any-violates counts (e ∷ edges) = ground (arith, any-violates counts edges)

any-filter : {A : Type 0} (p : A → Bool) (xs : List A) → any p xs ≡ ltb 0 (length (filter p xs))
unfolding any filter
any-filter p [] = refl
any-filter p (x ∷ xs) = elim (Bool-cases (p x)) [
  | inl e ↦ rw e (ground arith)
  | inr e ↦ rw e (any-filter p xs)
]

any-none : (edges : List FlowEdgeRef) → any (out_of_order []) edges ≡ false
unfolding any out_of_order count_of get
any-none [] = refl
any-none (e ∷ edges) = any-none edges

edge_ref-mark_edge : (counts : Map ℕ) (e : EdgeStat) → edge_ref (mark_edge counts e) ≡ edge_ref e
unfolding mark_edge
edge_ref-mark_edge counts e = elim (Bool-cases (fired counts e.from && not (fired counts e.to))) [
  | inl w ↦ rw w refl
  | inr w ↦ elim (Bool-cases (fired counts e.to && not (fired counts e.from))) [
    | inl o ↦ rw (w, o) refl
    | inr o ↦ rw (w, o) refl
  ]
]

refs-mark_edge :
    (counts : Map ℕ) (edges : List EdgeStat)
    → map edge_ref (map (mark_edge counts) edges) ≡ map edge_ref edges
refs-mark_edge counts [] = refl
refs-mark_edge counts (e ∷ edges) =
    ap (λ x. x ∷ map edge_ref (map (mark_edge counts) edges)) (edge_ref-mark_edge counts e)
    ∙ ap (λ l. edge_ref e ∷ l) (refs-mark_edge counts edges)

place-edges :
    (o : Option ℕ) (t : Tally) → ((place o t).edges ≡ t.edges) × ((place o t).skipped ≡ t.skipped)
unfolding place
place-edges none t = (refl, refl)
place-edges (some i) t = (refl, refl)

count_refs-edges :
    (counts : Map ℕ) (t : Tally)
    → ((count_refs counts t).edges ≡ t.edges) × ((count_refs counts t).skipped ≡ t.skipped)
unfolding count_refs
count_refs-edges [] t = (refl, refl)
count_refs-edges ((ref, n) ∷ counts) t =
    ((count_refs-edges counts _).0 ∙ ground arith, (count_refs-edges counts _).1 ∙ ground arith)

violated_iff :
    (events : List EventDef) (fr : Option (Map ℕ))
    → any (out_of_order (counts_or_empty fr)) (flow_edges_of events)
      ≡ ltb 0 (skipped_edge_count events fr)
unfolding skipped_edge_count
violated_iff events none = any-none (flow_edges_of events)
violated_iff events (some counts) = any-filter (out_of_order counts) (flow_edges_of events)

abbrev is_skipped : List EventDef → CaseRecord → Bool
is_skipped events r = ltb 0 (skipped_edge_count events r.fr)

tally_case-skipped :
    (events : List EventDef) (r : CaseRecord) (t : Tally)
    → map edge_ref t.edges ≡ flow_edges_of events
    → ((tally_case events r t).skipped ≡ add_if (is_skipped events r) t.skipped)
      × (map edge_ref (tally_case events r t).edges ≡ flow_edges_of events)
unfolding tally_case
tally_case-skipped events r t h =
    let counts = counts_or_empty r.fr in
    let placed = place (furthest_index events r.fr) t in
    let (placed_edges, placed_skipped) = place-edges (furthest_index events r.fr) t in
    let (edges, skipped) = count_refs-edges counts placed in
    let refs = ap (map edge_ref) (edges ∙ placed_edges) ∙ h in
    (
      ap (add_if _) (skipped ∙ placed_skipped)
          ∙ ap (λ b. add_if b t.skipped)
              (any-violates counts (count_refs counts placed).edges
                ∙ (ap (any (out_of_order counts)) refs ∙ violated_iff events r.fr)),
      refs-mark_edge counts (count_refs counts placed).edges ∙ refs,
    )

tally_all-skipped :
    (events : List EventDef) (recs : List CaseRecord) (t : Tally)
    → map edge_ref t.edges ≡ flow_edges_of events
    → (tally_all events recs t).skipped ≡ t.skipped + length (filter (is_skipped events) recs)
unfolding tally_all filter
tally_all-skipped events [] t h = omega arith
tally_all-skipped events (r ∷ recs) t h =
    let (one, refs) = tally_case-skipped events r t h in
    let rest = tally_all-skipped events recs (tally_case events r t) refs in
    elim (Bool-cases (is_skipped events r)) [
      | inl e ↦ rw e (omega (arith, rest, one, ap (λ b. add_if b t.skipped) e))
      | inr e ↦ rw e (omega (arith, rest, one, ap (λ b. add_if b t.skipped) e))
    ]

refs-initial :
    (edges : List FlowEdgeRef)
    → map edge_ref
        (map (λ e. record { from = e.from; to = e.to; waiting = 0; out_of_order = 0 }) edges)
      ≡ edges
refs-initial [] = refl
refs-initial (e ∷ edges) = ap (λ l. e ∷ l) (refs-initial edges)

-- The anomaly count `skipped` is the number of cases whose count of skipped edges is positive.
pub cohort_stats-skipped :
    (events : List EventDef) (recs : List CaseRecord)
    → (cohort_stats events recs).anomalies.skipped
      ≡ length (filter (λ r. ltb 0 (skipped_edge_count events r.fr)) recs)
unfolding cohort_stats initial_tally
cohort_stats-skipped events recs = omega (
  arith,
  tally_all-skipped events recs (initial_tally events) (refs-initial (flow_edges_of events)),
)
