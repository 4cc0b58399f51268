-- ===== src/Cohort/Sums.antt =====
-- The buckets of the furthest step and the cases that have not started partition the cohort.
use qlerify_live.Prelude.{
  ℕ, zero, suc, ◌+◌, ◌<◌, ◌≡◌, refl, sym, ap, ◌∙◌, inl, inr, true, false, Option, none, some, List,
  [], ◌∷◌, if◌then◌else◌, length, length-map, map, Map, arith, Bool-cases, Option-cases,
}
use qlerify_live.Cohort.{
  EventDef, CaseRecord, Tally, fired, furthest_from, furthest_index, bump, place, count_refs,
  tally_case, tally_all, counts_or_empty, initial_tally, cohort_stats,
}

abbrev pub sum : List ℕ → ℕ
sum [] = 0
sum (n ∷ ns) = n + sum ns

length-bump : (ns : List ℕ) (i : ℕ) → length (bump ns i) ≡ length ns
unfolding bump
length-bump [] i = refl
length-bump (n ∷ ns) zero = refl
length-bump (n ∷ ns) (suc i) = ap suc (length-bump ns i)

sum-bump : (ns : List ℕ) (i : ℕ) → i < length ns → sum (bump ns i) ≡ suc (sum ns)
unfolding bump
sum-bump [] i h = absurd (omega (arith, h))
sum-bump (n ∷ ns) zero h = omega arith
sum-bump (n ∷ ns) (suc i) h = omega (arith, h, sum-bump ns i (omega (arith, h)))

furthest_from-lt :
    (counts : Map ℕ) (i : ℕ) (events : List EventDef) (j : ℕ)
    → furthest_from counts i events ≡ some j
    → j < i + length events
unfolding furthest_from
furthest_from-lt counts i [] j h = cc
furthest_from-lt counts i (e ∷ events) j h =
    elim (Option-cases (furthest_from counts (suc i) events)) [
      | inr (k, q) ↦ omega (arith, furthest_from-lt counts (suc i) events k q, same k q)
      | inl q ↦ elim (Bool-cases (fired counts e.ref)) [
        | inl f ↦ omega (arith, here q f)
        | inr f ↦ absurd (nothing q f)
      ]
    ]
  where
    last : Option ℕ → Option ℕ
    last o = elim o [ some k ↦ some k | none ↦ if fired counts e.ref then some i else none ]

    same : (k : ℕ) → furthest_from counts (suc i) events ≡ some k → k ≡ j
    same k q = inj (sym (ap last q) ∙ h)
      where
        inj : some k ≡ some j → k ≡ j
        inj p = cc

    here : furthest_from counts (suc i) events ≡ none → fired counts e.ref ≡ true → i ≡ j
    here q f = inj (sym (ap last q ∙ ap (λ b. if b then some i else none) f) ∙ h)
      where
        inj : some i ≡ some j → i ≡ j
        inj p = cc

    nothing : furthest_from counts (suc i) events ≡ none → fired counts e.ref ≡ false → ⊥
    nothing q f = clash (sym (ap last q ∙ ap (λ b. if b then some i else none) f) ∙ h)
      where
        clash : ¬ (none ≡ some j)
        clash p = cc

furthest_index-lt :
    (events : List EventDef) (fr : Option (Map ℕ)) (j : ℕ)
    → furthest_index events fr ≡ some j
    → j < length events
unfolding furthest_index
furthest_index-lt events none j h = cc
furthest_index-lt events (some counts) j h = omega (arith, furthest_from-lt counts 0 events j h)

count_refs-furthest : (counts : Map ℕ) (t : Tally) → (count_refs counts t).furthest ≡ t.furthest
unfolding count_refs
count_refs-furthest [] t = refl
count_refs-furthest ((ref, n) ∷ counts) t = count_refs-furthest counts _ ∙ ground arith

count_refs-not_started :
    (counts : Map ℕ) (t : Tally) → (count_refs counts t).not_started ≡ t.not_started
unfolding count_refs
count_refs-not_started [] t = refl
count_refs-not_started ((ref, n) ∷ counts) t = count_refs-not_started counts _ ∙ ground arith

-- How many cases the buckets hold, with those that have not started.
abbrev held : Tally → ℕ
held t = sum t.furthest + t.not_started

place-held :
    (o : Option ℕ) (t : Tally)
    → ((i : ℕ) → o ≡ some i → i < length t.furthest)
    → (held (place o t) ≡ suc (held t)) × (length (place o t).furthest ≡ length t.furthest)
unfolding place
place-held none t h = (omega arith, refl)
place-held (some i) t h =
    (omega (arith, sum-bump t.furthest i (h i refl)), length-bump t.furthest i)

tally_case-held :
    (events : List EventDef) (r : CaseRecord) (t : Tally)
    → length t.furthest ≡ length events
    → (held (tally_case events r t) ≡ suc (held t))
      × (length (tally_case events r t).furthest ≡ length events)
unfolding tally_case
tally_case-held events r t h =
    let placed = place (furthest_index events r.fr) t in
    let (one, same) =
      place-held (furthest_index events r.fr) t
        (λ i q. omega (arith, h, furthest_index-lt events r.fr i q)) in
    (
      omega (
        arith,
        one,
        ap sum (count_refs-furthest (counts_or_empty r.fr) placed),
        count_refs-not_started (counts_or_empty r.fr) placed,
      ),
      ap length (count_refs-furthest (counts_or_empty r.fr) placed) ∙ (same ∙ h),
    )

tally_all-held :
    (events : List EventDef) (recs : List CaseRecord) (t : Tally)
    → length t.furthest ≡ length events
    → (held (tally_all events recs t) ≡ held t + length recs)
      × (length (tally_all events recs t).furthest ≡ length events)
unfolding tally_all
tally_all-held events [] t h = (omega arith, h)
tally_all-held events (r ∷ recs) t h =
    let (one, same) = tally_case-held events r t h in
    let (rest, kept) = tally_all-held events recs (tally_case events r t) same in
    (omega (arith, one, rest), kept)

sum-zeros : (events : List EventDef) → sum (map (λ e. 0) events) ≡ 0
sum-zeros [] = refl
sum-zeros (e ∷ events) = omega (arith, sum-zeros events)

-- The buckets of the furthest step are as many as the events, and with the cases that have not
-- started they sum up to the number of cases.
pub cohort_stats-partition :
    (events : List EventDef) (recs : List CaseRecord)
    → (length (cohort_stats events recs).furthest ≡ length events)
      × (sum (cohort_stats events recs).furthest + (cohort_stats events recs).not_started
          ≡ (cohort_stats events recs).denom)
unfolding cohort_stats initial_tally
cohort_stats-partition events recs =
    let (total, kept) =
      tally_all-held events recs (initial_tally events) (length-map events (λ e. 0)) in
    (kept, omega (arith, total, sum-zeros events))
