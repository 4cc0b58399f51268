-- ===== src/Correlation/Rules.antt =====
-- The decision as an order of priorities, and what stays of it once its case is recorded.
use qlerify_live.Prelude.{
  String, Option, none, some, List, [], ◌∷◌, ◌++◌, map, ◌==◌, string_eq, ◌≡◌, refl, sym, ap, ◌∙◌,
  arith, eq_iff, Bool-cases, Option-cases, inl, inr, ◌≢◌, true≢false,
}
use qlerify_live.Ontology.Schema.{Model}
use qlerify_live.Tenancy.{given}
use qlerify_live.Period.Calendar.{Date}
use qlerify_live.Correlation.{
  ForeignKey, CycleLink, Payload, CaseOf, CycleCase, CycleResolution, foreign_key_fields,
  cycle_link_fields, text_at, parent_case, cycle_case_at, cycle_case_from, linked_case, or_else,
  decide_case_id,
}

-- The first of the answers that is there.
abbrev pub first_some {ℓ} : {A : Type ℓ} → List (Option A) → Option A
first_some [] = none
first_some (a ∷ answers) = or_else a (first_some answers)

-- What one foreign key answers: the case of the instance that it names.
abbrev pub key_answer : Payload → CaseOf → ForeignKey → Option String
key_answer payload case_of fk = elim (text_at payload fk.name) [
  | none ↦ none
  | some ref ↦ given (case_of ref)
]

abbrev pub link_answers : Payload → CycleCase → Option Date → List CycleLink → List (Option String)
link_answers payload cycle_case none links = []
link_answers payload cycle_case (some date) links =
    map (cycle_case_at payload cycle_case date) links

first_some-append :
    (xs ys : List (Option String)) → first_some (xs ++ ys) ≡ or_else (first_some xs) (first_some ys)
first_some-append [] ys = refl
first_some-append (none ∷ xs) ys = first_some-append xs ys
first_some-append (some a ∷ xs) ys = refl

parent_case-first_some :
    (payload : Payload) (case_of : CaseOf) (fks : List ForeignKey)
    → parent_case payload case_of fks ≡ first_some (map (key_answer payload case_of) fks)
unfolding parent_case
parent_case-first_some payload case_of [] = refl
parent_case-first_some payload case_of (fk ∷ fks) =
    ground (arith, parent_case-first_some payload case_of fks)

cycle_case_from-first_some :
    (payload : Payload) (cycle_case : CycleCase) (date : Date) (links : List CycleLink)
    → cycle_case_from payload cycle_case date links
      ≡ first_some (map (cycle_case_at payload cycle_case date) links)
unfolding cycle_case_from
cycle_case_from-first_some payload cycle_case date [] = refl
cycle_case_from-first_some payload cycle_case date (l ∷ links) =
    ground (arith, cycle_case_from-first_some payload cycle_case date links)

linked_case-first_some :
    (payload : Payload) (cycle_case : CycleCase) (date : Option Date) (links : List CycleLink)
    → linked_case payload cycle_case date links
      ≡ first_some (link_answers payload cycle_case date links)
unfolding linked_case
linked_case-first_some payload cycle_case none links = refl
linked_case-first_some payload cycle_case (some date) links =
    cycle_case_from-first_some payload cycle_case date links

given-given : (o : Option String) → given (given o) ≡ given o
given-given none = refl
given-given (some s) = ground arith

given-or_else :
    (a b : Option String) → given a ≡ a → given b ≡ b → given (or_else a b) ≡ or_else a b
given-or_else none b h k = k
given-or_else (some s) b h k = h

given-text_at :
    (payload : Payload) (name : String) → given (text_at payload name) ≡ text_at payload name
unfolding text_at
given-text_at payload name = grind (arith, given-given)

given-parent_case :
    (payload : Payload) (case_of : CaseOf) (fks : List ForeignKey)
    → given (parent_case payload case_of fks) ≡ parent_case payload case_of fks
unfolding parent_case
given-parent_case payload case_of [] = refl
given-parent_case payload case_of (fk ∷ fks) =
    grind (arith, given-given, given-or_else, given-parent_case payload case_of fks)

given-cycle_case_from :
    (payload : Payload) (cycle_case : CycleCase) (date : Date) (links : List CycleLink)
    → given (cycle_case_from payload cycle_case date links)
      ≡ cycle_case_from payload cycle_case date links
unfolding cycle_case_from cycle_case_at
given-cycle_case_from payload cycle_case date [] = refl
given-cycle_case_from payload cycle_case date (l ∷ links) =
    given-or_else _ _ (grind (arith, given-given))
      (given-cycle_case_from payload cycle_case date links)

or_else-some :
    (a b : Option String) → (c : String) × (b ≡ some c) → (c : String) × (or_else a b ≡ some c)
or_else-some none b h = h
or_else-some (some s) b h = (s, refl)

given-some : (c : String) → given (some c) ≡ some c → c ≢ ""
given-some c h = ground (arith, eq_iff c "")

or_else-given :
    (a b : Option String) (c : String) → a ≡ some c → c ≢ "" → or_else (given a) b ≡ some c
or_else-given a b c h n = rw h (ground (arith, eq_iff c ""))

given-linked_case :
    (payload : Payload) (cycle_case : CycleCase) (date : Option Date) (links : List CycleLink)
    → given (linked_case payload cycle_case date links) ≡ linked_case payload cycle_case date links
unfolding linked_case
given-linked_case payload cycle_case none links = refl
given-linked_case payload cycle_case (some date) links =
    given-cycle_case_from payload cycle_case date links

module _ (ont : Model) (aggregate_root aggregate_id : String) (payload : Payload)
    (cycle : CycleResolution) where
  -- The answers in the order in which they count.
  abbrev pub answers : CaseOf → List (Option String)
  answers case_of =
      given (case_of aggregate_id)
      ∷ (map (key_answer payload case_of) (foreign_key_fields aggregate_root ont)
          ++ (link_answers payload cycle.cycle_case cycle.business_at
                (cycle_link_fields aggregate_root ont)
              ++ some aggregate_id ∷ []))

  abbrev inherited : CaseOf → Option String
  inherited case_of =
      or_else (parent_case payload case_of (foreign_key_fields aggregate_root ont)) (
        or_else
          (linked_case payload cycle.cycle_case cycle.business_at
            (cycle_link_fields aggregate_root ont))
          (some aggregate_id))

  inherited-first_some :
      (case_of : CaseOf)
      → or_else (given (case_of aggregate_id)) (inherited case_of) ≡ first_some (answers case_of)
  inherited-first_some case_of =
      rw
        (
          parent_case-first_some payload case_of (foreign_key_fields aggregate_root ont),
          linked_case-first_some payload cycle.cycle_case cycle.business_at
              (cycle_link_fields aggregate_root ont),
          first_some-append
              (map (key_answer payload case_of) (foreign_key_fields aggregate_root ont))
              (link_answers payload cycle.cycle_case cycle.business_at
                  (cycle_link_fields aggregate_root ont)
                ++ some aggregate_id ∷ []),
          first_some-append
              (link_answers payload cycle.cycle_case cycle.business_at
                (cycle_link_fields aggregate_root ont))
              (some aggregate_id ∷ []),
        )
        refl

  -- For an event without a case id of its own and an instance of another aggregate than the root, the
  -- case is the first that one of these gives: the case that the instance has, the cases of the instances
  -- that its foreign keys name, the cycles that it links to, and the instance itself.
  pub decide_case_id-first_some :
      (case_of : CaseOf)
      → text_at payload "caseId" ≡ none
      → aggregate_id ≢ ""
      → aggregate_root ≢ ont.root_aggregate
      → decide_case_id ont aggregate_root aggregate_id payload case_of cycle
        ≡ first_some (answers case_of)
  unfolding decide_case_id
  decide_case_id-first_some case_of h k l =
      ground (arith, eq_iff aggregate_id "", eq_iff aggregate_root ont.root_aggregate)
      ∙ inherited-first_some case_of

  given-inherited :
      (case_of : CaseOf) → aggregate_id ≢ "" → given (inherited case_of) ≡ inherited case_of
  given-inherited case_of k = given-or_else _ _ (given-parent_case payload case_of _) (
      given-or_else _ _ (given-linked_case payload cycle.cycle_case cycle.business_at _)
        (ground (arith, eq_iff aggregate_id "")))

  or_else-inherited :
      (case_of : CaseOf)
      → (c : String) × (or_else (given (case_of aggregate_id)) (inherited case_of) ≡ some c)
  or_else-inherited case_of = or_else-some (given (case_of aggregate_id)) (inherited case_of) (
      or_else-some (parent_case payload case_of (foreign_key_fields aggregate_root ont)) _ (
        or_else-some
          (linked_case payload cycle.cycle_case cycle.business_at
            (cycle_link_fields aggregate_root ont))
          _ (aggregate_id, refl)))

  given-decide_case_id :
      (case_of : CaseOf)
      → given (decide_case_id ont aggregate_root aggregate_id payload case_of cycle)
        ≡ decide_case_id ont aggregate_root aggregate_id payload case_of cycle
  unfolding decide_case_id
  given-decide_case_id case_of = ground (
    arith,
    eq_iff aggregate_id "",
    given-text_at payload "caseId",
    given-inherited case_of,
    given-given (case_of aggregate_id),
    given-or_else (given (case_of aggregate_id)) (inherited case_of),
  )

  -- A decision for an instance with an id is always some case, and its id is not empty.
  pub decide_case_id-some :
      (case_of : CaseOf)
      → aggregate_id ≢ ""
      → (c : String) × (decide_case_id ont aggregate_root aggregate_id payload case_of cycle
          ≡ some c)
        × (c ≢ "")
  unfolding decide_case_id
  decide_case_id-some case_of k =
      let (c, e) = or_else-inherited case_of in
      elim (Option-cases (decide_case_id ont aggregate_root aggregate_id payload case_of cycle)) [
        | inl none_decided ↦ absurd (ground (arith, eq_iff aggregate_id "", e))
        | inr (d, p) ↦ (d, p, given-some d (ap given (sym p) ∙ given-decide_case_id case_of ∙ p))
      ]

  keeps :
      (before after : CaseOf) (c : String)
      → c ≢ ""
      → after aggregate_id ≡ some c
      → decide_case_id ont aggregate_root aggregate_id payload before cycle ≡ some c
      → decide_case_id ont aggregate_root aggregate_id payload after cycle ≡ some c
  unfolding decide_case_id
  keeps before after c n h k =
      ground (arith, eq_iff c "", or_else-given (after aggregate_id) (inherited after) c h n)

  without_id :
      (before after : CaseOf)
      → aggregate_id ≡ ""
      → decide_case_id ont aggregate_root aggregate_id payload after cycle
        ≡ decide_case_id ont aggregate_root aggregate_id payload before cycle
  unfolding decide_case_id
  without_id before after h = ground (arith, eq_iff aggregate_id "")

  -- Once the case that was decided for an instance is recorded as the case of the instance, the decision
  -- is the same again, whatever else was recorded.
  pub decide_case_id_again :
      (before after : CaseOf)
      → after aggregate_id ≡ decide_case_id ont aggregate_root aggregate_id payload before cycle
      → decide_case_id ont aggregate_root aggregate_id payload after cycle
        ≡ decide_case_id ont aggregate_root aggregate_id payload before cycle
  decide_case_id_again before after h = elim (Bool-cases (aggregate_id == "")) [
    | inl e ↦ without_id before after ((eq_iff aggregate_id "").0 e)
    | inr e ↦
        let (c, p, n) =
          decide_case_id-some before (λ q. true≢false (sym ((eq_iff aggregate_id "").1 q) ∙ e)) in
        keeps before after c n (h ∙ p) p ∙ sym p
  ]
