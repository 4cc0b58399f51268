-- ===== src/Correlation/Decision.antt =====
-- src/twin/correlate.ts: `decideCaseId`, the case of an aggregate instance.
use qlerify_live.Prelude.{
  ℕ, String, Bool, true, ◌&&◌, ◌||◌, Option, none, some, List, [], ◌∷◌, ◌==◌, string_eq,
  if◌then◌else◌, nat_beq, Map, get,
}
use qlerify_live.Ontology.Schema.{Model, Value, text}
use qlerify_live.Period.{Text, codes, within, period_of}
use qlerify_live.Period.Calendar.{Date}
use qlerify_live.Tenancy.{given}
use qlerify_live.Correlation.Links.{
  ForeignKey, FieldPair, CycleLink, foreign_key_fields, cycle_link_fields,
}

-- The white space and line ends that `trim` takes off.
abbrev pub is_space : ℕ → Bool
is_space c =
    within 9 13 c
    || nat_beq c 32
    || nat_beq c 160
    || nat_beq c 5760
    || within 8192 8202 c
    || within 8232 8233 c
    || nat_beq c 8239
    || nat_beq c 8287
    || nat_beq c 12288
    || nat_beq c 65279

-- `!s.trim()`.
unfoldable pub is_blank : Text → Bool
is_blank [] = true
is_blank (c ∷ s) = is_space c && is_blank s

abbrev pub Payload : Type 0
Payload = Map Value

unfoldable pub subject_value : Payload → FieldPair → Option String
unfolding get is_blank
subject_value payload pair = elim (get payload pair.child) [
  | none ↦ none
  | some v ↦ elim v [ text s ↦ (if is_blank (codes s) then none else some s) | _ ↦ none ]
]

unfoldable pub subject_values : List FieldPair → Payload → Option (List String)
unfolding subject_value
subject_values [] payload = some []
subject_values (pair ∷ pairs) payload =
    let rest = subject_values pairs payload in
    elim (subject_value payload pair) [
      | none ↦ none
      | some v ↦ elim rest [ none ↦ none | some values ↦ some (v ∷ values) ]
    ]

-- `typeof v === "string" && v`.
unfoldable pub text_at : Payload → String → Option String
unfolding get
text_at payload name = elim (get payload name) [
  | none ↦ none
  | some v ↦ elim v [ text s ↦ given (some s) | _ ↦ none ]
]

abbrev pub CaseOf : Type 0
CaseOf = String → Option String

abbrev pub CycleCase : Type 0
CycleCase = CycleLink → List String → Text → Option String

pub record CycleResolution : Type 0 where
  pub business_at : Option Date
  pub cycle_case : CycleCase

abbrev pub or_else {ℓ} : {A : Type ℓ} → Option A → Option A → Option A
or_else none other = other
or_else (some a) other = some a

unfoldable pub parent_case : Payload → CaseOf → List ForeignKey → Option String
parent_case payload case_of [] = none
parent_case payload case_of (fk ∷ fks) =
    let rest = parent_case payload case_of fks in
    elim (text_at payload fk.name) [ none ↦ rest | some ref ↦ or_else (given (case_of ref)) rest ]

unfoldable pub cycle_case_at : Payload → CycleCase → Date → CycleLink → Option String
cycle_case_at payload cycle_case business_at link =
    elim (subject_values link.subject_fields payload) [
      | none ↦ none
      | some values ↦ given (cycle_case link values (period_of business_at link.granularity))
    ]

unfoldable pub cycle_case_from : Payload → CycleCase → Date → List CycleLink → Option String
cycle_case_from payload cycle_case business_at [] = none
cycle_case_from payload cycle_case business_at (link ∷ links) =
    let rest = cycle_case_from payload cycle_case business_at links in
    or_else (cycle_case_at payload cycle_case business_at link) rest

unfoldable pub linked_case : Payload → CycleCase → Option Date → List CycleLink → Option String
linked_case payload cycle_case none links = none
linked_case payload cycle_case (some date) links = cycle_case_from payload cycle_case date links

unfoldable pub decide_case_id :
    Model → String → String → Payload → CaseOf → CycleResolution → Option String
decide_case_id ont aggregate_root aggregate_id payload case_of cycle =
    elim (text_at payload "caseId") [
      | some explicit ↦ some explicit
      | none ↦
          (if aggregate_id == ""
            then none
            else if aggregate_root == ont.root_aggregate
            then some aggregate_id
            else or_else (given (case_of aggregate_id)) (
                or_else (parent_case payload case_of (foreign_key_fields aggregate_root ont)) (
                  or_else
                    (linked_case payload cycle.cycle_case cycle.business_at
                      (cycle_link_fields aggregate_root ont))
                    (some aggregate_id))))
    ]
