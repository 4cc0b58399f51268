-- ===== src/Correlation/Links.antt =====
-- src/twin/correlate.ts: the fields of an aggregate that point at another one, or into a cycle.
use qlerify_live.Prelude.{
  ℕ, String, Bool, true, false, ◌&&◌, ◌||◌, not, Option, none, some, List, [], ◌∷◌, ◌++◌, ◌+◌, ◌==◌,
  string_eq, if◌then◌else◌, nat_beq, map, filter, find,
}
use qlerify_live.Ontology.Schema.{Model, EntitySchema, SchemaField, entity}
use qlerify_live.Period.{
  Text, codes, text_beq, within, norm_name, ends_with, PeriodGranularity, period_key_of,
}
use qlerify_live.Tenancy.{given}

-- `toLowerCase` of a name of ASCII letters.
abbrev lower_code : ℕ → ℕ
lower_code c = if within 65 90 c then c + 32 else c

abbrev pub to_lower : Text → Text
to_lower s = map lower_code s

abbrev is_line_end : ℕ → Bool
is_line_end c = nat_beq c 10 || nat_beq c 13 || nat_beq c 8232 || nat_beq c 8233

-- `/^(.+)Id$/.exec(name)`: what stands before the final "Id", a text of one line that is not empty.
unfoldable pub before_id : Text → Option Text
before_id [] = none
before_id (c ∷ s) =
    let rest = before_id s in
    if is_line_end c
    then none
    else if text_beq s (codes "Id")
    then some (c ∷ [])
    else elim rest [ none ↦ none | some front ↦ some (c ∷ front) ]

abbrev named_like : Text → EntitySchema → Bool
named_like want e = text_beq (to_lower (codes e.name)) want

unfoldable pub fk_target_entity : String → Model → Option String
unfolding before_id find
fk_target_entity field_name ont = elim (before_id (codes field_name)) [
  | none ↦ none
  | some front ↦ elim (find (named_like (to_lower front)) ont.entities) [
    | none ↦ none
    | some e ↦ some e.name
  ]
]

pub record ForeignKey : Type 0 where
  pub name : String
  pub target : String

-- The entity that a field declares, where the model has it.
unfoldable pub related_target : SchemaField → Model → Option String
unfolding entity
related_target f ont = elim (given f.related_entity) [
  | none ↦ none
  | some e ↦ elim (entity ont e) [ none ↦ none | some _ ↦ some e ]
]

unfoldable pub target_of : SchemaField → Model → Option String
unfolding related_target fk_target_entity
target_of f ont = elim (related_target f ont) [
  | none ↦ given (fk_target_entity f.name ont)
  | some e ↦ some e
]

unfoldable pub foreign_keys : String → Model → List SchemaField → List ForeignKey
unfolding target_of
foreign_keys aggregate_root ont [] = []
foreign_keys aggregate_root ont (f ∷ fields) =
    let rest = foreign_keys aggregate_root ont fields in
    elim (if f.name == "id" then none else target_of f ont) [
      | none ↦ rest
      | some target ↦
          (if target == aggregate_root
            then rest
            else record { name = f.name; target = target } ∷ rest)
    ]

-- The stable sort by `Number(b.target === root) - Number(a.target === root)`.
unfoldable pub root_first {ℓ} : {A : Type ℓ} → (A → String) → String → List A → List A
unfolding filter
root_first target_of root xs =
    filter (λ x. target_of x == root) xs ++ filter (λ x. not (target_of x == root)) xs

abbrev pub fields_of : Option EntitySchema → List SchemaField
fields_of none = []
fields_of (some e) = e.fields

unfoldable pub foreign_key_fields : String → Model → List ForeignKey
unfolding entity foreign_keys root_first
foreign_key_fields aggregate_root ont =
    root_first (λ k. k.target) ont.root_aggregate
      (foreign_keys aggregate_root ont (fields_of (entity ont aggregate_root)))

pub record FieldPair : Type 0 where
  pub child : String
  pub subject : String

pub record CycleLink : Type 0 where
  pub target : String
  pub subject_fields : List FieldPair
  pub period_field : String
  pub granularity : PeriodGranularity

unfoldable pub subject_field_match : String → String → Bool
unfolding norm_name ends_with
subject_field_match child_field subject_field =
    let c = norm_name child_field in
    let s = norm_name subject_field in
    if text_beq c s
    then true
    else if not (ends_with c (codes "id")) || not (ends_with s (codes "id"))
    then false
    else ends_with c s || ends_with s c

-- One pair for each subject field, or nothing where one has no child field.
unfoldable pub subject_pairs : List SchemaField → List String → Option (List FieldPair)
unfolding subject_field_match find
subject_pairs fields [] = some []
subject_pairs fields (subject ∷ subjects) =
    let rest = subject_pairs fields subjects in
    elim (find (λ f. not (f.name == "id") && subject_field_match f.name subject) fields) [
      | none ↦ none
      | some f ↦ elim rest [
        | none ↦ none
        | some pairs ↦ some (record { child = f.name; subject = subject } ∷ pairs)
      ]
    ]

unfoldable pub link_to : List SchemaField → EntitySchema → Option CycleLink
unfolding period_key_of subject_pairs
link_to fields target = elim (period_key_of target) [
  | none ↦ none
  | some pk ↦ elim (subject_pairs fields pk.subject_fields) [
    | none ↦ none
    | some pairs ↦ some (record {
      target = target.name;
      subject_fields = pairs;
      period_field = pk.period_field;
      granularity = pk.granularity;
    })
  ]
]

unfoldable pub cycle_links : String → List SchemaField → List EntitySchema → List CycleLink
unfolding link_to
cycle_links aggregate_root fields [] = []
cycle_links aggregate_root fields (target ∷ targets) =
    let rest = cycle_links aggregate_root fields targets in
    elim (if target.name == aggregate_root then none else link_to fields target) [
      | none ↦ rest
      | some link ↦ link ∷ rest
    ]

unfoldable pub cycle_link_fields : String → Model → List CycleLink
unfolding entity cycle_links root_first
cycle_link_fields aggregate_root ont = elim (entity ont aggregate_root) [
  | none ↦ []
  | some e ↦
      root_first (λ l. l.target) ont.root_aggregate
        (cycle_links aggregate_root e.fields ont.entities)
]
