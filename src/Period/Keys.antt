-- ===== src/Period/Keys.antt =====
-- src/twin/period.ts: `periodKeyOf`, the period key of an entity.
use qlerify_live.Prelude.{
  String, Bool, true, false, not, Option, none, some, List, [], ◌∷◌, ◌++◌, ◌==◌, string_eq,
  if◌then◌else◌, ltb, nat_beq, map, has, length,
}
use qlerify_live.Ontology.Schema.{EntitySchema}
use qlerify_live.Period.Names.{PeriodGranularity, granularity_of}

pub record PeriodKey : Type 0 where
  pub subject_fields : List String
  pub period_field : String
  pub granularity : PeriodGranularity

-- What the loop of `periodKeyOf` has found: the period field and the subject fields.
pub record KeyParts : Type 0 where
  pub period : Option (String × PeriodGranularity)
  pub subjects : List String

-- The first key field that names a granularity is the period field, each other one a subject field.
unfoldable pub take_field : String → Option PeriodGranularity → KeyParts → KeyParts
take_field name none parts = record parts { subjects = parts.subjects ++ name ∷ [] }
take_field name (some g) parts = elim parts.period [
  | none ↦ record parts { period = some (name, g) }
  | some found ↦ record parts { subjects = parts.subjects ++ name ∷ [] }
]

unfoldable pub split_key : List String → List String → KeyParts → Option KeyParts
unfolding granularity_of take_field
split_key declared [] parts = some parts
split_key declared (name ∷ names) parts =
    let rest =
      split_key declared names
        (if name == "id" then parts else take_field name (granularity_of name) parts) in
    if name == "id" then rest else if not (has declared name) then none else rest

unfoldable pub period_key_from : KeyParts → Option PeriodKey
period_key_from parts = elim parts.period [
  | none ↦ none
  | some (field, g) ↦
      (if nat_beq (length parts.subjects) 0
        then none
        else some
            (record { subject_fields = parts.subjects; period_field = field; granularity = g }))
]

abbrev key_fields : Option (List String) → List String
key_fields none = []
key_fields (some names) = names

abbrev period_key_or_none : Option KeyParts → Option PeriodKey
unfolding period_key_from
period_key_or_none none = none
period_key_or_none (some parts) = period_key_from parts

unfoldable pub period_key_of : EntitySchema → Option PeriodKey
unfolding split_key period_key_from
period_key_of e =
    let names = key_fields e.key in
    if ltb (length names) 2
    then none
    else period_key_or_none
        (split_key (map (λ f. f.name) e.fields) names (record { period = none; subjects = [] }))

unfoldable pub is_period_scoped : EntitySchema → Bool
unfolding period_key_of
is_period_scoped e = elim (period_key_of e) [ none ↦ false | some key ↦ true ]
