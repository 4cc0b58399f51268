-- ===== src/Correlation.antt =====
-- src/twin/correlate.ts: which case an aggregate instance belongs to. `decideCaseId` is the decision
-- (Correlation/Decision.antt); `correlateCaseId` makes it over the event log and the projection tables,
-- which are arguments.
pub mod Links
pub mod Decision
pub mod Rules
mod Tests
use Prim.Native.String
use qlerify_live.Prelude.{
  ℕ, zero, suc, String, Bool, true, false, ◌&&◌, ◌||◌, not, Option, none, some, List, [], ◌∷◌, ◌++◌,
  ◌+◌, ◌==◌, string_eq, if◌then◌else◌, leb, nat_beq, map, has, length, filter, find, Map, get, put,
  add, template,
}
use qlerify_live.Ontology.Schema.{Model, EntitySchema, SchemaField, Value, text, entity}
use qlerify_live.Period.{
  Text, codes, text_beq, within, norm_name, ends_with, PeriodGranularity, PeriodKey, period_key_of,
  period_of,
}
use qlerify_live.Period.Calendar.{Date}
unfoldable pub use Links.*
unfoldable pub use Decision.*
use qlerify_live.Tenancy.{given}

-- A row of the event log, and the rows of one tenant in the order of `occurredAt`.
pub record LogRow : Type 0 where
  pub aggregate_id : Option String
  pub case_id : Option String

pub record Filter : Type 0 where
  pub attr : String
  pub value : Text

-- The projection tables: `findMany(table, 1, 0, filters)[0]` is the id of a row, if there is one.
pub record Store : Type 0 where
  pub table_exists : String → Bool
  pub find_row : String → List Filter → Option String

-- `[target, ...values, period].join("\u0000")`.
unfoldable pub cycle_coord_key : String → List String → Text → Text
cycle_coord_key target [] period = codes target ++ 0 ∷ period
cycle_coord_key target (v ∷ values) period = codes target ++ 0 ∷ cycle_coord_key v values period

abbrev pub subject_filters : List FieldPair → List String → List Filter
subject_filters (pair ∷ pairs) (v ∷ values) =
    record { attr = pair.subject; value = codes v } ∷ subject_filters pairs values
subject_filters _ _ = []

-- The row of the cycle that a link and a payload's values name at a date.
unfoldable pub cycle_row : Store → CycleLink → List String → Text → Option String
cycle_row store link values period =
    if store.table_exists link.target
    then store.find_row link.target (
        subject_filters link.subject_fields values
        ++ record { attr = link.period_field; value = period } ∷ [])
    else none

pub record Coord : Type 0 where
  pub key : Text
  pub row_id : String

unfoldable pub coord_of : Store → Payload → Date → CycleLink → Option Coord
coord_of store payload date link = elim (subject_values link.subject_fields payload) [
  | none ↦ none
  | some values ↦
      let period = period_of date link.granularity in
      elim (cycle_row store link values period) [
        | none ↦ none
        | some row ↦ some (record { key = cycle_coord_key link.target values period; row_id = row })
      ]
]

unfoldable pub coords : Store → Payload → Date → List CycleLink → List Coord
coords store payload date [] = []
coords store payload date (link ∷ links) =
    let rest = coords store payload date links in
    elim (coord_of store payload date link) [ none ↦ rest | some c ↦ c ∷ rest ]

-- `cycleRowByCoord.get(key)`: of two coordinates with one key the later was set last.
unfoldable pub row_at : List Coord → Text → Option String
row_at [] key = none
row_at (c ∷ cs) key =
    let rest = row_at cs key in
    elim rest [ some row ↦ some row | none ↦ (if text_beq c.key key then some c.row_id else none) ]

unfoldable pub reference_ids : Payload → List ForeignKey → List String
reference_ids payload [] = []
reference_ids payload (fk ∷ fks) =
    let rest = reference_ids payload fks in
    elim (text_at payload fk.name) [ none ↦ rest | some ref ↦ ref ∷ rest ]

-- `aggregateId: { in: candidates }, caseId: { not: null }`.
unfoldable pub find_rows : List LogRow → List String → List LogRow
unfolding has
find_rows log candidates = filter (λ r. is_candidate r.aggregate_id && is_given r.case_id) log
  where
    is_candidate : Option String → Bool
    is_candidate none = false
    is_candidate (some id) = has candidates id

    is_given : Option String → Bool
    is_given none = false
    is_given (some id) = true

-- The map that the rows fill: the first row of an instance with a case gives its case.
unfoldable pub case_of_rows : List LogRow → CaseOf
case_of_rows [] id = none
case_of_rows (r ∷ rows) id =
    let rest = case_of_rows rows id in
    elim (given r.aggregate_id) [
      | none ↦ rest
      | some instance_id ↦ elim (given r.case_id) [
        | none ↦ rest
        | some found ↦ (if instance_id == id then some found else rest)
      ]
    ]

-- `rowId ? caseByInstance.get(rowId) ?? rowId : null`.
abbrev pub case_of_row : CaseOf → Option String → Option String
case_of_row case_of row = elim (given row) [
  | none ↦ none
  | some id ↦ or_else (case_of id) (some id)
]

abbrev pub coords_at : Store → Payload → Option Date → List CycleLink → List Coord
unfolding coords
coords_at store payload none links = []
coords_at store payload (some date) links = coords store payload date links

unfoldable pub correlate_with :
    List LogRow → Store → Model → String → String → Payload → Option Date → Option String
correlate_with log store ont aggregate_root aggregate_id payload business_at =
    let found = coords_at store payload business_at (cycle_link_fields aggregate_root ont) in
    let candidates =
      aggregate_id ∷ reference_ids payload (foreign_key_fields aggregate_root ont)
      ++ map (λ c. c.row_id) found in
    let case_by_instance = case_of_rows (find_rows log candidates) in
    decide_case_id ont aggregate_root aggregate_id payload case_by_instance (record {
      business_at = business_at;
      cycle_case = λ link values period.
          case_of_row case_by_instance (row_at found (cycle_coord_key link.target values period));
    })

-- Without a model each aggregate is a case of its own.
unfoldable pub correlate_case_id :
    List LogRow → Store → Option Model → String → String → Payload → Option Date → Option String
correlate_case_id log store ont aggregate_root aggregate_id payload business_at =
    elim (text_at payload "caseId") [
      | some explicit ↦ some explicit
      | none ↦
          (if aggregate_id == "" then none else elim ont [
            | none ↦ some aggregate_id
            | some model ↦
                (if aggregate_root == model.root_aggregate
                  then some aggregate_id
                  else correlate_with log store model aggregate_root aggregate_id payload
                      business_at)
          ])
    ]
