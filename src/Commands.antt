-- ===== src/Commands.antt =====
-- src/commands/base.ts: the generic command, which creates or updates a row of the aggregate's projection
-- table and emits the event. The tables and the events emitted so far are a `World`, passed on.
pub mod Bound
pub mod Values
pub mod Updates
pub mod Events
pub mod Walk
pub mod Roots
pub mod Creation
pub mod Detect
mod Tests
use qlerify_live.Prelude.{
  ℕ, zero, suc, String, Bool, true, false, ◌&&◌, ◌||◌, not, Option, none, some, List, [], ◌∷◌, ◌++◌,
  ◌==◌, string_eq, if◌then◌else◌, has, map, find, any, filter, Map, get, put, template, join,
  length, nat_beq,
}
use qlerify_live.Errors.{Result, ok, throw, Error, domain_error, not_found_error, other_error}
use qlerify_live.Ontology.{OntologyEvent}
use qlerify_live.Ontology.Schema.{
  Model, EntitySchema, CommandSchema, SchemaField, Value, undefined, null, text, entity, command,
}
use qlerify_live.Projection.{
  Row, is_set, find_by_id, insert, Inserted, unique_constraint, inserted, update, version_of,
  id_text,
}
unfoldable pub use Bound.*
unfoldable pub use Values.*

-- Where a command runs: the organisation, the time, and the id that `newId` makes for a prefix.
pub record Scene : Type 0 where
  pub conv : Conversions
  pub org_id : String
  pub now : String
  pub new_id : String → String

abbrev pub Outcome {ℓ} : Type ℓ → Type ℓ
Outcome A = World × Result A

-- `typeof v === "string" && v ? v : null`.
abbrev pub given_text : Option Value → Option String
given_text (some (text s)) = if s == "" then none else some s
given_text _ = none

abbrev rows_or_empty : Option (List Row) → List Row
rows_or_empty none = []
rows_or_empty (some rows) = rows

unfoldable pub table_rows : World → EntitySchema → List Row
unfolding get
table_rows world e = rows_or_empty (get world.tables e.name)

abbrev pub with_rows : World → EntitySchema → List Row → World
with_rows world e rows = record world { tables = put world.tables e.name rows }

pub data Mode : Type 0 where
  create update_row : Mode

abbrev found : Option Row → Bool
found none = false
found (some row) = true

unfoldable pub classify : Scene → World → String → Map Value → Binding → Result Mode
unfolding table_rows template
classify scene world command_name args b = elim (given_text (get args "id")) [
  | none ↦
      (if is_create_event b.event b.ont
        then ok create
        else throw (
            domain_error (
              template (
                "cannot locate aggregate to update for \"" ∷ command_name ∷ "\": no id supplied"
                ∷ []))))
  | some id ↦
      (if found (find_by_id scene.org_id (table_rows world b.aggregate) id)
        then ok update_row
        else if is_create_event b.event b.ont
        then ok create
        else throw (not_found_error (template (b.aggregate.name ∷ " " ∷ id ∷ " not found" ∷ []))))
]

-- A column of a row that was read: NULL where the row has no value.
abbrev column_value : Option Value → Value
column_value none = null
column_value (some v) = v

-- The payload of the event: the arguments, the row's id, and its status where the entity has one. The
-- status of a row that was read is never undefined, since its table has the column.
unfoldable pub event_payload : EntitySchema → Row → Map Value → Row
unfolding get put any
event_payload e row args =
    let with_id = put args "id" (column_value (get row "id")) in
    if any (λ f. f.name == "status") e.fields
    then put with_id "status" (column_value (get row "status"))
    else with_id

abbrev pub event_of : Binding → Map Value → String → Row → Emitted
unfolding event_payload
event_of b args role row = record {
  ref = b.event.ref;
  aggregate_id = id_text (get row "id");
  role = role;
  payload = event_payload b.aggregate row args;
}

-- `emitFor`, and the row that is returned: a null row has no id to read.
unfoldable pub emit_for : World → Binding → Map Value → String → Option Row → Outcome Row
emit_for world b args role none =
    (world, throw (other_error "Cannot read properties of null (reading 'id')"))
emit_for world b args role (some row) =
    (record world { log = world.log ++ event_of b args role row ∷ [] }, ok row)

abbrev pub id_or : Option String → String → String
id_or none other = other
id_or (some id) other = id

unfoldable pub settle_insert :
    World → Binding → Map Value → String → String → Inserted → Outcome Row
unfolding template
settle_insert world b args role id unique_constraint =
    (world, throw (domain_error (template (b.aggregate.name ∷ " " ∷ id ∷ " already exists" ∷ []))))
settle_insert world b args role id (inserted rows row) =
    emit_for (with_rows world b.aggregate rows) b args role row

-- The row is inserted if no field is left unfilled.
unfoldable pub create_filled :
    Scene → World → Binding → Map Value → String → String → Map Value → List String → Outcome Row
unfolding template table_rows join
create_filled scene world b args role id columns (missing ∷ more) = (
  world,
  throw (
      domain_error (
        template (
          "cannot create "
          ∷ b.aggregate.name
          ∷ ": required field(s) ["
          ∷ join ", " (missing ∷ more)
          ∷ "] have no value (no arg, no usable exampleData)"
          ∷ []))),
)
create_filled scene world b args role id columns [] =
    settle_insert world b args role id
      (insert scene.org_id scene.now (table_rows world b.aggregate) columns)

-- `new_id` is called with the entity's name, of which it takes the prefix.
unfoldable pub do_create : Scene → World → Binding → Map Value → String → Outcome Row
unfolding get
do_create scene world b args role =
    let id = id_or (given_text (get args "id")) (scene.new_id b.aggregate.name) in
    let filled = fill_row scene.conv b.aggregate.required id args b.aggregate.fields [] [] in
    create_filled scene world b args role id filled.0 filled.1

abbrev pub command_fields : Option CommandSchema → List SchemaField
command_fields none = []
command_fields (some c) = c.fields

unfoldable pub settle_update :
    World → Binding → Map Value → String → String → Option (List Row × Option Row) → Outcome Row
unfolding template
settle_update world b args role id none = (
  world,
  throw
      (domain_error (template ("stale write on " ∷ b.aggregate.name ∷ " " ∷ id ∷ ", retry" ∷ []))),
)
settle_update world b args role id (some (rows, after)) =
    emit_for (with_rows world b.aggregate rows) b args role after

-- A command that changes nothing writes nothing, and still emits.
unfoldable pub write_changes :
    Scene → World → Binding → Map Value → String → String → Row → Map Value → Outcome Row
write_changes scene world b args role id row changes =
    if nat_beq (length changes) 0
    then emit_for world b args role (some row)
    else settle_update world b args role id
        (update scene.org_id scene.now (table_rows world b.aggregate) id changes (version_of row))

-- The changes of a command's fields.
unfoldable pub row_changes : Scene → Binding → Map Value → Map Value
unfolding command
row_changes scene b args =
    changes_of scene.conv b.aggregate.fields args
      (command_fields (command b.ont b.event.command_name)) []

unfoldable pub update_found :
    Scene → World → Binding → Map Value → String → String → Option Row → Outcome Row
unfolding template
update_found scene world b args role id none =
    (world, throw (not_found_error (template (b.aggregate.name ∷ " " ∷ id ∷ " not found" ∷ []))))
update_found scene world b args role id (some row) =
    write_changes scene world b args role id row (row_changes scene b args)

unfoldable pub update_given :
    Scene → World → Binding → Map Value → String → Option String → Outcome Row
unfolding template table_rows
update_given scene world b args role none =
    (world, throw (domain_error (template (b.event.command_name ∷ " requires an id" ∷ []))))
update_given scene world b args role (some id) =
    update_found scene world b args role id
      (find_by_id scene.org_id (table_rows world b.aggregate) id)

unfoldable pub do_update : Scene → World → Binding → Map Value → String → Outcome Row
unfolding get
do_update scene world b args role =
    update_given scene world b args role (given_text (get args "id"))

abbrev pub run_mode : Scene → World → Binding → Map Value → String → Result Mode → Outcome Row
run_mode scene world b args role (throw e) = (world, throw e)
run_mode scene world b args role (ok create) = do_create scene world b args role
run_mode scene world b args role (ok update_row) = do_update scene world b args role

unfoldable pub run_ready :
    Scene → World → String → Map Value → String → Binding → Result World → Outcome Row
run_ready scene world command_name args role b (throw e) = (world, throw e)
run_ready scene world command_name args role b (ok ready) =
    run_mode scene ready b args role (classify scene ready command_name args b)

unfoldable pub run_bound :
    Scene → World → String → Map Value → String → Result Binding → Outcome Row
run_bound scene world command_name args role (throw e) = (world, throw e)
run_bound scene world command_name args role (ok b) =
    run_ready scene world command_name args role b (ensure_table world b.aggregate)

unfoldable pub generic_apply :
    Scene → World → Result Model → String → Map Value → String → Option String → Outcome Row
generic_apply scene world ont command_name args role event_ref =
    run_bound scene world command_name args role (resolve_binding ont command_name event_ref)
