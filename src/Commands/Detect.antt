-- ===== src/Commands/Detect.antt =====
-- src/commands/base.ts: `genericDetect`, whether the event of a command has happened for a row.
use qlerify_live.Prelude.{
  ℕ, suc, String, Bool, true, false, ◌&&◌, ◌||◌, not, Option, none, some, List, [], ◌∷◌, ◌==◌,
  string_eq, if◌then◌else◌, has, map, all, get, template, length, nat_beq,
}
use qlerify_live.Errors.{Result, ok, throw, message}
use qlerify_live.Ontology.Schema.{Model, SchemaField, Value, undefined, null, command}
use qlerify_live.Projection.{Row, is_set, find_by_id}
use qlerify_live.Commands.{
  Scene, World, Emitted, Binding, Conversions, table_rows, resolve_binding, ensure_table,
  is_create_event, command_has_id, command_fields,
}

pub record DetectResult : Type 0 where
  pub happened : Bool
  pub evidence : String

-- The fields of the command, but the id and the status, that are columns.
unfoldable pub distinguishing : List SchemaField → List SchemaField → List String
distinguishing columns [] = []
distinguishing columns (f ∷ fields) =
    let rest = distinguishing columns fields in
    if not (f.name == "id") && not (f.name == "status") && has (map (λ c. c.name) columns) f.name
    then f.name ∷ rest
    else rest

-- `row[n] ?? "∅"`.
abbrev shown : Conversions → Option Value → String
shown conv none = "∅"
shown conv (some undefined) = "∅"
shown conv (some null) = "∅"
shown conv (some v) = conv.string_of v

evidence_of : Conversions → Row → List String → String
unfolding get template
evidence_of conv row [] = ""
evidence_of conv row (n ∷ []) = template (n ∷ "=" ∷ shown conv (get row n) ∷ [])
evidence_of conv row (n ∷ m ∷ names) =
    template (n ∷ "=" ∷ shown conv (get row n) ∷ ", " ∷ evidence_of conv row (m ∷ names) ∷ [])

-- `eventLog.count` for the event and the instance.
unfoldable pub count_emitted : List Emitted → String → String → ℕ
count_emitted [] ref id = 0
count_emitted (e ∷ log) ref id =
    let rest = count_emitted log ref id in
    if e.ref == ref && e.aggregate_id == id then suc rest else rest

-- The evidence of a row that is there. A count is written by `string_of_count`.
unfoldable pub detect_row :
    (ℕ → String) → Scene → World → Binding → String → String → Row → DetectResult
unfolding distinguishing count_emitted evidence_of is_create_event command_has_id command template
    all get
detect_row string_of_count scene world b command_name id row =
    let names = distinguishing b.aggregate.fields (command_fields (command b.ont command_name)) in
    let count = count_emitted world.log b.event.ref id in
    if is_create_event b.event b.ont || not (command_has_id command_name b.ont)
    then record {
      happened = true;
      evidence = template (b.aggregate.name ∷ " " ∷ id ∷ " exists (created)" ∷ []);
    }
    else if not (nat_beq (length names) 0)
    then record {
      happened = all (λ n. is_set (get row n)) names;
      evidence = evidence_of scene.conv row names;
    }
    else record {
      happened = not (nat_beq count 0);
      evidence =
          template
            (string_of_count count ∷ " " ∷ b.event.name ∷ " event(s) recorded for " ∷ id ∷ []);
    }

unfoldable pub detect_found :
    (ℕ → String) → Scene → World → Binding → String → String → Option Row → DetectResult
unfolding detect_row template
detect_found string_of_count scene world b command_name id none = record {
  happened = false;
  evidence = template (b.aggregate.name ∷ " " ∷ id ∷ " not found" ∷ []);
}
detect_found string_of_count scene world b command_name id (some row) =
    detect_row string_of_count scene world b command_name id row

unfoldable pub detect_ready :
    (ℕ → String) → Scene → Binding → String → String → Result World → DetectResult
unfolding detect_found table_rows
detect_ready string_of_count scene b command_name id (throw e) = record {
  happened = false;
  evidence = message e;
}
detect_ready string_of_count scene b command_name id (ok world) =
    detect_found string_of_count scene world b command_name id
      (find_by_id scene.org_id (table_rows world b.aggregate) id)

unfoldable pub detect_bound :
    (ℕ → String) → Scene → World → String → String → Result Binding → DetectResult
unfolding detect_ready ensure_table
detect_bound string_of_count scene world command_name id (throw e) = record {
  happened = false;
  evidence = message e;
}
detect_bound string_of_count scene world command_name id (ok b) =
    detect_ready string_of_count scene b command_name id (ensure_table world b.aggregate)

unfoldable pub generic_detect :
    (ℕ → String) → Scene → World → Result Model → String → String → DetectResult
unfolding detect_bound resolve_binding
generic_detect string_of_count scene world ont command_name id =
    detect_bound string_of_count scene world command_name id (resolve_binding ont command_name none)
