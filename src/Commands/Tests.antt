-- ===== src/Commands/Tests.antt =====
-- Runs of Commands: a model in which an order is placed, then approved.
use qlerify_live.Prelude.{
  String, List, [], ◌∷◌, none, some, ◌≡◌, refl, true, false, get, has, Memᴰ, ◌↔◌, string_eq,
}
use qlerify_live.Errors.{ok}
use qlerify_live.Ontology.{OntologyEvent, event_by_key}
use qlerify_live.Ontology.Numbers.{pos}
use qlerify_live.Ontology.Schema.{Model, EntitySchema, SchemaField, Value, text, number}
use qlerify_live.Projection.{find_by_id, insert, id_text}
use qlerify_live.Commands.{
  Scene, World, Binding, Conversions, generic_apply, resolve_binding, do_update, is_create_event,
  fill_row, platform, first_on_root, rooted_on, table_rows, run_bound, run_ready, classify,
  ensure_table, do_create, create_filled, settle_insert, emit_for,
}
use qlerify_live.Commands.Updates.{column, do_update-column}
use qlerify_live.Commands.Events.{Emits, generic_apply-Emits}
use qlerify_live.Commands.Walk.{Ancestor}
use qlerify_live.Commands.Roots.{is_create_event_iff}
use qlerify_live.Commands.Creation.{IsFilled, fill_row-IsFilled}
use qlerify_live.Commands.Detect.{generic_detect}

abbrev event_named : String → String → List String → OntologyEvent
event_named key command_name predecessors = record {
  key = key;
  ref = key;
  name = key;
  role = "Clerk";
  aggregate_root = "Order";
  bounded_context = "Sales";
  command_name = command_name;
  read_models = [];
  acceptance_criteria = [];
  predecessors = predecessors;
  order = none;
  phase = none;
  derived = false;
  coupled_to = none;
}

abbrev field : String → List Value → SchemaField
field name examples = record {
  name = name;
  data_type = none;
  example_data = examples;
  related_entity = none;
}

abbrev order_fields : List SchemaField
order_fields =
    field "id" [] ∷ field "status" (text "DRAFT" ∷ []) ∷ field "note" (text "none" ∷ []) ∷ []

abbrev order : EntitySchema
order = record {
  name = "Order";
  required = "status" ∷ "note" ∷ [];
  fields = order_fields;
  key = none;
}

abbrev shop : Model
shop = record {
  root_aggregate = "Order";
  events = event_named "Placed" "Place" [] ∷ event_named "Approved" "Approve" ("Placed" ∷ []) ∷ [];
  commands =
      record { name = "Place"; required = []; fields = field "note" [] ∷ [] }
      ∷ record { name = "Approve"; required = []; fields = field "id" [] ∷ field "status" [] ∷ [] }
      ∷ [];
  entities = order ∷ [];
}

abbrev conv : Conversions
conv = record { number_of = λ _. none; string_of = λ v. id_text (some v) }

abbrev scene : Scene
scene = record { conv = conv; org_id = "org"; now = "2026-01-01"; new_id = λ name. "order-1" }

abbrev empty : World
empty = record { tables = []; log = [] }

abbrev placed : Binding
placed = record { ont = shop; event = event_named "Placed" "Place" []; aggregate = order }

resolve_binding-place : resolve_binding (ok shop) "Place" none ≡ ok placed
unfolding resolve_binding
resolve_binding-place = refl

-- A placed order is a new row, with its status and its note from the example data.
generic_apply-place :
    (generic_apply scene empty (ok shop) "Place" [] "Clerk" none).1
    ≡ ok (
        ("version", number (pos 0))
        ∷ ("createdAt", text "2026-01-01")
        ∷ ("updatedAt", text "2026-01-01")
        ∷ ("id", text "order-1")
        ∷ ("status", text "DRAFT")
        ∷ ("note", text "none")
        ∷ ("organization_id", text "org")
        ∷ [])
unfolding generic_apply run_bound run_ready resolve_binding ensure_table classify is_create_event
    first_on_root event_by_key do_create create_filled fill_row settle_insert insert emit_for get
    has table_rows
generic_apply-place = refl

is_create_event-approved :
    is_create_event (event_named "Approved" "Approve" ("Placed" ∷ [])) shop ≡ false
unfolding is_create_event first_on_root event_by_key get has
is_create_event-approved = refl

generic_detect-nothing :
    generic_detect (λ _. "0") scene empty (ok shop) "Place" "order-1"
    ≡ record { happened = false; evidence = "Order order-1 not found" }
unfolding generic_detect get find_by_id
generic_detect-nothing = refl

generic_apply-Emits_example :
    Emits [] placed "Clerk" (generic_apply scene empty (ok shop) "Place" [] "Clerk" none)
generic_apply-Emits_example =
    generic_apply-Emits scene empty (ok shop) "Place" [] "Clerk" none placed resolve_binding-place

abbrev one_order : World
one_order = record {
  tables =
      (
        "Order",
        (("id", text "o1") ∷ ("status", text "DRAFT") ∷ ("organization_id", text "org") ∷ []) ∷ [],
      )
      ∷ [];
  log = [];
}

do_update-column_example :
    column "status" (
      table_rows
        (do_update scene one_order placed
          (("id", text "o1") ∷ ("note", text "hello") ∷ [])
          "Clerk").0
        order)
    ≡ column "status" (table_rows one_order order)
do_update-column_example =
    do_update-column scene one_order placed (("id", text "o1") ∷ ("note", text "hello") ∷ [])
      "Clerk" "status" refl

is_create_event_iff_example :
    (is_create_event (event_named "Approved" "Approve" ("Placed" ∷ [])) shop ≡ true) ↔ (
      (k : String)
      → Ancestor shop ("Placed" ∷ []) k
      → rooted_on "Order" (event_by_key shop.events k) ≡ false)
is_create_event_iff_example =
    is_create_event_iff (event_named "Approved" "Approve" ("Placed" ∷ [])) shop

filled_order : (fill_row conv ("status" ∷ "note" ∷ []) "order-1" [] order_fields [] []).1 ≡ []
unfolding fill_row get has
filled_order = refl

status_required : has {A = String} ("status" ∷ "note" ∷ []) "note" ≡ true
unfolding has
status_required = refl

not_platform : has platform "note" ≡ false
unfolding has
not_platform = refl

fill_row-IsFilled_example :
    IsFilled "note" (fill_row conv ("status" ∷ "note" ∷ []) "order-1" [] order_fields [] []).0
fill_row-IsFilled_example =
    fill_row-IsFilled conv ("status" ∷ "note" ∷ []) "order-1" [] order_fields [] [] filled_order
      (field "note" (text "none" ∷ [])) (Memᴰ.tail (Memᴰ.tail (Memᴰ.head refl))) status_required
      not_platform
