-- ===== src/Commands/Bound.antt =====
-- src/commands/base.ts: the event and the entity that a command is bound to, and whether it creates.
use Prim.Native.Char.{code}
use qlerify_live.Prelude.{
  ℕ, zero, suc, String, Bool, true, false, ◌||◌, Option, none, some, List, [], ◌∷◌, ◌==◌, ◌+◌,
  string_eq, if◌then◌else◌, has, find, any, Map, get, put, template, length, nat_beq,
}
use qlerify_live.Errors.{Result, ok, throw, domain_error, other_error}
use qlerify_live.Ontology.{OntologyEvent, event_by_key}
use qlerify_live.Ontology.Schema.{Model, EntitySchema, entity, command}
use qlerify_live.Projection.{Row}
use qlerify_live.Tenancy.{given}

-- What stands after the last slash.
abbrev tail_from : String → String → String
tail_from best String.[] = best
tail_from best (String.◌∷◌ c s) = if nat_beq (code c) 47 then tail_from s s else tail_from best s

unfoldable pub ref_tail : String → String
ref_tail ref = tail_from ref ref

unfoldable pub event_by_ref : Model → String → Option OntologyEvent
unfolding event_by_key ref_tail
event_by_ref ont ref = event_by_key ont.events (ref_tail ref)

abbrev event_of_ref : Model → Option String → Option OntologyEvent
unfolding event_by_ref
event_of_ref ont none = none
event_of_ref ont (some ref) = event_by_ref ont ref

pub record Emitted : Type 0 where
  pub ref : String
  pub aggregate_id : String
  pub role : String
  pub payload : Row

-- The projection tables by name, and the events that were emitted.
pub record World : Type 0 where
  pub tables : Map (List Row)
  pub log : List Emitted

pub record Binding : Type 0 where
  pub ont : Model
  pub event : OntologyEvent
  pub aggregate : EntitySchema

-- The event that the caller named, where it is one of the command.
abbrev pub named_event : Option OntologyEvent → String → Option OntologyEvent
named_event none command_name = none
named_event (some e) command_name = if e.command_name == command_name then some e else none

unfoldable pub bound_event : Model → String → Option String → Option OntologyEvent
unfolding event_by_ref find
bound_event ont command_name event_ref =
    elim (named_event (event_of_ref ont (given event_ref)) command_name) [
      | some e ↦ some e
      | none ↦ find (λ e. e.command_name == command_name) ont.events
    ]

abbrev starts_with_underscore : String → Bool
starts_with_underscore String.[] = false
starts_with_underscore (String.◌∷◌ c s) = nat_beq (code c) 95

abbrev rows_or_none : Option (List Row) → Bool
rows_or_none none = false
rows_or_none (some rows) = true

unfoldable pub make_table : World → EntitySchema → (there reserved : Bool) → Result World
unfolding put template
make_table world e true reserved = ok world
make_table world e false true = throw (
    other_error (
      template (
        "reserved entity name \"" ∷ e.name ∷ "\": model entity names may not start with \"_\""
        ∷ [])))
make_table world e false false = ok (record world { tables = put world.tables e.name [] })

-- `store.ensureTable`: a table that is not there is made, unless its name is reserved.
unfoldable pub ensure_table : World → EntitySchema → Result World
unfolding get make_table
ensure_table world e =
    make_table world e (rows_or_none (get world.tables e.name)) (starts_with_underscore e.name)

unfoldable pub resolve_binding : Result Model → String → Option String → Result Binding
unfolding bound_event entity template
resolve_binding (throw e) command_name event_ref = throw e
resolve_binding (ok ont) command_name event_ref = elim (bound_event ont command_name event_ref) [
  | none ↦
      throw (domain_error (template ("no model event binds command \"" ∷ command_name ∷ "\"" ∷ [])))
  | some event ↦ elim (entity ont event.aggregate_root) [
    | none ↦ throw (
        domain_error (
          template (
            "command \"" ∷ command_name ∷ "\" aggregate \"" ∷ event.aggregate_root
            ∷ "\" is not a known entity" ∷ [])))
    | some aggregate ↦ ok (record { ont = ont; event = event; aggregate = aggregate })
  ]
]

abbrev pub event_predecessors : Option OntologyEvent → List String
event_predecessors none = []
event_predecessors (some e) = e.predecessors

abbrev pub rooted_on : String → Option OntologyEvent → Bool
rooted_on root none = false
rooted_on root (some e) = e.aggregate_root == root

-- Pushed one after the other, the last key is on top.
abbrev pub push_all : List String → List String → List String
push_all [] stack = stack
push_all (p ∷ ps) stack = push_all ps (p ∷ stack)

-- The walk of `isCreateEvent` over the predecessors: the key on top of the stack is popped.
unfoldable pub first_on_root : Model → String → ℕ → List String → List String → Bool
first_on_root ont root zero seen stack = true
first_on_root ont root (suc rounds) seen [] = true
first_on_root ont root (suc rounds) seen (k ∷ stack) =
    let known = has seen k in
    let pe = event_by_key ont.events k in
    let rest =
      first_on_root ont root rounds (if known then seen else k ∷ seen)
        (if known then stack else push_all (event_predecessors pe) stack) in
    if known then rest else if rooted_on root pe then false else rest

-- No more keys are ever pushed than the events name predecessors.
abbrev pub count_predecessors : List OntologyEvent → ℕ
count_predecessors [] = 0
count_predecessors (e ∷ events) = length e.predecessors + count_predecessors events

unfoldable pub is_create_event : OntologyEvent → Model → Bool
is_create_event event ont =
    first_on_root ont event.aggregate_root
      (suc (length event.predecessors + count_predecessors ont.events)) []
      (push_all event.predecessors [])

unfoldable pub command_has_id : String → Model → Bool
unfolding command has any
command_has_id command_name ont = elim (command ont command_name) [
  | none ↦ false
  | some c ↦ has c.required "id" || any (λ f. f.name == "id") c.fields
]
