-- ===== src/Connectors/Rules.antt =====
-- src/packs/connector/rules.ts: which event a trigger rule may be bound to, and how a rule is saved and
-- deleted. The sidecars, the docs and the rules' files are a `Workspace`; the digest, the deny-scan of the
-- code (its regular expressions) and the clock are arguments.
use Prim.Native.Char.{code}
use qlerify_live.Prelude.{
  String, Bool, true, false, ◌&&◌, not, Option, none, some, List, [], ◌∷◌, ◌++◌, ◌==◌, string_eq,
  if◌then◌else◌, find, filter, map, Map, get, put, template, join,
}
use qlerify_live.Prelude.Json.{json_text}
use qlerify_live.Errors.{Result, ok, throw, domain_error, not_found_error}
use qlerify_live.Ontology.{OntologyEvent, event_by_key}
use qlerify_live.Ontology.Schema.{Model}
use qlerify_live.Period.{codes, text_beq}
use qlerify_live.Correlation.{to_lower, is_space}
use qlerify_live.Connectors.{TriggerRule, AdapterConfig}
use qlerify_live.Connectors.Files.{rule_file, code_hash_of, write_rule_file, delete_rule_files}
use qlerify_live.Connectors.Journal.{ConnectorDoc, append_note}
use qlerify_live.Tenancy.{given}

-- What a rule's code and its files are read through.
pub record RuleFiles : Type 0 where
  pub sha256 : String → String
  -- `ruleScan(code).violations`.
  pub violations : String → List String
  pub read_rule_file : String → Option String
  -- The module exports a function `detect`.
  pub exports_detect : String → Bool

-- The digest of `JSON.stringify(event.acceptanceCriteria)`.
unfoldable pub gwt_hash_of : RuleFiles → OntologyEvent → String
unfolding join json_text template
gwt_hash_of files event =
    files.sha256 (template ("[" ∷ join "," (map json_text event.acceptance_criteria) ∷ "]" ∷ []))

trim_start : String → String
trim_start String.[] = ""
trim_start (String.◌∷◌ c s) = if is_space (code c) then trim_start s else String.◌∷◌ c s

trim_end : String → String
trim_end String.[] = ""
trim_end (String.◌∷◌ c s) =
    let rest = trim_end s in if rest == "" && is_space (code c) then "" else String.◌∷◌ c rest

unfoldable pub trim : String → String
unfolding trim_start trim_end
trim s = trim_end (trim_start s)

abbrev same_lower : String → String → Bool
same_lower s t = text_beq (to_lower (codes s)) (to_lower (codes t))

abbrev pub first_event : Option OntologyEvent → Option OntologyEvent → Option OntologyEvent
first_event none other = other
first_event (some e) other = some e

unfoldable pub resolve_rule_event : Model → String → Option OntologyEvent
unfolding trim event_by_key find
resolve_rule_event ont key_or_name =
    let wanted = trim key_or_name in
    first_event (event_by_key ont.events wanted) (
      first_event (find (λ e. same_lower e.name wanted) ont.events)
        (find (λ e. same_lower e.key wanted) ont.events))

abbrev kind_is_value_object : Option String → Bool
kind_is_value_object none = false
kind_is_value_object (some kind) = kind == "valueObject"

abbrev is_coupled : Option String → Bool
is_coupled coupled_to = elim (given coupled_to) [ none ↦ false | some key ↦ true ]

unfoldable pub assert_rule_bindable : AdapterConfig → OntologyEvent → Result (Unit {0})
unfolding template
assert_rule_bindable cfg event =
    if kind_is_value_object cfg.target_kind
    then throw (
        domain_error (
          template (
            "\"" ∷ cfg.target_entity
            ∷ "\" is a value object — trigger rules bind to events on an entity table" ∷ [])))
    else if not (event.aggregate_root == cfg.target_entity)
    then throw (
        domain_error (
          template (
            "event \"" ∷ event.name ∷ "\" is rooted on " ∷ event.aggregate_root
            ∷ ", not this connector's table " ∷ cfg.target_entity ∷ [])))
    else if is_coupled event.coupled_to
    then throw (
        domain_error (
          template (
            "event \"" ∷ event.name
            ∷ "\" completes with its coupled predecessor — it cannot carry its own rule" ∷ [])))
    else ok tt

pub record Workspace : Type 0 where
  pub sidecars : Map AdapterConfig
  pub docs : Map ConnectorDoc
  pub files : Map String

unfoldable pub rules_but : String → List TriggerRule → List TriggerRule
unfolding filter
rules_but event_key rules = filter (λ r. not (r.event_key == event_key)) rules

unfoldable pub rule_for : String → List TriggerRule → Option TriggerRule
unfolding find
rule_for event_key rules = find (λ r. r.event_key == event_key) rules

-- The condition that is given, else that of the rule before, else none.
abbrev pub condition_of : Option String → Option TriggerRule → String
condition_of (some condition) previous = condition
condition_of none (some r) = r.condition
condition_of none none = ""

unfoldable pub new_rule :
    RuleFiles
    → String
    → String
    → AdapterConfig
    → OntologyEvent
    → String
    → String
    → Option String
    → TriggerRule
unfolding gwt_hash_of rule_file code_hash_of
new_rule files now id cfg event source author condition = record {
  event_key = event.key;
  event_ref = event.ref;
  condition = condition_of condition (rule_for event.key cfg.trigger_rules);
  gwt_hash = gwt_hash_of files event;
  file = rule_file files.sha256 id event.key source;
  code_hash = code_hash_of files.sha256 source;
  built_at = now;
  author = author;
  disabled = false;
  disabled_reason = none;
}

abbrev pub with_rules : AdapterConfig → List TriggerRule → AdapterConfig
with_rules cfg rules = record cfg { trigger_rules = rules }

-- The sidecar with its rules written and a note in the doc, over the files that are left.
unfoldable pub write_rules :
    Workspace → Map String → String → String → AdapterConfig → List TriggerRule → String → Workspace
unfolding put append_note
write_rules ws left now id cfg rules note = record {
  sidecars = put ws.sidecars cfg.id (with_rules cfg rules);
  docs = (append_note ws.docs now id "rule" note none).0;
  files = left;
}

-- What the checks of the event and of the code end in.
unfoldable pub settle_save :
    RuleFiles
    → Workspace
    → String
    → String
    → AdapterConfig
    → String
    → String
    → Option String
    → String
    → OntologyEvent
    → Result (Unit {0})
    → List String
    → Workspace × Result TriggerRule
unfolding template join write_rule_file
settle_save files ws now id cfg source author condition note event (throw e) violations =
    (ws, throw e)
settle_save files ws now id cfg source author condition note event (ok _) (v ∷ vs) = (
  ws,
  throw (domain_error (template ("rule rejected by the deny-scan: " ∷ join ", " (v ∷ vs) ∷ []))),
)
settle_save files ws now id cfg source author condition note event (ok _) [] =
    let rule = new_rule files now id cfg event source author condition in
    let written = write_rule_file files.sha256 ws.files id event.key source in
    (
      write_rules ws written now id cfg (rules_but event.key cfg.trigger_rules ++ rule ∷ []) note,
      ok rule,
    )

unfoldable pub save_for_event :
    RuleFiles
    → Workspace
    → String
    → String
    → AdapterConfig
    → String
    → String
    → Option String
    → String
    → OntologyEvent
    → Workspace × Result TriggerRule
save_for_event files ws now id cfg source author condition note event =
    settle_save files ws now id cfg source author condition note event
      (assert_rule_bindable cfg event) (files.violations source)

-- `!code.trim()`.
abbrev pub is_empty : String → Bool
unfolding trim
is_empty source = trim source == ""

-- The note is written by an argument: its text has the code's length in it.
unfoldable pub save_trigger_rule_code :
    RuleFiles
    → Workspace
    → Result Model
    → String
    → String
    → String
    → String
    → String
    → Option String
    → (TriggerRule → String)
    → Workspace × Result TriggerRule
unfolding template
save_trigger_rule_code files ws ont now id key_or_name source author condition note =
    elim (get ws.sidecars id) [
      | none ↦ (ws, throw (not_found_error (template ("no connector \"" ∷ id ∷ "\"" ∷ []))))
      | some cfg ↦
          (if is_empty source
            then (ws, throw (domain_error "rule code must be a non-empty string"))
            else elim ont [
              | throw e ↦ (ws, throw e)
              | ok model ↦ elim (resolve_rule_event model key_or_name) [
                | none ↦ (
                  ws,
                  throw (
                      domain_error
                        (template ("no event \"" ∷ key_or_name ∷ "\" in the loaded model" ∷ []))),
                )
                | some event ↦
                    save_for_event files ws now id cfg source author condition
                      (note (new_rule files now id cfg event source author condition)) event
              ]
            ])
    ]

abbrev pub deletion_note : String → String
unfolding template
deletion_note event_key = template (
    "Deleted the trigger rule for \"" ∷ event_key ∷ "\" — the static heuristic answers again." ∷ [])

unfoldable pub delete_rule :
    Workspace
    → String
    → String
    → String
    → AdapterConfig
    → Option TriggerRule
    → Workspace × Result TriggerRule
unfolding template delete_rule_files
delete_rule ws now id event_key cfg none = (
  ws,
  throw (
      not_found_error
        (template ("connector \"" ∷ id ∷ "\" has no rule for event \"" ∷ event_key ∷ "\"" ∷ []))),
)
delete_rule ws now id event_key cfg (some rule) = (
  write_rules ws (delete_rule_files ws.files id event_key) now id cfg
      (rules_but event_key cfg.trigger_rules) (deletion_note event_key),
  ok rule,
)

unfoldable pub delete_from :
    Workspace → String → String → String → Option AdapterConfig → Workspace × Result TriggerRule
unfolding template
delete_from ws now id event_key none =
    (ws, throw (not_found_error (template ("no connector \"" ∷ id ∷ "\"" ∷ []))))
delete_from ws now id event_key (some cfg) =
    delete_rule ws now id event_key cfg (rule_for event_key cfg.trigger_rules)

unfoldable pub delete_trigger_rule :
    Workspace → String → String → String → Workspace × Result TriggerRule
delete_trigger_rule ws now id event_key = delete_from ws now id event_key (get ws.sidecars id)
