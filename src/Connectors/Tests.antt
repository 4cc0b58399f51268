-- ===== src/Connectors/Tests.antt =====
-- Runs of Connectors: a tenant with a connector of its own beside another tenant's.
use qlerify_live.Prelude.{
  ◌≤◌, String, [], ◌∷◌, Option, none, some, ◌≡◌, refl, true, false, get, Memᴰ, ◌↔◌, ◌&&◌, find,
  filter, length, All, string_eq, option_eq, List, any, ◌==◌,
}
use qlerify_live.Errors.{ok}
use qlerify_live.Ontology.{OntologyEvent, event_by_key}
use qlerify_live.Ontology.Schema.{Model}
use qlerify_live.Tenancy.{RequestContext, current_org_id, current_workflow_id, is_system_workflow}
use qlerify_live.Pdp.Types.{identity}
use qlerify_live.Connectors.{TriggerRule, AdapterConfig}
use qlerify_live.Connectors.Ownership.{
  Sidecars, IsStamped, list_owned_adapters, list_owned_adapters_iff, owns_adapter_id, adapter_owned,
}
use qlerify_live.Connectors.Journal.{append_note, append_note-bound, max_notes}
use qlerify_live.Connectors.Files.{is_version, rule_prefix, rule_file}
use qlerify_live.Connectors.Rules.{
  RuleFiles, Workspace, assert_rule_bindable, with_rules, rules_but, new_rule, save_for_event,
  delete_trigger_rule, resolve_rule_event, gwt_hash_of,
}
use qlerify_live.Connectors.Loading.{
  rule_verdict, file_hash, event_verdict, coupled_verdict, load_rule_fn, code_verdict, scan_verdict,
}
use qlerify_live.Connectors.Passes.{
  load_authored_rule_set, settle_rule, load_connectors, load_rules,
}
use qlerify_live.Connectors.Settled.{all_rules, rules_or_none}
use qlerify_live.Connectors.Runs.{is_running, is_sound, load_authored_rule_set-rule_status}
use qlerify_live.Connectors.Saving.{delete_trigger_rule-save_for_event}

abbrev event : OntologyEvent
event = record {
  key = "Placed";
  ref = "Placed";
  name = "Order placed";
  role = "Clerk";
  aggregate_root = "Order";
  bounded_context = "Sales";
  command_name = "Place";
  read_models = [];
  acceptance_criteria = [];
  predecessors = [];
  order = none;
  phase = none;
  derived = false;
  coupled_to = none;
}

abbrev shop : Model
shop = record { root_aggregate = "Order"; events = event ∷ []; commands = []; entities = [] }

abbrev owned_by : String → String → String → AdapterConfig
owned_by id org workflow = record {
  id = id;
  target_entity = "Order";
  target_kind = none;
  workflow_id = some workflow;
  organization_id = some org;
  trigger_rules = [];
}

abbrev sidecars : Sidecars
sidecars id =
    get (("mine", owned_by "mine" "o1" "w1") ∷ ("theirs", owned_by "theirs" "o2" "w2") ∷ []) id

file_hash-rule : file_hash "mine.rule.Placed.abc.MJS" ≡ "abc"
unfolding file_hash
file_hash-rule = refl

resolve_rule_event-name : resolve_rule_event shop " order PLACED " ≡ some event
unfolding resolve_rule_event get find
resolve_rule_event-name = refl

abbrev files : RuleFiles
files = record {
  sha256 = λ s. s;
  violations = λ _. [];
  read_rule_file = λ _. none;
  exports_detect = λ _. true;
}

rule_file-name :
    rule_file (λ s. s) "mine" "Order placed" "0123456789abcdef"
    ≡ "mine.rule.Order_placed.0123456789ab.mjs"
unfolding rule_file
rule_file-name = refl

abbrev request : Option RequestContext
request = some (record {
  principal = record { id = "alice"; type = identity };
  identity_id = some "alice";
  subject = none;
  organization_id = some "o1";
  workflow_id = some "w1";
  is_platform_admin = false;
  acting_as_platform_admin = false;
})

is_system_workflow-request : is_system_workflow request ≡ false
unfolding is_system_workflow
is_system_workflow-request = refl

current_org_id-request : current_org_id request ≡ ok "o1"
unfolding current_org_id
current_org_id-request = refl

current_workflow_id-request : current_workflow_id request ≡ ok "w1"
unfolding current_workflow_id
current_workflow_id-request = refl

list_owned_adapters-request :
    list_owned_adapters request sidecars ("mine" ∷ "theirs" ∷ "packed" ∷ [])
    ≡ "mine" ∷ "packed" ∷ []
unfolding list_owned_adapters owns_adapter_id adapter_owned is_system_workflow current_org_id
    current_workflow_id get filter
list_owned_adapters-request = refl

list_owned_adapters_iff_example :
    Memᴰ {A = String} "mine" (list_owned_adapters request sidecars ("mine" ∷ "theirs" ∷ [])) ↔ (
      Memᴰ {A = String} "mine" ("mine" ∷ "theirs" ∷ [])
      × ((cfg : AdapterConfig) → sidecars "mine" ≡ some cfg → IsStamped cfg "o1" "w1"))
list_owned_adapters_iff_example =
    list_owned_adapters_iff request "o1" "w1" is_system_workflow-request current_org_id-request
      current_workflow_id-request sidecars ("mine" ∷ "theirs" ∷ []) "mine"

abbrev rule : TriggerRule
rule = record {
  event_key = "Placed";
  event_ref = "Placed";
  condition = "";
  gwt_hash = "[]";
  file = "rule.abc.mjs";
  code_hash = "abc";
  built_at = "now";
  author = "human";
  disabled = false;
  disabled_reason = none;
}

assert_rule_bindable-event : assert_rule_bindable (owned_by "mine" "o1" "w1") event ≡ ok tt
unfolding assert_rule_bindable
assert_rule_bindable-event = refl

abbrev ws : Workspace
ws = record { sidecars = ("mine", owned_by "mine" "o1" "w1") ∷ []; docs = []; files = [] }

delete_trigger_rule-save_for_event_example :
    let saved =
      save_for_event files ws "now" "mine"
        (owned_by "mine" "o1" "w1")
        "code"
        "ai"
        none
        "saved"
        event in
    let deleted = delete_trigger_rule saved.0 "later" "mine" "Placed" in
    (saved.1 ≡ deleted.1)
    × (saved.1
        ≡ ok (new_rule files "now" "mine" (owned_by "mine" "o1" "w1") event "code" "ai" none))
    × (get deleted.0.sidecars "mine"
        ≡ some (with_rules (owned_by "mine" "o1" "w1") (rules_but "Placed" [])))
    × All (λ entry. is_version (rule_prefix "mine" "Placed") entry.0 ≡ false) deleted.0.files
delete_trigger_rule-save_for_event_example =
    delete_trigger_rule-save_for_event files ws "now" "later" "mine" (owned_by "mine" "o1" "w1")
      "code" "ai" none "saved" event refl assert_rule_bindable-event refl

append_note-bound_example :
    (length (append_note [] "now" "mine" "note" "hello" none).1.notes ≤ max_notes)
    × Memᴰ
        (record { at = "now"; kind = "note"; text = "hello"; duration_ms = none })
        (append_note [] "now" "mine" "note" "hello" none).1.notes
append_note-bound_example = append_note-bound [] "now" "mine" "note" "hello" none

-- A file with its own content, whose function is exported.
abbrev there : RuleFiles
there = record files { read_rule_file = λ _. some "abc" }

-- Of two rules for one event the second runs, and a third one that is disabled is reported.
abbrev two_rules : List AdapterConfig
two_rules =
    with_rules (owned_by "first" "o1" "w1") (rule ∷ [])
    ∷ with_rules (owned_by "second" "o1" "w1")
        (rule ∷ record rule { disabled = true; event_key = "Sent" } ∷ [])
    ∷ []

loaded_pass : load_authored_rule_set true there (λ _. false) shop two_rules ≡ (
  some (("Placed", record { condition = ""; connector_id = "second" }) ∷ []),
  record {
    active = 1;
    stale = [];
    errors = [];
    disabled =
        record { event_key = "Sent"; connector = "second"; reason = "disabled by the operator" }
        ∷ [];
  },
)
unfolding load_authored_rule_set rule_verdict settle_rule load_connectors load_rules event_verdict
    event_by_key coupled_verdict load_rule_fn code_verdict file_hash scan_verdict gwt_hash_of
loaded_pass = refl

load_authored_rule_set-rule_status_example :
    is_running (
      get
        (rules_or_none (load_authored_rule_set true there (λ _. false) shop two_rules).0)
        "Placed")
    ≡ (true
        && any
            (λ (cfg, rule). is_sound there shop cfg rule && rule.event_key == "Placed")
            (all_rules two_rules))
load_authored_rule_set-rule_status_example =
    load_authored_rule_set-rule_status true there shop two_rules "Placed"
