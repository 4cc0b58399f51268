-- ===== src/Connectors/Passes.antt =====
-- src/packs/connector/rules.ts: `loadAuthoredRuleSet` over the connectors of a workflow, but for the
-- snapshots of the tables that a rule's context reads.
use qlerify_live.Prelude.{
  ℕ, String, Bool, not, Option, none, some, List, [], ◌∷◌, ◌++◌, if◌then◌else◌, length, Map, put,
  string_eq,
}
use qlerify_live.Ontology.Schema.{Model}
use qlerify_live.Connectors.{TriggerRule, AdapterConfig}
use qlerify_live.Connectors.Files.{prefix}
use qlerify_live.Connectors.Rules.{RuleFiles}
use qlerify_live.Connectors.Loading.{Verdict, skipped, failed, loaded, rule_verdict}

-- An entry of a report: the rule's event, its connector, and why.
pub record Entry : Type 0 where
  pub event_key : String
  pub connector : String
  pub reason : String

-- A rule that runs, by its event.
pub record Running : Type 0 where
  pub condition : String
  pub connector_id : String

pub record RuleReport : Type 0 where
  pub active : ℕ
  pub stale : List Entry
  pub errors : List Entry
  pub disabled : List Entry

-- The set and the report while the pass goes over the rules.
pub record Pass : Type 0 where
  pub rules : Map Running
  pub stale : List Entry
  pub errors : List Entry
  pub disabled : List Entry

abbrev pub no_rules : Pass
no_rules = record { rules = []; stale = []; errors = []; disabled = [] }

abbrev pub entry : AdapterConfig → TriggerRule → String → Entry
entry cfg rule reason = record { event_key = rule.event_key; connector = cfg.id; reason = reason }

abbrev pub note_stale : Bool → AdapterConfig → TriggerRule → Pass → Pass
note_stale is_stale cfg rule pass = record pass {
  stale = if is_stale then pass.stale ++ entry cfg rule "" ∷ [] else pass.stale;
}

unfoldable pub settle_rule : AdapterConfig → TriggerRule → Verdict → Pass → Pass
unfolding put
settle_rule cfg rule (skipped reason) pass = record pass {
  disabled = pass.disabled ++ entry cfg rule reason ∷ [];
}
settle_rule cfg rule (failed is_stale message) pass = record (note_stale is_stale cfg rule pass) {
  errors = pass.errors ++ entry cfg rule (prefix 300 message) ∷ [];
}
settle_rule cfg rule (loaded is_stale) pass = record (note_stale is_stale cfg rule pass) {
  rules =
      put pass.rules rule.event_key (record { condition = rule.condition; connector_id = cfg.id });
}

unfoldable pub load_rules :
    RuleFiles → (String → Bool) → Model → AdapterConfig → List TriggerRule → Pass → Pass
load_rules files cached ont cfg [] pass = pass
load_rules files cached ont cfg (rule ∷ rules) pass =
    load_rules files cached ont cfg rules
      (settle_rule cfg rule (rule_verdict files cached ont cfg rule) pass)

unfoldable pub load_connectors :
    RuleFiles → (String → Bool) → Model → List AdapterConfig → Pass → Pass
load_connectors files cached ont [] pass = pass
load_connectors files cached ont (cfg ∷ configs) pass =
    load_connectors files cached ont configs
      (load_rules files cached ont cfg cfg.trigger_rules pass)

unfoldable pub switch_off : AdapterConfig → List TriggerRule → Pass → Pass
switch_off cfg [] pass = pass
switch_off cfg (rule ∷ rules) pass =
    switch_off cfg rules
      (settle_rule cfg rule (skipped "connector subsystem disabled (kill-switch)") pass)

unfoldable pub switch_off_all : List AdapterConfig → Pass → Pass
switch_off_all [] pass = pass
switch_off_all (cfg ∷ configs) pass = switch_off_all configs (switch_off cfg cfg.trigger_rules pass)

abbrev pub report_of : ℕ → Pass → RuleReport
report_of active pass = record {
  active = active;
  stale = pass.stale;
  errors = pass.errors;
  disabled = pass.disabled;
}

-- A set of no rules is none.
abbrev pub set_of : Map Running → Option (Map Running)
set_of [] = none
set_of (r ∷ rules) = some (r ∷ rules)

-- The set and the report. A connector without rules adds nothing, so that the filter on them is left
-- out.
unfoldable pub load_authored_rule_set :
    Bool
    → RuleFiles
    → (String → Bool)
    → Model
    → List AdapterConfig
    → Option (Map Running) × RuleReport
load_authored_rule_set enabled files cached ont configs =
    if not enabled
    then (none, report_of 0 (switch_off_all configs no_rules))
    else let pass = load_connectors files cached ont configs no_rules in
      (set_of pass.rules, report_of (length pass.rules) pass)
