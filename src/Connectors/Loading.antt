-- ===== src/Connectors/Loading.antt =====
-- src/packs/connector/rules.ts: the health of a rule against the loaded model (`ruleStatus`), and which
-- rules a pass of the derivation runs (`loadAuthoredRuleSet`, without the snapshots of the tables that
-- its context reads). `cached` tells the files whose function is compiled already.
use Prim.Native.Char.{Char, code}
use qlerify_live.Prelude.{
  ℕ, String, Bool, true, false, ◌&&◌, ◌||◌, not, Option, none, some, List, [], ◌∷◌, ◌==◌, string_eq,
  if◌then◌else◌, nat_beq, template, join,
}
use qlerify_live.Ontology.{OntologyEvent, event_by_key}
use qlerify_live.Ontology.Schema.{Model}
use qlerify_live.Connectors.{TriggerRule, AdapterConfig}
use qlerify_live.Connectors.Files.{prefix}
use qlerify_live.Connectors.Rules.{RuleFiles, gwt_hash_of}
use qlerify_live.Tenancy.{given}

abbrev letter : ℕ → ℕ → Char → Bool
letter upper lower c = nat_beq (code c) upper || nat_beq (code c) lower

-- The text is ".mjs", in either case.
abbrev is_mjs : String → Bool
is_mjs (String.◌∷◌ a (String.◌∷◌ b (String.◌∷◌ c (String.◌∷◌ d String.[])))) =
    nat_beq (code a) 46 && letter 77 109 b && letter 74 106 c && letter 83 115 d
is_mjs _ = false

-- `file.replace(/\.mjs$/i, "")`.
stem : String → String
stem String.[] = ""
stem (String.◌∷◌ c s) =
    let rest = stem s in if is_mjs (String.◌∷◌ c s) then "" else String.◌∷◌ c rest

after_dot : String → String → String
after_dot best String.[] = best
after_dot best (String.◌∷◌ c s) = if nat_beq (code c) 46 then after_dot s s else after_dot best s

unfoldable pub file_hash : String → String
unfolding stem after_dot
file_hash file = after_dot (stem file) (stem file)

pub data TriggerRuleStatus : Type 0 where
  healthy stale error disabled_rule orphaned : TriggerRuleStatus

pub record Health : Type 0 where
  pub status : TriggerRuleStatus
  pub detail : Option String

-- What the deny-scan and the acceptance criteria say, once the file is there with its own content.
unfoldable pub scan_health : RuleFiles → TriggerRule → OntologyEvent → List String → Health
unfolding template join
scan_health files rule event (v ∷ vs) = record {
  status = error;
  detail = some (template ("deny-scan: " ∷ join ", " (v ∷ vs) ∷ []));
}
scan_health files rule event [] =
    if not (gwt_hash_of files event == rule.gwt_hash)
    then record {
      status = stale;
      detail = some "the event's acceptance criteria changed since this rule was compiled";
    }
    else record { status = healthy; detail = none }

-- The checks of `ruleStatus` on the text of the rule's file.
unfoldable pub code_health : RuleFiles → TriggerRule → OntologyEvent → Option String → Health
unfolding template
code_health files rule event none = record {
  status = error;
  detail = some (template ("rule file missing (" ∷ rule.file ∷ ")" ∷ []));
}
code_health files rule event (some source) =
    if not (file_hash rule.file == prefix 12 (files.sha256 source))
    then record {
      status = error;
      detail = some "rule file tampered — content does not match its content-hash name";
    }
    else scan_health files rule event (files.violations source)

unfoldable pub coupled_health : Option String → Health → Health
unfolding template
coupled_health none other = other
coupled_health (some key) other = record {
  status = orphaned;
  detail = some (
      template (
        "event now completes with \"" ∷ key
        ∷ "\" — a coupled satellite mirrors its predecessor and cannot carry a rule" ∷ []));
}

unfoldable pub event_health :
    RuleFiles → AdapterConfig → TriggerRule → Option OntologyEvent → Health
unfolding template
event_health files cfg rule none = record {
  status = orphaned;
  detail = some (template ("event \"" ∷ rule.event_key ∷ "\" is not in the loaded model" ∷ []));
}
event_health files cfg rule (some event) =
    if not (event.aggregate_root == cfg.target_entity)
    then record {
      status = orphaned;
      detail = some (
          template (
            "event moved to aggregate \"" ∷ event.aggregate_root ∷ "\" — this connector targets "
            ∷ cfg.target_entity ∷ "; recompile or re-point" ∷ []));
    }
    else coupled_health (given event.coupled_to)
        (code_health files rule event (files.read_rule_file rule.file))

-- `ruleStatus`, for the connector that owns the rule.
unfoldable pub rule_status : RuleFiles → Model → AdapterConfig → TriggerRule → Health
rule_status files ont cfg rule =
    if rule.disabled
    then record { status = disabled_rule; detail = rule.disabled_reason }
    else event_health files cfg rule (event_by_key ont.events rule.event_key)

-- What a pass does with a rule.
pub data Verdict : Type 0 where
  skipped : (reason : String) → Verdict
  failed : (is_stale : Bool) (message : String) → Verdict
  loaded : (is_stale : Bool) → Verdict

-- The module is imported where the deny-scan finds nothing.
unfoldable pub scan_verdict : RuleFiles → Bool → String → List String → Verdict
unfolding template join
scan_verdict files is_stale source (v ∷ vs) =
    failed is_stale (template ("rule failed the deny-scan (" ∷ join ", " (v ∷ vs) ∷ ")" ∷ []))
scan_verdict files is_stale source [] =
    if files.exports_detect source
    then loaded is_stale
    else failed is_stale "rule must export function detect(row, ctx, previous)"

-- The checks of `loadRuleFn` on the text of the rule's file.
unfoldable pub code_verdict : RuleFiles → TriggerRule → Bool → Option String → Verdict
unfolding template
code_verdict files rule is_stale none =
    failed is_stale (template ("rule file missing (" ∷ rule.file ∷ ")" ∷ []))
code_verdict files rule is_stale (some source) =
    if not (file_hash rule.file == prefix 12 (files.sha256 source))
    then failed is_stale
        "rule file integrity check failed — content does not match its content-hash name"
    else scan_verdict files is_stale source (files.violations source)

abbrev there : Option String → Bool
there none = false
there (some source) = true

-- `loadRuleFn`.
unfoldable pub load_rule_fn : RuleFiles → (String → Bool) → TriggerRule → Bool → Verdict
load_rule_fn files cached rule is_stale =
    if cached rule.file && there (files.read_rule_file rule.file)
    then loaded is_stale
    else code_verdict files rule is_stale (files.read_rule_file rule.file)

unfoldable pub coupled_verdict : Option String → Verdict → Verdict
unfolding template
coupled_verdict none other = other
coupled_verdict (some key) other = skipped (
    template
      ("event now completes with " ∷ key ∷ " — a coupled satellite cannot carry a rule" ∷ []))

unfoldable pub event_verdict :
    RuleFiles → (String → Bool) → AdapterConfig → TriggerRule → Option OntologyEvent → Verdict
unfolding template
event_verdict files cached cfg rule none = skipped "orphaned: event not in the loaded model"
event_verdict files cached cfg rule (some event) =
    if not (event.aggregate_root == cfg.target_entity)
    then skipped (
        template (
          "event moved to aggregate " ∷ event.aggregate_root
          ∷ " — recompile against the current model" ∷ []))
    else coupled_verdict (given event.coupled_to) (
        if event.command_name == ""
        then skipped "event lost its command — not derivable from data"
        else load_rule_fn files cached rule (not (gwt_hash_of files event == rule.gwt_hash)))

abbrev reason_or : Option String → String
reason_or none = "disabled by the operator"
reason_or (some reason) = reason

unfoldable pub rule_verdict :
    RuleFiles → (String → Bool) → Model → AdapterConfig → TriggerRule → Verdict
rule_verdict files cached ont cfg rule =
    if rule.disabled
    then skipped (reason_or rule.disabled_reason)
    else event_verdict files cached cfg rule (event_by_key ont.events rule.event_key)
