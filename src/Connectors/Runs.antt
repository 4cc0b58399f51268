-- ===== src/Connectors/Runs.antt =====
-- Which events a pass of `loadAuthoredRuleSet` runs a rule for, by the status of the rules.
use qlerify_live.Prelude.{
  String, ◌≡◌, refl, ap, ◌∙◌, Bool, true, false, ◌&&◌, ◌||◌, Option, none, some, List, [], ◌∷◌,
  ◌==◌, string_eq, if◌then◌else◌, get, any, arith,
}
use qlerify_live.Ontology.{event_by_key}
use qlerify_live.Ontology.Schema.{Model}
use qlerify_live.Connectors.{TriggerRule, AdapterConfig}
use qlerify_live.Connectors.Rules.{RuleFiles}
use qlerify_live.Connectors.Loading.{Verdict, rule_verdict, rule_status}
use qlerify_live.Connectors.Health.{
  is_loaded, is_live, has_command, has_detect, rule_verdict-rule_status,
}
use qlerify_live.Connectors.Passes.{Running, load_authored_rule_set}
use qlerify_live.Connectors.Settled.{
  all_rules, rules_or_none, last_loaded, either, load_authored_rule_set_lem,
}

abbrev pub is_running : Option Running → Bool
is_running none = false
is_running (some r) = true

is_running-either :
    (a b : Option Running) → is_running (either a b) ≡ (is_running b || is_running a)
is_running-either (some r) b = ground arith
is_running-either none b = ground arith

is_running-if : (b : Bool) (r : Running) → is_running (if b then some r else none) ≡ b
is_running-if true r = refl
is_running-if false r = refl

is_running-last_loaded :
    (verdict_of : AdapterConfig → TriggerRule → Verdict) (key : String)
    (rules : List (AdapterConfig × TriggerRule))
    → is_running (last_loaded verdict_of key rules)
      ≡ any (λ (cfg, rule). is_loaded (verdict_of cfg rule) && rule.event_key == key) rules
unfolding any
is_running-last_loaded verdict_of key [] = refl
is_running-last_loaded verdict_of key ((cfg, rule) ∷ rules) =
    is_running-either (last_loaded verdict_of key rules) _
    ∙ (ap (λ b. b || is_running (last_loaded verdict_of key rules))
          (is_running-if (is_loaded (verdict_of cfg rule) && rule.event_key == key) _)
        ∙ ap (λ b. (is_loaded (verdict_of cfg rule) && rule.event_key == key) || b)
            (is_running-last_loaded verdict_of key rules))

any-eq :
    (p q : AdapterConfig × TriggerRule → Bool)
    → ((x : AdapterConfig × TriggerRule) → p x ≡ q x)
    → (rules : List (AdapterConfig × TriggerRule)) → any p rules ≡ any q rules
unfolding any
any-eq p q h [] = refl
any-eq p q h (x ∷ rules) = rw (h x, any-eq p q h rules) refl

-- What the read surfaces say of a rule, with what its event and its module need to have.
abbrev pub is_sound : RuleFiles → Model → AdapterConfig → TriggerRule → Bool
is_sound files ont cfg rule =
    is_live (rule_status files ont cfg rule).status
    && (has_command (event_by_key ont.events rule.event_key)
        && has_detect files (files.read_rule_file rule.file))

-- While no function is compiled yet, a pass runs a rule for an event exactly when connectors are enabled
-- and some connector has a rule for that event whose status is healthy or stale, whose event has a
-- command and whose module exports the function.
pub load_authored_rule_set-rule_status :
    (enabled : Bool) (files : RuleFiles) (ont : Model) (configs : List AdapterConfig) (key : String)
    → is_running
        (get (rules_or_none (load_authored_rule_set enabled files (λ _. false) ont configs).0) key)
      ≡ (enabled
          && any
              (λ (cfg, rule). is_sound files ont cfg rule && rule.event_key == key)
              (all_rules configs))
load_authored_rule_set-rule_status false files ont configs key =
    unfold load_authored_rule_set get in refl
load_authored_rule_set-rule_status true files ont configs key =
    let (_, _, _, _, last) = load_authored_rule_set_lem files (λ _. false) ont configs in
    ap is_running (last key)
    ∙ (is_running-last_loaded (rule_verdict files (λ _. false) ont) key (all_rules configs)
        ∙ any-eq _ _
            (λ (cfg, rule).
              ap (λ b. b && rule.event_key == key) (rule_verdict-rule_status files rule ont cfg))
            (all_rules configs))
