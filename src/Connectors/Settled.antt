-- ===== src/Connectors/Settled.antt =====
-- What a pass of `loadAuthoredRuleSet` ends in: the report and the set, rule by rule.
use qlerify_live.Prelude.{
  String, ◌≡◌, refl, sym, ap, ◌∙◌, Bool, true, false, ◌&&◌, Option, none, some, List, [], ◌∷◌, ◌++◌,
  ◌==◌, string_eq, if◌then◌else◌, length, Map, get, get-put,
}
use qlerify_live.Prelude.Distinct.{append_assoc, append-nil}
use qlerify_live.Ontology.Schema.{Model}
use qlerify_live.Connectors.{TriggerRule, AdapterConfig}
use qlerify_live.Connectors.Files.{prefix}
use qlerify_live.Connectors.Rules.{RuleFiles}
use qlerify_live.Connectors.Loading.{Verdict, skipped, failed, loaded, rule_verdict}
use qlerify_live.Connectors.Health.{is_loaded}
use qlerify_live.Connectors.Passes.{
  Entry, Running, Pass, no_rules, entry, settle_rule, load_rules, load_connectors, set_of,
  load_authored_rule_set,
}

-- The rules of a connector, and those of all connectors, in their order.
abbrev pub rules_of : AdapterConfig → List TriggerRule → List (AdapterConfig × TriggerRule)
rules_of cfg [] = []
rules_of cfg (rule ∷ rules) = (cfg, rule) ∷ rules_of cfg rules

abbrev pub all_rules : List AdapterConfig → List (AdapterConfig × TriggerRule)
all_rules [] = []
all_rules (cfg ∷ configs) = rules_of cfg cfg.trigger_rules ++ all_rules configs

abbrev pub why_skipped : Verdict → Option String
why_skipped (skipped reason) = some reason
why_skipped _ = none

abbrev pub why_failed : Verdict → Option String
why_failed (failed is_stale message) = some (prefix 300 message)
why_failed _ = none

abbrev pub why_stale : Verdict → Option String
why_stale (failed true message) = some ""
why_stale (loaded true) = some ""
why_stale _ = none

abbrev pub rules_or_none : Option (Map Running) → Map Running
rules_or_none none = []
rules_or_none (some rules) = rules

abbrev entries_if : Option String → AdapterConfig → TriggerRule → List Entry
entries_if none cfg rule = []
entries_if (some reason) cfg rule = entry cfg rule reason ∷ []

abbrev pub either : Option Running → Option Running → Option Running
either (some r) other = some r
either none other = other

either_if :
    (b : Bool) (r : Running) (o : Option Running)
    → (if b then some r else o) ≡ either (if b then some r else none) o
either_if true r o = refl
either_if false r o = refl

either_assoc : (a b c : Option Running) → either (either a b) c ≡ either a (either b c)
either_assoc (some r) b c = refl
either_assoc none b c = refl

either-none : (a : Option Running) → either a none ≡ a
either-none (some r) = refl
either-none none = refl

module _ (verdict_of : AdapterConfig → TriggerRule → Verdict) where
  -- The entries of the rules that `why` gives a reason for.
  abbrev pub entries : (Verdict → Option String) → List (AdapterConfig × TriggerRule) → List Entry
  entries why [] = []
  entries why ((cfg, rule) ∷ rules) =
      entries_if (why (verdict_of cfg rule)) cfg rule ++ entries why rules

  -- The last rule of an event that is loaded.
  abbrev pub last_loaded : String → List (AdapterConfig × TriggerRule) → Option Running
  last_loaded key [] = none
  last_loaded key ((cfg, rule) ∷ rules) = either (last_loaded key rules) (
      if is_loaded (verdict_of cfg rule) && rule.event_key == key
      then some (record { condition = rule.condition; connector_id = cfg.id })
      else none)

  settle_all : List (AdapterConfig × TriggerRule) → Pass → Pass
  settle_all [] pass = pass
  settle_all ((cfg, rule) ∷ rules) pass =
      settle_all rules (settle_rule cfg rule (verdict_of cfg rule) pass)

  settle_all-append :
      (xs ys : List (AdapterConfig × TriggerRule)) (pass : Pass)
      → settle_all (xs ++ ys) pass ≡ settle_all ys (settle_all xs pass)
  unfolding settle_all
  settle_all-append [] ys pass = refl
  settle_all-append ((cfg, rule) ∷ xs) ys pass =
      settle_all-append xs ys (settle_rule cfg rule (verdict_of cfg rule) pass)

  get-settle_rule :
      (cfg : AdapterConfig) (rule : TriggerRule) (v : Verdict) (pass : Pass) (key : String)
      → get (settle_rule cfg rule v pass).rules key
        ≡ either
            (if is_loaded v && rule.event_key == key
              then some (record { condition = rule.condition; connector_id = cfg.id })
              else none)
            (get pass.rules key)
  unfolding settle_rule
  get-settle_rule cfg rule (skipped reason) pass key = refl
  get-settle_rule cfg rule (failed is_stale message) pass key = refl
  get-settle_rule cfg rule (loaded is_stale) pass key =
      get-put pass.rules rule.event_key
        (record { condition = rule.condition; connector_id = cfg.id }) key
      ∙ either_if (rule.event_key == key) _ _

  get-settle_all :
      (rules : List (AdapterConfig × TriggerRule)) (pass : Pass) (key : String)
      → get (settle_all rules pass).rules key ≡ either (last_loaded key rules) (get pass.rules key)
  unfolding settle_all
  get-settle_all [] pass key = refl
  get-settle_all ((cfg, rule) ∷ rules) pass key =
      get-settle_all rules (settle_rule cfg rule (verdict_of cfg rule) pass) key
      ∙ (ap (either (last_loaded key rules))
            (get-settle_rule cfg rule (verdict_of cfg rule) pass key)
          ∙ sym (either_assoc (last_loaded key rules) _ _))

  -- A list of the report that each rule adds its entry to.
  listed :
      (field : Pass → List Entry) (why : Verdict → Option String)
      → ((cfg : AdapterConfig) (rule : TriggerRule) (v : Verdict) (pass : Pass)
          → field (settle_rule cfg rule v pass) ≡ field pass ++ entries_if (why v) cfg rule)
      → (rules : List (AdapterConfig × TriggerRule)) (pass : Pass)
      → field (settle_all rules pass) ≡ field pass ++ entries why rules
  unfolding settle_all
  listed field why h [] pass = sym (append-nil (field pass))
  listed field why h ((cfg, rule) ∷ rules) pass =
      listed field why h rules (settle_rule cfg rule (verdict_of cfg rule) pass)
      ∙ (ap (λ l. l ++ entries why rules) (h cfg rule (verdict_of cfg rule) pass)
          ∙ append_assoc (field pass) (entries_if (why (verdict_of cfg rule)) cfg rule)
              (entries why rules))

disabled-settle_rule :
    (cfg : AdapterConfig) (rule : TriggerRule) (v : Verdict) (pass : Pass)
    → (settle_rule cfg rule v pass).disabled ≡ pass.disabled ++ entries_if (why_skipped v) cfg rule
unfolding settle_rule
disabled-settle_rule cfg rule (skipped reason) pass = refl
disabled-settle_rule cfg rule (failed is_stale message) pass = sym (append-nil pass.disabled)
disabled-settle_rule cfg rule (loaded is_stale) pass = sym (append-nil pass.disabled)

errors-settle_rule :
    (cfg : AdapterConfig) (rule : TriggerRule) (v : Verdict) (pass : Pass)
    → (settle_rule cfg rule v pass).errors ≡ pass.errors ++ entries_if (why_failed v) cfg rule
unfolding settle_rule
errors-settle_rule cfg rule (skipped reason) pass = sym (append-nil pass.errors)
errors-settle_rule cfg rule (failed is_stale message) pass = refl
errors-settle_rule cfg rule (loaded is_stale) pass = sym (append-nil pass.errors)

stale-settle_rule :
    (cfg : AdapterConfig) (rule : TriggerRule) (v : Verdict) (pass : Pass)
    → (settle_rule cfg rule v pass).stale ≡ pass.stale ++ entries_if (why_stale v) cfg rule
unfolding settle_rule
stale-settle_rule cfg rule (skipped reason) pass = sym (append-nil pass.stale)
stale-settle_rule cfg rule (failed true message) pass = refl
stale-settle_rule cfg rule (failed false message) pass = sym (append-nil pass.stale)
stale-settle_rule cfg rule (loaded true) pass = refl
stale-settle_rule cfg rule (loaded false) pass = sym (append-nil pass.stale)

set_of-rules : (rules : Map Running) → rules_or_none (set_of rules) ≡ rules
set_of-rules [] = refl
set_of-rules (r ∷ rules) = refl

module _ (files : RuleFiles) (cached : String → Bool) (ont : Model) where
  load_rules-settle_all :
      (cfg : AdapterConfig) (rules : List TriggerRule) (pass : Pass)
      → load_rules files cached ont cfg rules pass
        ≡ settle_all (rule_verdict files cached ont) (rules_of cfg rules) pass
  unfolding load_rules settle_all
  load_rules-settle_all cfg [] pass = refl
  load_rules-settle_all cfg (rule ∷ rules) pass = load_rules-settle_all cfg rules _

  load_connectors-settle_all :
      (configs : List AdapterConfig) (pass : Pass)
      → load_connectors files cached ont configs pass
        ≡ settle_all (rule_verdict files cached ont) (all_rules configs) pass
  unfolding load_connectors settle_all
  load_connectors-settle_all [] pass = refl
  load_connectors-settle_all (cfg ∷ configs) pass =
      load_connectors-settle_all configs _
      ∙ (ap (settle_all (rule_verdict files cached ont) (all_rules configs))
            (load_rules-settle_all cfg cfg.trigger_rules pass)
          ∙ sym (
              settle_all-append (rule_verdict files cached ont) (rules_of cfg cfg.trigger_rules)
                (all_rules configs) pass))

  pub load_authored_rule_set_lem :
      (configs : List AdapterConfig)
      → let (set, report) = load_authored_rule_set true files cached ont configs in
        let verdict_of = rule_verdict files cached ont in
        (report.disabled ≡ entries verdict_of why_skipped (all_rules configs))
        × (report.errors ≡ entries verdict_of why_failed (all_rules configs))
        × (report.stale ≡ entries verdict_of why_stale (all_rules configs))
        × (report.active ≡ length (rules_or_none set))
        × ((key : String)
            → get (rules_or_none set) key ≡ last_loaded verdict_of key (all_rules configs))
  unfolding load_authored_rule_set get
  load_authored_rule_set_lem configs =
      let verdict_of = rule_verdict files cached ont in
      let all = all_rules configs in
      let pass = load_connectors files cached ont configs no_rules in
      let settled = load_connectors-settle_all configs no_rules in
      let rules = set_of-rules pass.rules in
      (
        ap (λ (p : Pass). p.disabled) settled
            ∙ listed verdict_of (λ p. p.disabled) why_skipped disabled-settle_rule all no_rules,
        ap (λ (p : Pass). p.errors) settled
            ∙ listed verdict_of (λ p. p.errors) why_failed errors-settle_rule all no_rules,
        ap (λ (p : Pass). p.stale) settled
            ∙ listed verdict_of (λ p. p.stale) why_stale stale-settle_rule all no_rules,
        ap length (sym rules),
        λ key.
            ap (λ m. get m key) rules
            ∙ (ap (λ (p : Pass). get p.rules key) settled
                ∙ (get-settle_all verdict_of all no_rules key ∙ either-none _)),
      )
