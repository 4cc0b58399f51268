-- ===== src/Connectors/Health.antt =====
-- The rules that load are those that the read surfaces call healthy or stale.
use qlerify_live.Prelude.{
  String, Bool, true, false, ◌&&◌, not, Option, none, some, List, [], ◌∷◌, ◌≡◌, refl, ◌==◌,
  string_eq, if◌then◌else◌,
}
use qlerify_live.Ontology.{OntologyEvent, event_by_key}
use qlerify_live.Ontology.Schema.{Model}
use qlerify_live.Tenancy.{given}
use qlerify_live.Connectors.{TriggerRule, AdapterConfig}
use qlerify_live.Connectors.Files.{prefix}
use qlerify_live.Connectors.Rules.{RuleFiles, gwt_hash_of}
use qlerify_live.Connectors.Loading.{
  TriggerRuleStatus, healthy, stale, error, disabled_rule, orphaned, Health, file_hash, scan_health,
  code_health, coupled_health, event_health, rule_status, Verdict, skipped, failed, loaded,
  scan_verdict, code_verdict, load_rule_fn, coupled_verdict, event_verdict, rule_verdict,
}

abbrev pub is_loaded : Verdict → Bool
is_loaded (loaded is_stale) = true
is_loaded _ = false

abbrev pub is_live : TriggerRuleStatus → Bool
is_live healthy = true
is_live stale = true
is_live _ = false

-- The event has a command.
abbrev pub has_command : Option OntologyEvent → Bool
has_command none = false
has_command (some e) = not (e.command_name == "")

-- The file's module exports the function.
abbrev pub has_detect : RuleFiles → Option String → Bool
has_detect files none = false
has_detect files (some source) = files.exports_detect source

coupled_lem :
    (o : Option String) (v : Verdict) (h : Health) (b : Bool)
    → is_loaded v ≡ (is_live h.status && b)
    → is_loaded (coupled_verdict o v) ≡ (is_live (coupled_health o h).status && b)
unfolding coupled_verdict coupled_health
coupled_lem none v h b k = k
coupled_lem (some key) v h b k = refl

both_skipped :
    (c b : Bool) (reason : String) (v : Verdict) (detail : Option String) (h : Health)
    → is_loaded v ≡ (is_live h.status && b)
    → is_loaded (if c then skipped reason else v)
      ≡ (is_live (if c then record { status = orphaned; detail = detail } else h).status && b)
both_skipped true b reason v detail h k = refl
both_skipped false b reason v detail h k = k

both_disabled :
    (c b : Bool) (reason : String) (v : Verdict) (detail : Option String) (h : Health)
    → is_loaded v ≡ (is_live h.status && b)
    → is_loaded (if c then skipped reason else v)
      ≡ (is_live (if c then record { status = disabled_rule; detail = detail } else h).status && b)
both_disabled true b reason v detail h k = refl
both_disabled false b reason v detail h k = k

without_command :
    (c live b : Bool) (reason : String) (v : Verdict)
    → is_loaded v ≡ (live && b)
    → is_loaded (if c then skipped reason else v) ≡ (live && (not c && b))
without_command true true b reason v k = refl
without_command true false b reason v k = refl
without_command false live b reason v k = k

both_failed :
    (c is_stale b : Bool) (text : String) (v : Verdict) (detail : Option String) (h : Health)
    → is_loaded v ≡ (is_live h.status && b)
    → is_loaded (if c then failed is_stale text else v)
      ≡ (is_live (if c then record { status = error; detail = detail } else h).status && b)
both_failed true is_stale b text v detail h k = refl
both_failed false is_stale b text v detail h k = k

both_sound :
    (exports differs is_stale : Bool) (text : String) (detail : Option String)
    → is_loaded (if exports then loaded is_stale else failed is_stale text) ≡ (
        let h : Health =
          if differs
          then record { status = stale; detail = detail }
          else record { status = healthy; detail = none } in
        is_live h.status && exports)
both_sound true true is_stale text detail = refl
both_sound true false is_stale text detail = refl
both_sound false true is_stale text detail = refl
both_sound false false is_stale text detail = refl

module _ (files : RuleFiles) (rule : TriggerRule) where
  scan_lem :
      (event : OntologyEvent) (is_stale : Bool) (source : String) (violations : List String)
      → is_loaded (scan_verdict files is_stale source violations)
        ≡ (is_live (scan_health files rule event violations).status && files.exports_detect source)
  unfolding scan_health scan_verdict
  scan_lem event is_stale source [] =
      both_sound (files.exports_detect source) (not (gwt_hash_of files event == rule.gwt_hash))
        is_stale _ _
  scan_lem event is_stale source (v ∷ vs) = refl

  code_lem :
      (event : OntologyEvent) (is_stale : Bool) (source : Option String)
      → is_loaded (code_verdict files rule is_stale source)
        ≡ (is_live (code_health files rule event source).status && has_detect files source)
  unfolding code_verdict code_health
  code_lem event is_stale none = refl
  code_lem event is_stale (some source) =
      both_failed (not (file_hash rule.file == prefix 12 (files.sha256 source))) is_stale _ _ _ _ _
        (scan_lem event is_stale source (files.violations source))

  event_lem :
      (cfg : AdapterConfig) (event : Option OntologyEvent)
      → is_loaded (event_verdict files (λ _. false) cfg rule event) ≡ (
          is_live (event_health files cfg rule event).status
          && (has_command event && has_detect files (files.read_rule_file rule.file)))
  unfolding event_verdict event_health load_rule_fn
  event_lem cfg none = refl
  event_lem cfg (some event) = both_skipped _ _ _ _ _ _ (
      coupled_lem (given event.coupled_to) _ _ _ (
        without_command (event.command_name == "") _ _ _ _
          (code_lem event _ (files.read_rule_file rule.file))))

  -- While no function is compiled yet, a rule is loaded exactly when its status is healthy or stale, its
  -- event has a command and its module exports the function.
  pub rule_verdict-rule_status :
      (ont : Model) (cfg : AdapterConfig)
      → is_loaded (rule_verdict files (λ _. false) ont cfg rule) ≡ (
          is_live (rule_status files ont cfg rule).status
          && (has_command (event_by_key ont.events rule.event_key)
              && has_detect files (files.read_rule_file rule.file)))
  unfolding rule_verdict rule_status
  rule_verdict-rule_status ont cfg =
      both_disabled rule.disabled _ _ _ _ _ (event_lem cfg (event_by_key ont.events rule.event_key))
