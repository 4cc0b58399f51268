-- ===== src/Connectors/Saving.antt =====
-- A trigger rule that is saved, and then deleted.
use qlerify_live.Prelude.{
  String, Option, some, List, [], ◌∷◌, ◌++◌, ◌≡◌, refl, ap, ◌∙◌, string_eq, arith, get, get-put,
  filter, find, eq_iff, Map, All, Memᴰ, Bool-cases, inl, inr, subst, sym, false,
}
use qlerify_live.Errors.{ok}
use qlerify_live.Ontology.{OntologyEvent}
use qlerify_live.Connectors.{TriggerRule, AdapterConfig}
use qlerify_live.Connectors.Files.{
  write_rule_file, delete_rule_files, rule_prefix, is_version, drop_versions,
}
use qlerify_live.Connectors.Rules.{
  RuleFiles, Workspace, assert_rule_bindable, rules_but, rule_for, new_rule, write_rules,
  with_rules, save_for_event, settle_save, delete_from, delete_rule, deletion_note,
  delete_trigger_rule,
}

rules_but-again :
    (key : String) (rules : List TriggerRule) (rule : TriggerRule)
    → rule.event_key ≡ key
    → rules_but key (rules_but key rules ++ rule ∷ []) ≡ rules_but key rules
unfolding rules_but filter
rules_but-again key [] rule h = ground (arith, eq_iff rule.event_key key)
rules_but-again key (r ∷ rules) rule h =
    ground (arith, eq_iff r.event_key key, rules_but-again key rules rule h)

rule_for-last :
    (key : String) (rules : List TriggerRule) (rule : TriggerRule)
    → rule.event_key ≡ key
    → rule_for key (rules_but key rules ++ rule ∷ []) ≡ some rule
unfolding rules_but rule_for filter find
rule_for-last key [] rule h = ground (arith, eq_iff rule.event_key key)
rule_for-last key (r ∷ rules) rule h =
    ground (arith, eq_iff r.event_key key, rule_for-last key rules rule h)

get-write_rules :
    (ws : Workspace) (left : Map String) (now id : String) (cfg : AdapterConfig)
    (rules : List TriggerRule) (note : String)
    → cfg.id ≡ id
    → get (write_rules ws left now id cfg rules note).sidecars id ≡ some (with_rules cfg rules)
unfolding write_rules
get-write_rules ws left now id cfg rules note h =
    ground (arith, get-put ws.sidecars cfg.id (with_rules cfg rules) id, eq_iff cfg.id id)

new_rule-key :
    (files : RuleFiles) (now id : String) (cfg : AdapterConfig) (event : OntologyEvent)
    (source author : String) (condition : Option String)
    → (new_rule files now id cfg event source author condition).event_key ≡ event.key
unfolding new_rule
new_rule-key files now id cfg event source author condition = refl

drop_versions-All :
    (start : String) (files : Map String)
    → All (λ entry. is_version start entry.0 ≡ false) (drop_versions start files)
unfolding drop_versions
drop_versions-All start [] = λ x m. elim m [ ]
drop_versions-All start ((file, source) ∷ files) = elim (Bool-cases (is_version start file)) [
  | inl old ↦ rw old (drop_versions-All start files)
  | inr other ↦ rw other (λ x m. elim m [
    | Memᴰ.head q ↦ subst (λ (e : String × String). is_version start e.0 ≡ false) (sym q) other
    | Memᴰ.tail n ↦ drop_versions-All start files x n
  ])
]

save_for_event-ok :
    (files : RuleFiles) (ws : Workspace) (now id : String) (cfg : AdapterConfig)
    (source author : String) (condition : Option String) (note : String) (event : OntologyEvent)
    → assert_rule_bindable cfg event ≡ ok tt
    → files.violations source ≡ []
    → let rule = new_rule files now id cfg event source author condition in
      save_for_event files ws now id cfg source author condition note event ≡ (
        write_rules ws
            (write_rule_file files.sha256 ws.files id event.key source)
            now
            id
            cfg
            (rules_but event.key cfg.trigger_rules ++ rule ∷ [])
            note,
        ok rule,
      )
unfolding save_for_event settle_save
save_for_event-ok files ws now id cfg source author condition note event k l =
    ap
      (λ r.
        settle_save files ws now id cfg source author condition note event r
          (files.violations source))
      k
    ∙ ap (settle_save files ws now id cfg source author condition note event (ok tt)) l

delete_trigger_rule-ok :
    (ws : Workspace) (later id key : String) (cfg : AdapterConfig) (rule : TriggerRule)
    → get ws.sidecars id ≡ some cfg
    → rule_for key cfg.trigger_rules ≡ some rule
    → delete_trigger_rule ws later id key ≡ (
      write_rules ws
          (delete_rule_files ws.files id key)
          later
          id
          cfg
          (rules_but key cfg.trigger_rules)
          (deletion_note key),
      ok rule,
    )
delete_trigger_rule-ok ws later id key cfg rule h k =
    unfold delete_trigger_rule in
    ap (delete_from ws later id key) h
    ∙ (unfold delete_from in ap (delete_rule ws later id key cfg) k ∙ (unfold delete_rule in refl))

-- For a connector of that id and an event that its rules may bind, where the deny-scan finds nothing, the
-- rule is saved and found again by its event, and once it is deleted the connector has its other rules,
-- in their order, and no version of the rule's file is left.
pub delete_trigger_rule-save_for_event :
    (files : RuleFiles) (ws : Workspace) (now later id : String) (cfg : AdapterConfig)
    (source author : String) (condition : Option String) (note : String) (event : OntologyEvent)
    → cfg.id ≡ id
    → assert_rule_bindable cfg event ≡ ok tt
    → files.violations source ≡ []
    → let saved = save_for_event files ws now id cfg source author condition note event in
      let deleted = delete_trigger_rule saved.0 later id event.key in
      (saved.1 ≡ deleted.1)
      × (saved.1 ≡ ok (new_rule files now id cfg event source author condition))
      × (get deleted.0.sidecars id ≡ some (with_rules cfg (rules_but event.key cfg.trigger_rules)))
      × All (λ entry. is_version (rule_prefix id event.key) entry.0 ≡ false) deleted.0.files
unfolding write_rules drop_versions delete_rule_files write_rule_file
delete_trigger_rule-save_for_event files ws now later id cfg source author condition note event h k
      l =
    let rule = new_rule files now id cfg event source author condition in
    let rules = rules_but event.key cfg.trigger_rules in
    let kept = with_rules cfg (rules ++ rule ∷ []) in
    let written = write_rule_file files.sha256 ws.files id event.key source in
    let saved = write_rules ws written now id cfg (rules ++ rule ∷ []) note in
    let left = delete_rule_files saved.files id event.key in
    let deleted =
      delete_trigger_rule-ok saved later id event.key kept rule
        (get-write_rules ws written now id cfg (rules ++ rule ∷ []) note h)
        (rule_for-last event.key cfg.trigger_rules rule
          (new_rule-key files now id cfg event source author condition)) in
    rw (save_for_event-ok files ws now id cfg source author condition note event k l) (
      rw deleted (
        refl,
        refl,
        get-write_rules saved left later id kept (rules_but event.key (rules ++ rule ∷ []))
              (deletion_note event.key) h
            ∙ ap (λ rs. some (with_rules cfg rs))
                (rules_but-again event.key cfg.trigger_rules rule
                  (new_rule-key files now id cfg event source author condition)),
        drop_versions-All (rule_prefix id event.key) saved.files,
      ))
