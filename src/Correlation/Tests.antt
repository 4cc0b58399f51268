-- ===== src/Correlation/Tests.antt =====
-- Runs of Correlation on a small model: an order is the root, and an invoice names its order.
use qlerify_live.Prelude.{
  String, List, [], ◌∷◌, true, none, some, ◌≡◌, refl, sym, ◌≢◌, true≢false, eq_iff, get, has,
}
use qlerify_live.Ontology.Schema.{Model, EntitySchema, SchemaField, text}
use qlerify_live.Correlation.{
  Payload, CaseOf, CycleResolution, decide_case_id, text_at, foreign_key_fields, correlate_case_id,
  correlate_with, reference_ids, find_rows, case_of_rows, parent_case, linked_case,
  cycle_link_fields,
}
use qlerify_live.Correlation.Rules.{
  answers, first_some, decide_case_id-first_some, decide_case_id-some, decide_case_id_again,
}

abbrev field : String → SchemaField
field name = record { name = name; data_type = none; example_data = []; related_entity = none }

abbrev schema : String → List SchemaField → EntitySchema
schema name fields = record { name = name; required = []; fields = fields; key = none }

abbrev shop : Model
shop = record {
  root_aggregate = "Order";
  events = [];
  commands = [];
  entities =
      schema "Order" (field "id" ∷ []) ∷ schema "Invoice" (field "id" ∷ field "orderId" ∷ []) ∷ [];
}

abbrev invoice : Payload
invoice = ("id", text "i1") ∷ ("orderId", text "o1") ∷ []

abbrev recorded : CaseOf
recorded id = elim (some id) [ none ↦ none | some _ ↦ some "o1" ]

abbrev nothing_recorded : CaseOf
nothing_recorded id = none

abbrev no_cycle : CycleResolution
no_cycle = record { business_at = none; cycle_case = λ _ _ _. none }

foreign_key_fields-invoice :
    foreign_key_fields "Invoice" shop ≡ record { name = "orderId"; target = "Order" } ∷ []
unfolding foreign_key_fields
foreign_key_fields-invoice = refl

-- The invoice joins the case of its order.
correlate_case_id-invoice :
    correlate_case_id
      (record { aggregate_id = some "o1"; case_id = some "case1" } ∷ [])
      (record { table_exists = λ _. true; find_row = λ _ _. none })
      (some shop)
      "Invoice"
      "i1"
      invoice
      none
    ≡ some "case1"
unfolding correlate_case_id correlate_with reference_ids find_rows case_of_rows decide_case_id
    text_at get foreign_key_fields parent_case linked_case cycle_link_fields has
correlate_case_id-invoice = refl

text_at-case_id : text_at invoice "caseId" ≡ none
unfolding text_at get
text_at-case_id = refl

i1_given : ◌≢◌ {A = String} "i1" ""
i1_given e = true≢false (sym ((eq_iff "i1" "").1 e))

invoice_not_root : ◌≢◌ {A = String} "Invoice" "Order"
invoice_not_root e = true≢false (sym ((eq_iff "Invoice" "Order").1 e))

decide_case_id-first_some_example :
    decide_case_id shop "Invoice" "i1" invoice recorded no_cycle
    ≡ first_some (answers shop "Invoice" "i1" invoice no_cycle recorded)
decide_case_id-first_some_example =
    decide_case_id-first_some shop "Invoice" "i1" invoice no_cycle recorded text_at-case_id i1_given
      invoice_not_root

decide_case_id-some_example :
    (c : String) × (decide_case_id shop "Invoice" "i1" invoice recorded no_cycle ≡ some c)
    × ◌≢◌ {A = String} c ""
decide_case_id-some_example =
    decide_case_id-some shop "Invoice" "i1" invoice no_cycle recorded i1_given

after_nothing : some "i1" ≡ decide_case_id shop "Invoice" "i1" [] nothing_recorded no_cycle
unfolding decide_case_id text_at get foreign_key_fields parent_case linked_case
after_nothing = refl

decide_case_id_again_example :
    decide_case_id shop "Invoice" "i1" [] (λ _. some "i1") no_cycle
    ≡ decide_case_id shop "Invoice" "i1" [] nothing_recorded no_cycle
decide_case_id_again_example =
    decide_case_id_again shop "Invoice" "i1" [] no_cycle nothing_recorded (λ _. some "i1")
      after_nothing
