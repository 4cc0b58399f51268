-- ===== src/Ontology/Tests.antt =====
-- Runs of the graph functions, and the uses of their theorems at concrete inputs.
use qlerify_live.Prelude.{String, ◌≡◌, refl, List, [], ◌∷◌, none, false}
use qlerify_live.Errors.{ok, throw, other_error}
use qlerify_live.Prelude.{has, any, string_eq}
use qlerify_live.Prelude.Distinct.{Distinct}
use qlerify_live.Prelude.{some, get, length, ◌≤◌}
use qlerify_live.Ontology.Cache.{
  BoundModel, workflow_content_max, set_workflow_model, set_workflow_model-bound,
}
use qlerify_live.Ontology.Loop.{keys_of}
use qlerify_live.Ontology.Order.{IsOrder, topological_order-IsOrder, topological_order-total}
use qlerify_live.Ontology.{OntologyEvent, topological_order, successors_of}

abbrev event : String → List String → OntologyEvent
event key predecessors = record {
  key = key;
  ref = key;
  name = key;
  role = "Sales";
  aggregate_root = "Order";
  bounded_context = "Shop";
  command_name = "Do";
  read_models = [];
  acceptance_criteria = [];
  predecessors = predecessors;
  order = none;
  phase = none;
  derived = false;
  coupled_to = none;
}

abbrev shop : List OntologyEvent
shop =
    event "Paid" ("Placed" ∷ "Checked" ∷ [])
    ∷ event "Placed" []
    ∷ event "Checked" ("Placed" ∷ [])
    ∷ event "Sent" ("Paid" ∷ [])
    ∷ []

abbrev shop_order : List String
shop_order = "Placed" ∷ "Checked" ∷ "Paid" ∷ "Sent" ∷ []

successors_of-shop : successors_of shop "Placed" ≡ "Paid" ∷ "Checked" ∷ []
unfolding successors_of
successors_of-shop = refl

topological_order-shop : topological_order shop ≡ ok shop_order
unfolding topological_order
topological_order-shop = refl

shop_unique : Distinct (keys_of shop)
unfolding has any
shop_unique = (refl, (refl, (refl, (refl, tt))))

topological_order-IsOrder_example : IsOrder shop shop_order × Distinct shop_order
topological_order-IsOrder_example =
    topological_order-IsOrder shop shop_unique shop_order topological_order-shop

topological_order-total_example : (order : List String) × (topological_order shop ≡ ok order)
topological_order-total_example =
    topological_order-total shop shop_unique shop_order
      (topological_order-IsOrder shop shop_unique shop_order topological_order-shop).0

-- Two contexts that declare one key, with a predecessor: the graph has no cycle, and is refused.
duplicate_key :
    topological_order
      (event "Placed" [] ∷ event "Paid" ("Placed" ∷ []) ∷ event "Paid" ("Placed" ∷ []) ∷ [])
    ≡ throw (other_error "Qlerify ontology has a cycle in the domain-event `follows` graph")
unfolding topological_order
duplicate_key = refl

abbrev model_of : String → BoundModel
model_of hash = record { workflow = "{}"; overlay = none; hash = hash }

set_workflow_model-bound_example :
    (get (set_workflow_model "w1" (model_of "h2") (("w1", model_of "h1") ∷ [])) "w1"
      ≡ some (model_of "h2"))
    × (length (set_workflow_model "w1" (model_of "h2") (("w1", model_of "h1") ∷ []))
        ≤ workflow_content_max)
set_workflow_model-bound_example =
    set_workflow_model-bound "w1" (model_of "h2") (("w1", model_of "h1") ∷ [])
