-- ===== src/NextActions/Tests.antt =====
-- The frontier of cases of a small shop, and the uses of the theorems at concrete inputs.
use qlerify_live.Prelude.{
  suc, String, ◌≡◌, refl, ◌↔◌, true, false, Option, none, some, List, [], ◌∷◌, Memᴰ, has, any,
  string_eq, length, map,
}
use qlerify_live.Errors.{ok}
use qlerify_live.Prelude.Distinct.{Distinct}
use qlerify_live.Ontology.{OntologyEvent, topological_order}
use qlerify_live.Ontology.Loop.{keys_of}
use qlerify_live.NextActions.{ready, frontier, satisfied_along, pred_satisfied}
use qlerify_live.NextActions.Walk.{AnchorFired, pred_satisfied_iff}
use qlerify_live.NextActions.Frontier.{IsNext, frontier_iff}

abbrev event : String → List String → Option String → OntologyEvent
event key predecessors coupled_to = record {
  key = key;
  ref = key;
  name = key;
  role = "Clerk";
  aggregate_root = "Cart";
  bounded_context = "Web";
  command_name = "Act";
  read_models = [];
  acceptance_criteria = [];
  predecessors = predecessors;
  order = none;
  phase = none;
  derived = false;
  coupled_to = coupled_to;
}

abbrev checked : OntologyEvent
checked = event "Checked" ("Stamped" ∷ []) none

-- An order is stamped together with its placing, then checked or cancelled, and sent.
abbrev shop : List OntologyEvent
shop =
    event "Placed" [] none
    ∷ event "Stamped" ("Placed" ∷ []) (some "Placed")
    ∷ checked
    ∷ event "Cancelled" ("Stamped" ∷ []) none
    ∷ event "Sent" ("Checked" ∷ []) none
    ∷ []

abbrev topo : List String
topo = "Placed" ∷ "Stamped" ∷ "Checked" ∷ "Cancelled" ∷ "Sent" ∷ []

offered : List String → List String
unfolding frontier
offered fired = map (λ p. p.0.key) (frontier shop topo fired)

offered_keys :
    (offered [] ≡ "Placed" ∷ [])
    × (offered ("Placed" ∷ []) ≡ "Checked" ∷ "Cancelled" ∷ [])
    × (offered ("Placed" ∷ "Checked" ∷ []) ≡ "Cancelled" ∷ "Sent" ∷ [])
    × (offered ("Sent" ∷ []) ≡ [])
unfolding offered
offered_keys = (refl, refl, refl, refl)

shop_order : topological_order shop ≡ ok topo
unfolding topological_order
shop_order = refl

shop_unique : Distinct (keys_of shop)
unfolding has any
shop_unique = (refl, (refl, (refl, (refl, (refl, tt)))))

frontier_iff_example :
    Memᴰ (checked, ready) (frontier shop topo ("Placed" ∷ []))
    ↔ IsNext shop ("Placed" ∷ []) checked ready
frontier_iff_example = frontier_iff shop topo ("Placed" ∷ []) checked ready shop_unique shop_order

-- Two events that are coupled to each other: the walk stops.
abbrev circle : List OntologyEvent
circle = event "Left" [] (some "Right") ∷ event "Right" [] (some "Left") ∷ []

circle_stops :
    (satisfied_along circle [] 4 [] (some "Left") ≡ some false)
    × (satisfied_along circle ("Right" ∷ []) 4 [] (some "Left") ≡ some true)
unfolding satisfied_along
circle_stops = (refl, refl)

pred_satisfied_iff_example :
    (satisfied_along shop ("Placed" ∷ []) (suc (suc (length shop))) [] (some "Stamped")
      ≡ some (pred_satisfied shop ("Placed" ∷ []) "Stamped"))
    × ((pred_satisfied shop ("Placed" ∷ []) "Stamped" ≡ true)
        ↔ AnchorFired shop ("Placed" ∷ []) (some "Stamped"))
pred_satisfied_iff_example = pred_satisfied_iff shop ("Placed" ∷ []) "Stamped"
