-- ===== src/NextActions.antt =====
-- twin/next-actions.ts: the frontier of a case in `planNextActions`, which events can happen next.
-- The sentence, the dates and the sorting of an action are left out.
pub mod Sweep
pub mod Walk
pub mod Frontier
mod Tests
use qlerify_live.Prelude.{
  ℕ, zero, suc, String, Bool, true, false, Option, none, some, List, [], ◌∷◌, ◌++◌, ◌==◌, ◌&&◌,
  ◌||◌, not, string_eq, if◌then◌else◌, length, has, any, Map, get, put, template,
}
use qlerify_live.Ontology.{OntologyEvent, event_by_key, successors_of}

pub data NextActionReason : Type 0 where
  start ready : NextActionReason

abbrev pub or_false : Option Bool → Bool
or_false none = false
or_false (some b) = b

abbrev pub ref_or : String → Option OntologyEvent → String
ref_or key none = template ("#/domainEvents/" ∷ key ∷ [])
ref_or key (some e) = e.ref

abbrev pub is_given : Option String → Bool
is_given none = false
is_given (some key) = not (key == "")

-- One turn of the walk along `coupledTo`: the event itself has fired, or the walk goes on from it.
abbrev pub fired_or :
    List String → (Option String → Option Bool) → Option OntologyEvent → Option Bool
unfolding has
fired_or fired walk none = walk none
fired_or fired walk (some e) =
    let rest = walk e.coupled_to in if has fired e.ref then some true else rest

-- A step has a command and is not coupled to another event.
unfoldable pub is_step : OntologyEvent → Bool
is_step e = not (e.command_name == "") && not (is_given e.coupled_to)

-- The last check: a first event on a case where nothing has fired, or a predecessor that has.
unfoldable by_predecessors : (String → Bool) → List String → List String → Option NextActionReason
unfolding any
by_predecessors satisfied [] [] = some start
by_predecessors satisfied (f ∷ fired) [] = none
by_predecessors satisfied fired (p ∷ ps) = if any satisfied (p ∷ ps) then some ready else none

module _ (events : List OntologyEvent) where
  unfoldable pub ref_of : String → String
  unfolding event_by_key template
  ref_of key = ref_or key (event_by_key events key)

  -- The walk along `coupledTo`, which stops at an event that it has seen; `next` is the key to go to.
  -- It is none where it runs out of rounds.
  unfoldable pub satisfied_along : List String → ℕ → List String → Option String → Option Bool
  unfolding event_by_key fired_or has
  satisfied_along fired zero seen next = none
  satisfied_along fired (suc fuel) seen none = some false
  satisfied_along fired (suc fuel) seen (some k) =
      let rest =
        fired_or fired (satisfied_along fired fuel (seen ++ k ∷ [])) (event_by_key events k) in
      if k == "" || has seen k then some false else rest

  -- There is one round for each event and two more, so that it is never out of rounds.
  unfoldable pub pred_satisfied : List String → String → Bool
  unfolding satisfied_along
  pred_satisfied fired key =
      or_false (satisfied_along fired (suc (suc (length events))) [] (some key))

  abbrev hit : List String → Map Bool → String → Bool
  unfolding any has ref_of get
  hit fired descendant_fired s = has fired (ref_of s) || or_false (get descendant_fired s)

  -- The sweep over the topological order from its end: has some transitive successor fired?
  unfoldable pub sweep : List String → List String → Map Bool
  unfolding hit successors_of put any
  sweep fired [] = []
  sweep fired (key ∷ topo) =
      let descendant_fired = sweep fired topo in
      put descendant_fired key (any (hit fired descendant_fired) (successors_of events key))

  -- The checks on one event of the order, in their order.
  unfoldable pub reason_of : List String → Map Bool → OntologyEvent → Option NextActionReason
  unfolding is_step has by_predecessors pred_satisfied get
  reason_of fired descendant_fired e =
      if not (is_step e)
      then none
      else if has fired e.ref
      then none
      else if or_false (get descendant_fired e.key)
      then none
      else by_predecessors (pred_satisfied fired) fired e.predecessors

  abbrev push_action :
      OntologyEvent
      → Option NextActionReason
      → List (OntologyEvent × NextActionReason)
      → List (OntologyEvent × NextActionReason)
  push_action e none rest = rest
  push_action e (some reason) rest = (e, reason) ∷ rest

  abbrev push_key :
      List String
      → Map Bool
      → Option OntologyEvent
      → List (OntologyEvent × NextActionReason)
      → List (OntologyEvent × NextActionReason)
  unfolding reason_of
  push_key fired descendant_fired none rest = rest
  push_key fired descendant_fired (some e) rest =
      push_action e (reason_of fired descendant_fired e) rest

  -- The loop over the topological order: an event that is ready goes into the output.
  unfoldable pub collect_ready :
      List String → Map Bool → List String → List (OntologyEvent × NextActionReason)
  unfolding push_key event_by_key
  collect_ready fired descendant_fired [] = []
  collect_ready fired descendant_fired (key ∷ topo) =
      push_key fired descendant_fired (event_by_key events key)
        (collect_ready fired descendant_fired topo)

  -- The events of a case that can happen next, with the reason, in the order of the model.
  unfoldable pub frontier : List String → List String → List (OntologyEvent × NextActionReason)
  unfolding collect_ready sweep
  frontier topo fired = collect_ready fired (sweep fired topo) topo
