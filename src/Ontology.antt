-- ===== src/Ontology.antt =====
-- ontology/model.ts: the domain-event graph of a workflow's model, `successorsOf` and
-- `topologicalOrder`, which `buildOntology` makes from the events that it has validated.
pub mod Numbers
pub mod Cache
pub mod Graph
pub mod Release
pub mod Loop
pub mod Start
pub mod Order
pub mod Schema
mod Tests
use qlerify_live.Prelude.{
  ℕ, zero, suc, String, Bool, true, false, Option, none, some, List, [], ◌∷◌, ◌++◌, map, ◌==◌,
  string_eq, nat_eq, if◌then◌else◌, length, filter, Map, get, put,
}
use qlerify_live.Errors.{Result, ok, throw, Error, other_error}
use Numbers.{ℤ, pos, negsuc, minus_one, is_zero}

pub record ReadModelRef : Type 0 where
  pub name : String
  pub description : Option String

pub record OntologyEvent : Type 0 where
  pub key : String
  pub ref : String
  pub name : String
  pub role : String
  pub aggregate_root : String
  pub bounded_context : String
  pub command_name : String
  pub read_models : List ReadModelRef
  pub acceptance_criteria : List String
  pub predecessors : List String
  pub order : Option ℕ
  pub phase : Option ℕ
  pub derived : Bool
  pub coupled_to : Option String

-- `new Map(events.map((e) => [e.key, value(e)]))`: of two events with one key the later counts.
unfoldable pub index_by {ℓ} :
    {V : Type ℓ} → (OntologyEvent → V) → Map V → List OntologyEvent → Map V
unfolding put
index_by value m [] = m
index_by value m (e ∷ events) = index_by value (put m e.key (value e)) events

unfoldable pub event_by_key : List OntologyEvent → String → Option OntologyEvent
unfolding index_by get
event_by_key events key = get (index_by (λ e. e) [] events) key

abbrev pub list_or_empty : Option (List String) → List String
list_or_empty none = []
list_or_empty (some keys) = keys

-- `successors.get(p)!.push(key)`: `buildOntology` has thrown before for a predecessor that is not an
-- event, so that there is a list to push to.
unfoldable pub add_successors : String → List String → Map (List String) → Map (List String)
unfolding get put
add_successors key [] m = m
add_successors key (p ∷ predecessors) m =
    add_successors key predecessors (put m p (list_or_empty (get m p) ++ key ∷ []))

unfoldable pub link_events : List OntologyEvent → Map (List String) → Map (List String)
unfolding add_successors
link_events [] m = m
link_events (e ∷ events) m = link_events events (add_successors e.key e.predecessors m)

unfoldable pub successors : List OntologyEvent → Map (List String)
unfolding link_events index_by
successors events = link_events events (index_by (λ e. []) [] events)

unfoldable pub successors_of : List OntologyEvent → String → List String
unfolding successors get
successors_of events key = list_or_empty (get (successors events) key)

abbrev pub number_or_zero : Option ℤ → ℤ
number_or_zero none = pos 0
number_or_zero (some n) = n

-- The inner loop: a successor has one predecessor less to wait for, and is queued at none.
unfoldable pub release : List String → Map ℤ → List String → Map ℤ × List String
unfolding get put
release [] indegree queue = (indegree, queue)
release (s ∷ keys) indegree queue =
    let d = minus_one (number_or_zero (get indegree s)) in
    release keys (put indegree s d) (if is_zero d then queue ++ s ∷ [] else queue)

-- The loop of `topologicalOrder`; each round puts one key into the order.
unfoldable pub kahn : List OntologyEvent → ℕ → Map ℤ → List String → List String → List String
unfolding release successors_of
kahn events zero indegree queue order = order
kahn events (suc fuel) indegree [] order = order
kahn events (suc fuel) indegree (k ∷ queue) order =
    let (indegree_after, queue_after) = release (successors_of events k) indegree queue in
    kahn events fuel indegree_after queue_after (order ++ k ∷ [])

unfoldable pub initial_indegree : List OntologyEvent → Map ℤ
unfolding index_by
initial_indegree = index_by (λ e. pos (length e.predecessors)) []

unfoldable pub initial_queue : List OntologyEvent → List String
unfolding filter initial_indegree get
initial_queue events =
    map (λ e. e.key)
      (filter (λ e. is_zero (number_or_zero (get (initial_indegree events) e.key))) events)

unfoldable pub topological_order : List OntologyEvent → Result (List String)
unfolding kahn initial_queue initial_indegree
topological_order events =
    let order = kahn events (length events) (initial_indegree events) (initial_queue events) [] in
    if length order == length events
    then ok order
    else throw (other_error "Qlerify ontology has a cycle in the domain-event `follows` graph")
