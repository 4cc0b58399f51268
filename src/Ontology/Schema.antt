-- ===== src/Ontology/Schema.antt =====
-- src/ontology/model.ts: the schemas of entities and commands, and the part of a loaded model that its
-- readers look things up in.
use qlerify_live.Prelude.{String, Bool, Option, List, [], ◌∷◌, Map, get, put}
use qlerify_live.Ontology.{OntologyEvent}
use qlerify_live.Ontology.Numbers.{ℤ}

-- A JSON value as the program tells them apart: numbers are whole, and an object is its JSON text.
pub data Value : Type 0 where
  undefined null : Value
  boolean : Bool → Value
  number : ℤ → Value
  text object : String → Value

pub record SchemaField : Type 0 where
  pub name : String
  pub data_type : Option String
  pub example_data : List Value
  pub related_entity : Option String

pub record CommandSchema : Type 0 where
  pub name : String
  pub required : List String
  pub fields : List SchemaField

pub record EntitySchema : Type 0 where
  pub name : String
  pub required : List String
  pub fields : List SchemaField
  pub key : Option (List String)

-- `new Map(items.map((x) => [x.name, x]))`: of two items with one name the later counts.
unfoldable pub by_name {ℓ} : {A : Type ℓ} → (A → String) → Map A → List A → Map A
unfolding put
by_name name_of m [] = m
by_name name_of m (x ∷ xs) = by_name name_of (put m (name_of x) x) xs

pub record Model : Type 0 where
  pub root_aggregate : String
  pub events : List OntologyEvent
  pub commands : List CommandSchema
  pub entities : List EntitySchema

unfoldable pub entity : Model → String → Option EntitySchema
unfolding by_name get
entity ont name = get (by_name (λ e. e.name) [] ont.entities) name

unfoldable pub command : Model → String → Option CommandSchema
unfolding by_name get
command ont name = get (by_name (λ c. c.name) [] ont.commands) name
