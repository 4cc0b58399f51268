-- ===== src/Commands/Values.antt =====
-- src/commands/base.ts: the value of each column of a row, coerced to the column's type.
use qlerify_live.Prelude.{
  String, Bool, true, false, ◌&&◌, ◌||◌, not, Option, none, some, List, [], ◌∷◌, ◌++◌, ◌==◌,
  string_eq, if◌then◌else◌, has, Map, get, put, head?,
}
use qlerify_live.Ontology.Numbers.{ℤ}
use qlerify_live.Period.{codes, text_beq}
use qlerify_live.Correlation.{to_lower}
use qlerify_live.Ontology.Schema.{SchemaField, Value, undefined, boolean, number, text, object}

-- JavaScript's conversions: `Number(raw)`, where it is finite, and `String(raw)`.
pub record Conversions : Type 0 where
  pub number_of : Value → Option ℤ
  pub string_of : Value → String

-- Present and not `undefined`.
abbrev pub provided : Option Value → Bool
provided none = false
provided (some undefined) = false
provided (some _) = true

abbrev pub is_true : Value → Bool
is_true (boolean b) = b
is_true (text s) = s == "true" || s == "1"
is_true _ = false

abbrev pub json_of : Conversions → Value → Value
json_of conv (text s) = text s
json_of conv (object s) = text s
json_of conv v = text (conv.string_of v)

abbrev number_value : Option ℤ → Option Value
number_value none = none
number_value (some n) = some (number n)

-- `(dataType ?? "string").toLowerCase()` is the name, where both are ASCII.
abbrev is_type : Option String → String → Bool
is_type none name = name == "string"
is_type (some t) name = text_beq (to_lower (codes t)) (codes name)

-- `coerce`; nothing stands for `ok: false`. Numbers are whole, so that `Math.trunc` changes none.
unfoldable pub coerce : Conversions → Value → Option String → Option Value
coerce conv raw t =
    if is_type t "number" || is_type t "integer" || is_type t "float" || is_type t "decimal"
    then number_value (conv.number_of raw)
    else if is_type t "boolean"
    then some (boolean (is_true raw))
    else if is_type t "object"
    then some (json_of conv raw)
    else some (text (conv.string_of raw))

-- What one field adds to a new row: a value, nothing, or its name to those that cannot be filled.
pub data Fill : Type 0 where
  fill : Value → Fill
  leave_out unfillable : Fill

abbrev pub fill_with : Bool → Option Value → Fill
fill_with required (some v) = fill v
fill_with required none = if required then unfillable else leave_out

-- The first of the example columns, coerced.
unfoldable pub example_value : Conversions → SchemaField → Option Value
unfolding coerce
example_value conv f = elim (head? f.example_data) [
  | none ↦ none
  | some ex ↦ (if provided (some ex) then coerce conv ex f.data_type else none)
]

abbrev pub platform : List String
platform = "version" ∷ "createdAt" ∷ "updatedAt" ∷ []

abbrev pub value_or_undefined : Option Value → Value
value_or_undefined none = undefined
value_or_undefined (some v) = v

unfoldable pub fill_field : Conversions → List String → String → Map Value → SchemaField → Fill
unfolding coerce example_value get has
fill_field conv required id args f =
    let arg = get args f.name in
    let needed = has required f.name in
    if f.name == "id"
    then fill (text id)
    else if f.name == "status" && not (provided arg)
    then fill_with needed (example_value conv f)
    else if provided arg
    then fill_with needed (coerce conv (value_or_undefined arg) f.data_type)
    else if needed && not (has platform f.name)
    then fill_with true (example_value conv f)
    else leave_out

unfoldable pub fill_column : Map Value → String → Fill → Map Value
unfolding put
fill_column columns name (fill v) = put columns name v
fill_column columns name leave_out = columns
fill_column columns name unfillable = columns

unfoldable pub note_missing : List String → String → Fill → List String
note_missing missing name (fill v) = missing
note_missing missing name leave_out = missing
note_missing missing name unfillable = missing ++ name ∷ []

-- The columns of a new row, and the names of the fields that cannot be filled.
unfoldable pub fill_row :
    Conversions
    → List String
    → String
    → Map Value
    → List SchemaField
    → Map Value
    → List String
    → Map Value × List String
unfolding fill_field fill_column note_missing
fill_row conv required id args [] columns missing = (columns, missing)
fill_row conv required id args (f ∷ fields) columns missing =
    let filled = fill_field conv required id args f in
    fill_row conv required id args fields (fill_column columns f.name filled)
      (note_missing missing f.name filled)

-- The type of a column: of two fields with one name the later counts.
unfoldable pub column_type : List SchemaField → String → Option (Option String)
column_type [] name = none
column_type (f ∷ fields) name =
    let rest = column_type fields name in
    elim rest [ some t ↦ some t | none ↦ (if f.name == name then some f.data_type else none) ]

-- The change that one field of the command makes: never to the id or to the status.
unfoldable pub change_of : Conversions → List SchemaField → Map Value → SchemaField → Option Value
unfolding column_type coerce get
change_of conv columns args f =
    if f.name == "id" || f.name == "status" || not (provided (get args f.name))
    then none
    else elim (column_type columns f.name) [
      | none ↦ none
      | some t ↦ coerce conv (value_or_undefined (get args f.name)) t
    ]

unfoldable pub add_change : Map Value → String → Option Value → Map Value
unfolding put
add_change changes name none = changes
add_change changes name (some v) = put changes name v

unfoldable pub changes_of :
    Conversions → List SchemaField → Map Value → List SchemaField → Map Value → Map Value
unfolding add_change change_of
changes_of conv columns args [] changes = changes
changes_of conv columns args (f ∷ fields) changes =
    changes_of conv columns args fields (add_change changes f.name (change_of conv columns args f))
