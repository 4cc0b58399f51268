-- ===== src/Commands/Updates.antt =====
-- What a generic update leaves as it was.
use qlerify_live.Prelude.{
  if_either, String, Bool, true, false, Option, none, some, List, [], ◌∷◌, ◌≡◌, refl, sym, ap, ◌∙◌,
  ◌==◌, string_eq, if◌then◌else◌, map, Map, get, get-put, arith, eq_iff, ◌||◌, Bool-cases,
  true≢false, eq_of_beq, inl, inr, nat_beq, length,
}
use qlerify_live.Ontology.Schema.{Value, SchemaField}
use qlerify_live.Ontology.Numbers.{ℤ}
use qlerify_live.Projection.{Row, set_row, update, is_current, version_of}
use qlerify_live.Projection.Columns.{get-set_row}
use qlerify_live.Commands.{
  Scene, World, Binding, Outcome, Conversions, change_of, add_change, changes_of, do_update,
  write_changes, settle_update, update_found, update_given, row_changes, table_rows, emit_for,
  with_rows, given_text,
}

-- The column of each row, in the order of the rows.
abbrev pub column : String → List Row → List (Option Value)
column name rows = map (λ r. get r name) rows

-- The columns that no command changes.
abbrev pub fixed : String → Bool
fixed name = name == "id" || name == "status"

change_of-fixed :
    (conv : Conversions) (columns : List SchemaField) (args : Map Value) (f : SchemaField)
    (name : String)
    → fixed name ≡ true
    → (f.name == name) ≡ true
    → change_of conv columns args f ≡ none
unfolding change_of
change_of-fixed conv columns args f name k e = ground (
  arith,
  eq_iff f.name name,
  eq_iff f.name "id",
  eq_iff f.name "status",
  eq_iff name "id",
  eq_iff name "status",
)

get-add_change :
    (changes : Map Value) (n : String) (o : Option Value) (name : String)
    → get changes name ≡ none
    → ((n == name) ≡ true → o ≡ none)
    → get (add_change changes n o) name ≡ none
unfolding add_change
get-add_change changes n none name h k = h
get-add_change changes n (some v) name h k = ground (arith, get-put changes n v name)

get-changes_of :
    (conv : Conversions) (columns : List SchemaField) (args : Map Value) (fields : List SchemaField)
    (changes : Map Value) (name : String)
    → fixed name ≡ true
    → get changes name ≡ none
    → get (changes_of conv columns args fields changes) name ≡ none
unfolding changes_of
get-changes_of conv columns args [] changes name k h = h
get-changes_of conv columns args (f ∷ fields) changes name k h =
    get-changes_of conv columns args fields _ name k (
      get-add_change changes f.name (change_of conv columns args f) name h
        (change_of-fixed conv columns args f name k))

not_fixed :
    (other name : String) → fixed other ≡ false → fixed name ≡ true → (other == name) ≡ false
not_fixed other name h k = elim (Bool-cases (other == name)) [
  | inl e ↦ absurd (true≢false (sym k ∙ (ap fixed (sym (eq_of_beq other name e)) ∙ h)))
  | inr e ↦ e
]

column-set_row :
    (affected : Row → Bool) (now : String) (changes : Map Value) (name : String) (rows : List Row)
    → get changes name ≡ none
    → fixed name ≡ true
    → column name (map (λ r. if affected r then set_row now changes r else r) rows)
      ≡ column name rows
column-set_row affected now changes name [] h k = refl
column-set_row affected now changes name (r ∷ rows) h k =
    let kept =
      get-set_row now changes r name h (not_fixed "version" name refl k)
        (not_fixed "updatedAt" name refl k) in
    ground (arith, kept, column-set_row affected now changes name rows h k)

column-update :
    (org_id now : String) (rows : List Row) (id : String) (changes : Map Value) (version : ℤ)
    (name : String) (after : List Row) (row : Option Row)
    → get changes name ≡ none
    → fixed name ≡ true
    → update org_id now rows id changes version ≡ some (after, row)
    → column name after ≡ column name rows
unfolding update
column-update org_id now rows id changes version name after row h k e =
    ground (arith, column-set_row (is_current org_id id version) now changes name rows h k)

module _ (world : World) (b : Binding) (args : Map Value) (role : String) (name : String) where
  -- The column is the same after the outcome.
  abbrev KeptBy : Outcome Row → Type 0
  KeptBy outcome =
      column name (table_rows outcome.0 b.aggregate) ≡ column name (table_rows world b.aggregate)

  table_rows-with_rows :
      (rows : List Row) → table_rows (with_rows world b.aggregate rows) b.aggregate ≡ rows
  unfolding table_rows
  table_rows-with_rows rows = ground (
    arith,
    get-put world.tables b.aggregate.name rows b.aggregate.name,
    eq_iff b.aggregate.name b.aggregate.name,
  )

  emit_for-kept :
      (w : World) (row : Option Row)
      → column name (table_rows w b.aggregate) ≡ column name (table_rows world b.aggregate)
      → KeptBy (emit_for w b args role row)
  unfolding emit_for table_rows
  emit_for-kept w none h = h
  emit_for-kept w (some row) h = h

  settle_update-kept :
      (id : String) (r : Option (List Row × Option Row))
      → ((after : List Row) (row : Option Row)
          → r ≡ some (after, row)
          → column name after ≡ column name (table_rows world b.aggregate))
      → KeptBy (settle_update world b args role id r)
  unfolding settle_update
  settle_update-kept id none h = refl
  settle_update-kept id (some (after, row)) h =
      emit_for-kept (with_rows world b.aggregate after) row
        (ap (column name) (table_rows-with_rows after) ∙ h after row refl)

  update_found-kept :
      (scene : Scene) (id : String) (found : Option Row)
      → fixed name ≡ true
      → KeptBy (update_found scene world b args role id found)
  unfolding update_found write_changes row_changes
  update_found-kept scene id none k = refl
  update_found-kept scene id (some row) k =
      if_either KeptBy (nat_beq (length (row_changes scene b args)) 0) _ _
        (emit_for-kept world (some row) refl)
        (settle_update-kept id _ (λ after row' e.
          column-update scene.org_id scene.now (table_rows world b.aggregate) id
            (row_changes scene b args) (version_of row) name after row'
            (get-changes_of scene.conv b.aggregate.fields args _ [] name k refl) k e))

  update_given-kept :
      (scene : Scene) (id : Option String)
      → fixed name ≡ true
      → KeptBy (update_given scene world b args role id)
  unfolding update_given
  update_given-kept scene none k = refl
  update_given-kept scene (some id) k = update_found-kept scene id _ k

-- A generic update, whatever it ends in, leaves the id and the status of every row of the table as they
-- were, and the rows in their order.
pub do_update-column :
    (scene : Scene) (world : World) (b : Binding) (args : Map Value) (role name : String)
    → fixed name ≡ true
    → column name (table_rows (do_update scene world b args role).0 b.aggregate)
      ≡ column name (table_rows world b.aggregate)
unfolding do_update
do_update-column scene world b args role name k =
    update_given-kept world b args role name scene (given_text (get args "id")) k
