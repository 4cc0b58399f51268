-- ===== src/Commands/Creation.antt =====
-- A generic create fills every required column.
use qlerify_live.Prelude.{
  if_either, String, Bool, true, false, Option, none, some, List, [], ◌∷◌, ◌++◌, ◌≡◌, refl, sym, ap,
  subst, ◌∙◌, ◌==◌, string_eq, if◌then◌else◌, Map, get, put, get-put, arith, eq_iff, has, Memᴰ, not,
  ◌&&◌,
}
use qlerify_live.Ontology.Schema.{Value, SchemaField}
use qlerify_live.Commands.{
  Conversions, Fill, fill, leave_out, unfillable, fill_field, fill_with, fill_column, note_missing,
  fill_row, platform, provided,
}

-- The column has a value.
abbrev pub IsFilled : String → Map Value → Type 0
IsFilled name columns = (v : Value) × (get columns name ≡ some v)

IsFilled-if :
    (m : Map Value) (name : String) (b : Bool) (v w : Value)
    → get m name ≡ (if b then some v else some w)
    → IsFilled name m
IsFilled-if m name true v w h = (v, h)
IsFilled-if m name false v w h = (w, h)

IsFilled-put :
    (columns : Map Value) (key : String) (v : Value) (name : String)
    → IsFilled name columns
    → IsFilled name (put columns key v)
IsFilled-put columns key v name (w, h) =
    IsFilled-if (put columns key v) name (key == name) v w
      (get-put columns key v name ∙ ap (λ o. if key == name then some v else o) h)

IsFilled-put_self :
    (columns : Map Value) (key : String) (v : Value) → IsFilled key (put columns key v)
IsFilled-put_self columns key v = (v, ground (arith, get-put columns key v key, eq_iff key key))

IsFilled-fill_column :
    (columns : Map Value) (key : String) (filled : Fill) (name : String)
    → IsFilled name columns
    → IsFilled name (fill_column columns key filled)
unfolding fill_column
IsFilled-fill_column columns key (fill v) name h = IsFilled-put columns key v name h
IsFilled-fill_column columns key leave_out name h = h
IsFilled-fill_column columns key unfillable name h = h

append-ne-nil : (xs : List String) (x : String) → ¬ (xs ++ x ∷ [] ≡ [])
append-ne-nil [] x h = cc
append-ne-nil (y ∷ xs) x h = cc

note_missing-nil :
    (missing : List String) (name : String) (filled : Fill)
    → note_missing missing name filled ≡ []
    → (missing ≡ []) × ¬ (filled ≡ unfillable)
unfolding note_missing
note_missing-nil missing name (fill v) h = (h, λ q. cc)
note_missing-nil missing name leave_out h = (h, λ q. cc)
note_missing-nil missing name unfillable h = absurd (append-ne-nil missing name h)

abbrev IsUsed : Fill → Type 0
IsUsed filled = ¬ (filled ≡ leave_out)

used : (needed : Bool) (o : Option Value) → needed ≡ true → IsUsed (fill_with needed o)
used needed (some v) h q = cc
used true none h q = cc
used false none h q = cc

last :
    (needed of_platform : Bool) (o : Option Value)
    → needed ≡ true
    → of_platform ≡ false
    → IsUsed (if needed && not of_platform then fill_with true o else leave_out)
last true false o h k = used true o refl
last true true o h k = cc
last false of_platform o h k = cc

module _ (conv : Conversions) (required : List String) (id : String) (args : Map Value) where
  fill_row_mono :
      (fields : List SchemaField) (columns : Map Value) (missing : List String) (name : String)
      → IsFilled name columns
      → IsFilled name (fill_row conv required id args fields columns missing).0
  unfolding fill_row
  fill_row_mono [] columns missing name h = h
  fill_row_mono (f ∷ fields) columns missing name h =
      fill_row_mono fields _ _ name (IsFilled-fill_column columns f.name _ name h)

  none_missing :
      (fields : List SchemaField) (columns : Map Value) (missing : List String)
      → (fill_row conv required id args fields columns missing).1 ≡ []
      → missing ≡ []
  unfolding fill_row
  none_missing [] columns missing h = h
  none_missing (f ∷ fields) columns missing h =
      (note_missing-nil missing f.name _ (none_missing fields _ _ h)).0

  -- A required field is never left out.
  fill_field-required :
      (f : SchemaField)
      → has required f.name ≡ true
      → has platform f.name ≡ false
      → ¬ (fill_field conv required id args f ≡ leave_out)
  unfolding fill_field
  fill_field-required f h k =
      if_either IsUsed (f.name == "id") _ _ (λ q. cc)
        (if_either IsUsed (f.name == "status" && not (provided (get args f.name))) _ _ (used _ _ h)
          (if_either IsUsed (provided (get args f.name)) _ _ (used _ _ h)
            (last (has required f.name) (has platform f.name) _ h k)))

  IsFilled-column :
      (columns : Map Value) (name : String) (filled : Fill)
      → ¬ (filled ≡ leave_out)
      → ¬ (filled ≡ unfillable)
      → IsFilled name (fill_column columns name filled)
  unfolding fill_column
  IsFilled-column columns name (fill v) h k = IsFilled-put_self columns name v
  IsFilled-column columns name leave_out h k = absurd (h refl)
  IsFilled-column columns name unfillable h k = absurd (k refl)

  -- Where no field is missing, every required column but the platform's has a value.
  pub fill_row-IsFilled :
      (fields : List SchemaField) (columns : Map Value) (missing : List String)
      → (fill_row conv required id args fields columns missing).1 ≡ []
      → (f : SchemaField) → Memᴰ f fields
      → has required f.name ≡ true
      → has platform f.name ≡ false
      → IsFilled f.name (fill_row conv required id args fields columns missing).0
  unfolding fill_row
  fill_row-IsFilled [] columns missing h f m r p = elim m [ ]
  fill_row-IsFilled (g ∷ fields) columns missing h f (Memᴰ.head e) r p =
      let filled = fill_field conv required id args g in
      let needed =
        fill_field-required g (ap (λ z. has required z.name) (sym e) ∙ r)
          (ap (λ z. has platform z.name) (sym e) ∙ p) in
      let found = note_missing-nil missing g.name filled (none_missing fields _ _ h) in
      fill_row_mono fields _ _ f.name (
        subst (λ z. IsFilled z (fill_column columns g.name filled)) (ap (λ z. z.name) (sym e))
          (IsFilled-column columns g.name filled needed found.1))
  fill_row-IsFilled (g ∷ fields) columns missing h f (Memᴰ.tail m) r p =
      fill_row-IsFilled fields _ _ h f m r p
