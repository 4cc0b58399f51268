-- ===== src/Connectors/Journal.antt =====
-- src/packs/connector/journal.ts: the doc of a connector with its notes. The files are a map from ids.
use qlerify_live.Prelude.{
  ℕ, zero, suc, ◌+◌, ◌-◌, ◌≤◌, String, Bool, true, false, Option, none, some, List, [], ◌∷◌, ◌++◌,
  ◌≡◌, refl, if◌then◌else◌, ltb, length, length-append, Map, get, put, arith, Memᴰ,
  mem-append_right, string_eq,
}

abbrev pub max_notes : ℕ
max_notes = 100

pub record ConnectorNote : Type 0 where
  pub at : String
  pub kind : String
  pub text : String
  pub duration_ms : Option ℕ

pub record Facets : Type 0 where
  pub filters : List String
  pub incremental : Option String

pub record ConnectorDoc : Type 0 where
  pub id : String
  pub summary : Option String
  pub facets : Option Facets
  pub notes : List ConnectorNote
  pub updated_at : String

abbrev pub drop {ℓ} : {A : Type ℓ} → ℕ → List A → List A
drop zero xs = xs
drop (suc n) [] = []
drop (suc n) (x ∷ xs) = drop n xs

-- `notes.slice(-MAX_NOTES)`, if there are more.
unfoldable pub bounded : List ConnectorNote → List ConnectorNote
bounded notes =
    if ltb max_notes (length notes) then drop (length notes - max_notes) notes else notes

abbrev doc_or_new : String → Option ConnectorDoc → ConnectorDoc
doc_or_new id none = record { id = id; summary = none; facets = none; notes = []; updated_at = "" }
doc_or_new id (some doc) = doc

-- The duration, where one is given, is a number of whole milliseconds.
unfoldable pub append_note :
    Map ConnectorDoc
    → String
    → String
    → String
    → String
    → Option ℕ
    → Map ConnectorDoc × ConnectorDoc
unfolding bounded get put
append_note docs now id kind text duration =
    let doc = doc_or_new id (get docs id) in
    let note : ConnectorNote = record {
      at = now;
      kind = kind;
      text = text;
      duration_ms = duration;
    } in
    let after : ConnectorDoc = record doc {
      notes = bounded (doc.notes ++ note ∷ []);
      updated_at = now;
    } in
    (put docs doc.id after, after)

length-drop :
    {A : Type 0} (n : ℕ) (xs : List A) → n ≤ length xs → length (drop n xs) + n ≡ length xs
length-drop zero xs h = omega arith
length-drop (suc n) [] h = absurd (omega arith)
length-drop (suc n) (x ∷ xs) h = omega (arith, length-drop n xs (omega arith))

length-bounded : (notes : List ConnectorNote) → length (bounded notes) ≤ max_notes
unfolding bounded
length-bounded notes = ground (arith, length-drop (length notes - max_notes) notes)

drop-last :
    {A : Type 0} (n : ℕ) (xs : List A) (x : A) → n ≤ length xs → Memᴰ x (drop n (xs ++ x ∷ []))
drop-last zero xs x h = mem-append_right xs (Memᴰ.head refl)
drop-last (suc n) [] x h = absurd (omega arith)
drop-last (suc n) (y ∷ xs) x h = drop-last n xs x (omega arith)

if_member :
    {A : Type 0} {x : A} {xs ys : List A} (b : Bool)
    → Memᴰ x xs
    → Memᴰ x ys
    → Memᴰ x (if b then xs else ys)
if_member true m n = m
if_member false m n = n

bounded-last : (notes : List ConnectorNote) (x : ConnectorNote) → Memᴰ x (bounded (notes ++ x ∷ []))
unfolding bounded
bounded-last notes x =
    if_member (ltb max_notes (length (notes ++ x ∷ [])))
      (drop-last (length (notes ++ x ∷ []) - max_notes) notes x
        (omega (arith, length-append notes (x ∷ []))))
      (mem-append_right notes (Memᴰ.head refl))

-- However many notes a doc had, after a note is appended it has at most a hundred, and the new one is
-- among them.
pub append_note-bound :
    (docs : Map ConnectorDoc) (now id kind text : String) (duration : Option ℕ)
    → (length (append_note docs now id kind text duration).1.notes ≤ max_notes)
      × Memᴰ
          (record { at = now; kind = kind; text = text; duration_ms = duration })
          (append_note docs now id kind text duration).1.notes
unfolding append_note
append_note-bound docs now id kind text duration =
    let old = (doc_or_new id (get docs id)).notes in
    let note : ConnectorNote = record {
      at = now;
      kind = kind;
      text = text;
      duration_ms = duration;
    } in
    (length-bounded (old ++ note ∷ []), bounded-last old note)
