-- ===== src/Projection.antt =====
-- src/twin/projection-store.ts: the rows of the projection tables in one workflow's namespace, with the
-- row operations `findById`, `insert` and `update`. A row is the columns that are not NULL; the
-- namespace, the identifiers' quoting and the other queries are left out.
pub mod Columns
use qlerify_live.Prelude.{
  ℕ, zero, suc, String, Bool, true, false, ◌&&◌, ◌||◌, not, Option, none, some, List, [], ◌∷◌, ◌++◌,
  ◌==◌, string_eq, nat_eq, if◌then◌else◌, has, map, find, any, Map, get, put,
}
use qlerify_live.Ontology.Numbers.{ℤ, pos, negsuc}
use qlerify_live.Ontology.Schema.{Value, undefined, null, boolean, number, text, object}

abbrev pub Row : Type 0
Row = Map Value

abbrev pub is_text : String → Option Value → Bool
is_text s (some (text t)) = t == s
is_text s _ = false

-- `row[name] !== null && row[name] !== undefined`.
abbrev pub is_set : Option Value → Bool
is_set none = false
is_set (some undefined) = false
is_set (some null) = false
is_set (some _) = true

-- The row that the `WHERE` of an organisation's lookup by id picks.
unfoldable pub is_row : String → String → Row → Bool
unfolding get
is_row org_id id row = is_text id (get row "id") && is_text org_id (get row "organization_id")

unfoldable pub find_by_id : String → List Row → String → Option Row
unfolding is_row find
find_by_id org_id rows id = find (is_row org_id id) rows

abbrev pub sql_value : Value → Value
sql_value (boolean true) = number (pos 1)
sql_value (boolean false) = number (pos 0)
sql_value undefined = null
sql_value v = v

-- `{ ...base, ...columns }`, each value as it is written.
unfoldable pub spread : Map Value → Map Value → Map Value
unfolding put
spread base [] = base
spread base ((name, v) ∷ columns) = spread (put base name (sql_value v)) columns

-- The columns of a new row; the owner is stamped unless the data names one.
unfoldable pub full_row : String → String → Map Value → Row
unfolding spread get put
full_row org_id now columns =
    let full =
      spread (("version", number (pos 0)) ∷ ("createdAt", text now) ∷ ("updatedAt", text now) ∷ [])
        columns in
    if is_set (get full "organization_id") then full else put full "organization_id" (text org_id)

-- `String(full.id)`, for an id that is a text or missing.
abbrev pub id_text : Option Value → String
id_text (some (text id)) = id
id_text (some null) = "null"
id_text _ = "undefined"

pub data Inserted : Type 0 where
  unique_constraint : Inserted
  inserted : List Row → Option Row → Inserted

-- The primary key spans all organisations; SQLite lets it be NULL. The row is then read again.
unfoldable pub insert : String → String → List Row → Map Value → Inserted
unfolding full_row find_by_id any get
insert org_id now rows columns =
    let full = full_row org_id now columns in
    let after = rows ++ full ∷ [] in
    if is_set (get full "id") && any (λ r. is_text (id_text (get full "id")) (get r "id")) rows
    then unique_constraint
    else inserted after (find_by_id org_id after (id_text (get full "id")))

-- `Number(row.version ?? 0)`.
abbrev pub version_of : Row → ℤ
unfolding get
version_of row = elim (get row "version") [
  | none ↦ pos 0
  | some v ↦ elim v [ number n ↦ n | _ ↦ pos 0 ]
]

abbrev pub next_version : ℤ → ℤ
next_version (pos n) = pos (suc n)
next_version (negsuc zero) = pos 0
next_version (negsuc (suc n)) = negsuc n

abbrev pub same_version : ℤ → ℤ → Bool
same_version (pos m) (pos n) = m == n
same_version (negsuc m) (negsuc n) = m == n
same_version _ _ = false

-- The `SET` of an update: the changes, then the version and the time.
unfoldable pub set_row : String → Map Value → Row → Row
unfolding spread put
set_row now changes row =
    put (put (spread row changes) "version" (number (next_version (version_of row)))) "updatedAt"
      (text now)

-- `version = ?`, which is not true of NULL.
abbrev pub has_version : Option Value → ℤ → Bool
has_version (some (number n)) expected_version = same_version n expected_version
has_version _ expected_version = false

unfoldable pub is_current : String → String → ℤ → Row → Bool
unfolding is_row get
is_current org_id id expected_version row =
    is_row org_id id row && has_version (get row "version") expected_version

-- Nothing where no row is affected: the write is stale.
unfoldable pub update :
    String → String → List Row → String → Map Value → ℤ → Option (List Row × Option Row)
unfolding is_current set_row any find_by_id
update org_id now rows id changes expected_version =
    let affected = is_current org_id id expected_version in
    let after = map (λ r. if affected r then set_row now changes r else r) rows in
    if any affected rows then some (after, find_by_id org_id after id) else none
