-- ===== src/Projection/Columns.antt =====
-- The columns that a write leaves as they were.
use qlerify_live.Prelude.{
  String, false, none, some, [], ◌∷◌, ◌≡◌, refl, ap, ◌∙◌, ◌==◌, string_eq, if◌then◌else◌, Map, get,
  put, get-put, arith, eq_iff,
}
use qlerify_live.Ontology.Schema.{Value}
use qlerify_live.Projection.{Row, spread, set_row, sql_value}

pub get-put_other :
    {V : Type 0} (m : Map V) (key : String) (value : V) (other : String)
    → (key == other) ≡ false
    → get (put m key value) other ≡ get m other
get-put_other m key value other h =
    get-put m key value other ∙ ap (λ b. if b then some value else get m other) h

pub get-spread :
    (base columns : Map Value) (name : String)
    → get columns name ≡ none
    → get (spread base columns) name ≡ get base name
unfolding spread get
get-spread base [] name h = refl
get-spread base ((k, v) ∷ columns) name h = ground (
  arith,
  eq_iff k name,
  get-spread (put base k (sql_value v)) columns name,
  get-put base k (sql_value v) name,
)

-- An update sets only the columns of the changes, the version and the time.
pub get-set_row :
    (now : String) (changes : Map Value) (row : Row) (name : String)
    → get changes name ≡ none
    → ("version" == name) ≡ false
    → ("updatedAt" == name) ≡ false
    → get (set_row now changes row) name ≡ get row name
unfolding set_row
get-set_row now changes row name h k l =
    get-put_other _ "updatedAt" _ name l
    ∙ (get-put_other _ "version" _ name k ∙ get-spread row changes name h)
