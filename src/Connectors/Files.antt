-- ===== src/Connectors/Files.antt =====
-- src/packs/connector/runtime.ts: the files of the trigger rules, which are named for their content. The
-- folder is a map from names to texts.
use Prim.Native.Char.{Char, code}
use text.Mathlib.Text.{starts_with}
use qlerify_live.Prelude.{
  ℕ, zero, suc, String, Bool, ◌&&◌, ◌||◌, Option, none, some, [], ◌∷◌, ◌==◌, string_eq,
  if◌then◌else◌, leb, nat_beq, template, Map, get, put,
}
use qlerify_live.Period.{codes, ends_with}

abbrev pub prefix : ℕ → String → String
prefix zero s = ""
prefix (suc n) String.[] = ""
prefix (suc n) (String.◌∷◌ c s) = String.◌∷◌ c (prefix n s)

abbrev between : ℕ → ℕ → ℕ → Bool
between low high n = leb low n && leb n high

-- `[A-Za-z0-9_]`
abbrev is_word : Char → Bool
is_word c =
    between 65 90 (code c)
    || between 97 122 (code c)
    || between 48 57 (code c)
    || nat_beq (code c) 95

clamp : String → String
clamp String.[] = ""
clamp (String.◌∷◌ c s) =
    let rest = clamp s in if is_word c then String.◌∷◌ c rest else String.◌∷◌ "_" rest

unfoldable pub safe_rule_key : String → String
unfolding clamp
safe_rule_key event_key = if clamp event_key == "" then "event" else clamp event_key

-- `createHash("sha256").update(code).digest("hex").slice(0, 12)`.
unfoldable pub code_hash_of : (String → String) → String → String
code_hash_of sha256 source = prefix 12 (sha256 source)

unfoldable pub rule_prefix : String → String → String
unfolding template safe_rule_key
rule_prefix id event_key = template (id ∷ ".rule." ∷ safe_rule_key event_key ∷ "." ∷ [])

unfoldable pub rule_file : (String → String) → String → String → String → String
unfolding template rule_prefix code_hash_of
rule_file sha256 id event_key source =
    template (rule_prefix id event_key ∷ code_hash_of sha256 source ∷ ".mjs" ∷ [])

-- A file that is there is left as it is.
abbrev unless_there : Map String → String → String → Option String → Map String
unless_there files file source (some old) = files
unless_there files file source none = put files file source

unfoldable pub write_rule_file :
    (String → String) → Map String → String → String → String → Map String
unfolding rule_file get put
write_rule_file sha256 files id event_key source =
    let file = rule_file sha256 id event_key source in
    unless_there files file source (get files file)

-- `deleteRuleFiles`, for one event.
abbrev pub is_version : String → String → Bool
unfolding ends_with
is_version start file = starts_with file start && ends_with (codes file) (codes ".mjs")

unfoldable pub drop_versions : String → Map String → Map String
unfolding is_version
drop_versions start [] = []
drop_versions start ((file, source) ∷ files) =
    let rest = drop_versions start files in
    if is_version start file then rest else (file, source) ∷ rest

unfoldable pub delete_rule_files : Map String → String → String → Map String
unfolding drop_versions rule_prefix
delete_rule_files files id event_key = drop_versions (rule_prefix id event_key) files
