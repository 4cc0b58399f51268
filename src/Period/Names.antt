-- ===== src/Period/Names.antt =====
-- src/twin/period.ts: texts as lists of code points, and the granularity that a field's name declares.
use Prim.Native.Char.{code}
use qlerify_live.Prelude.{
  ℕ, String, Bool, true, false, ◌&&◌, ◌||◌, Option, none, some, List, [], ◌∷◌, ◌++◌, ◌+◌, string_eq,
  if◌then◌else◌, leb, nat_beq,
}

abbrev pub Text : Type 0
Text = List ℕ

abbrev pub codes : String → Text
codes String.[] = []
codes (String.◌∷◌ c s) = code c ∷ codes s

abbrev pub text_beq : Text → Text → Bool
text_beq [] [] = true
text_beq (x ∷ s) (y ∷ t) = nat_beq x y && text_beq s t
text_beq [] (y ∷ t) = false
text_beq (x ∷ s) [] = false

abbrev pub within : ℕ → ℕ → ℕ → Bool
within low high c = leb low c && leb c high

-- The characters of `s.toLowerCase().replace(/[^a-z0-9]/g, "")` that one character gives. The Kelvin
-- sign and the dotted capital I are the two others whose lower case has a letter of a to z.
abbrev pub norm_code : ℕ → Text
norm_code c =
    if within 65 90 c
    then (c + 32) ∷ []
    else if within 97 122 c || within 48 57 c
    then c ∷ []
    else if nat_beq c 8490
    then 107 ∷ []
    else if nat_beq c 304
    then 105 ∷ []
    else []

abbrev norm_codes : Text → Text
norm_codes [] = []
norm_codes (c ∷ s) = norm_code c ++ norm_codes s

unfoldable pub norm_name : String → Text
norm_name s = norm_codes (codes s)

unfoldable pub ends_with : Text → Text → Bool
ends_with [] suffix = text_beq [] suffix
ends_with (c ∷ s) suffix = text_beq (c ∷ s) suffix || ends_with s suffix

pub data PeriodGranularity : Type 0 where
  quarter month week year : PeriodGranularity

abbrev pub granularity_name : PeriodGranularity → String
granularity_name quarter = "quarter"
granularity_name month = "month"
granularity_name week = "week"
granularity_name year = "year"

abbrev pub granularities : List PeriodGranularity
granularities = quarter ∷ month ∷ week ∷ year ∷ []

first_named : Text → List PeriodGranularity → Option PeriodGranularity
unfolding ends_with
first_named n [] = none
first_named n (g ∷ gs) =
    let rest = first_named n gs in
    if text_beq n (codes (granularity_name g)) || ends_with n (codes (granularity_name g))
    then some g
    else rest

unfoldable pub granularity_of : String → Option PeriodGranularity
unfolding norm_name first_named
granularity_of field_name = first_named (norm_name field_name) granularities
