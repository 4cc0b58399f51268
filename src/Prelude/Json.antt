-- ===== src/Prelude/Json.antt =====
-- `JSON.stringify` of texts, whole numbers and null, as far as the program hashes or compares it.
use Prim.Native.Char.{Char, code}
use Prim.Native.Nat.{ℕ, zero, suc, ◌/◌, ◌%◌}
use Prim.Native.String
use Prim.Native.String.{String}
use mathlib.Core.Option.{Option, none, some}
use mathlib.Core.List.{[], ◌∷◌}
use qlerify_live.Prelude.Tests.{if◌then◌else◌, ltb, nat_beq}
use qlerify_live.Prelude.Templates.{template}

-- A hexadecimal digit, in lower case.
digit : ℕ → String
digit n =
    if nat_beq n 0
    then "0"
    else if nat_beq n 1
    then "1"
    else if nat_beq n 2
    then "2"
    else if nat_beq n 3
    then "3"
    else if nat_beq n 4
    then "4"
    else if nat_beq n 5
    then "5"
    else if nat_beq n 6
    then "6"
    else if nat_beq n 7
    then "7"
    else if nat_beq n 8
    then "8"
    else if nat_beq n 9
    then "9"
    else if nat_beq n 10
    then "a"
    else if nat_beq n 11
    then "b"
    else if nat_beq n 12
    then "c"
    else if nat_beq n 13
    then "d"
    else if nat_beq n 14
    then "e"
    else "f"

decimal_from : ℕ → ℕ → String → String
unfolding digit
decimal_from zero n out = out
decimal_from (suc fuel) n out =
    let out' = String.◌++◌ (digit (n % 10)) out in
    let rest = decimal_from fuel (n / 10) out' in if ltb n 10 then out' else rest

-- A whole number: it has at most as many digits as its value and one.
unfoldable pub decimal : ℕ → String
unfolding decimal_from
decimal n = decimal_from (suc n) n ""

escape : Char → String
unfolding digit template
escape c =
    let n = code c in
    if nat_beq n 34
    then "\\\""
    else if nat_beq n 92
    then "\\\\"
    else if nat_beq n 8
    then "\\b"
    else if nat_beq n 12
    then "\\f"
    else if nat_beq n 10
    then "\\n"
    else if nat_beq n 13
    then "\\r"
    else if nat_beq n 9
    then "\\t"
    else if ltb n 32
    then template ("\\u00" ∷ digit (n / 16) ∷ digit (n % 16) ∷ [])
    else String.◌∷◌ c String.[]

escaped : String → String
unfolding escape
escaped String.[] = ""
escaped (String.◌∷◌ c s) = String.◌++◌ (escape c) (escaped s)

unfoldable pub json_text : String → String
unfolding escaped template
json_text s = template ("\"" ∷ escaped s ∷ "\"" ∷ [])

unfoldable pub json_or_null : Option String → String
unfolding json_text
json_or_null none = "null"
json_or_null (some s) = json_text s
