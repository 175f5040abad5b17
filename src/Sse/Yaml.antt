-- ===== src/Sse/Yaml.antt =====
-- typescript/src/sse/docs/generate.ts: `yamlScalar`, and a reader of the scalars of one line of YAML.
use Prim.Native.Char.{Char, code}
use Prim.Native.String
use Prim.Native.String.{String, [], ◌∷◌}
use messaging_poc.Common.{
  ℕ, Bool, true, false, ◌&&◌, ◌||◌, Option, none, some, if◌then◌else◌, nat_eq, leb, ◌≡◌, ◌==◌,
  string_eq,
}

-- `[A-Za-z0-9_.\-]`
abbrev is_bare_char : ℕ → Bool
is_bare_char c =
    (leb b'A' c && leb c b'Z')
    || ((leb b'a' c && leb c b'z')
        || ((leb b'0' c && leb c b'9') || (nat_eq c b'_' || (nat_eq c b'.' || nat_eq c b'-'))))

abbrev all_bare : String → Bool
all_bare [] = true
all_bare (c ∷ s) = is_bare_char (code c) && all_bare s

-- `/^[A-Za-z0-9_.\-]+$/.test(value)`
abbrev pub is_bare : String → Bool
is_bare [] = false
is_bare (c ∷ s) = is_bare_char (code c) && all_bare s

-- `replace(/x/g, by)` for one character `x`.
unfoldable pub replace_char : ℕ → String → String → String
replace_char x by [] = []
replace_char x by (c ∷ s) =
    let rest = replace_char x by s in if nat_eq (code c) x then String.◌++◌ by rest else c ∷ rest

-- `value.replace(/\\/g, '\\\\').replace(/"/g, '\\"')`
unfoldable pub escaped : String → String
unfolding replace_char
escaped value = replace_char 34 "\\\"" (replace_char 92 "\\\\" value)

unfoldable pub yaml_scalar : String → String
unfolding escaped
yaml_scalar value =
    if is_bare value then value else String.◌++◌ "\"" (String.◌++◌ (escaped value) "\"")

-- The line breaks of YAML.
abbrev pub is_break : ℕ → Bool
is_break c = nat_eq c 10 || nat_eq c 13

abbrev pub IsOneLine : String → Type 0
IsOneLine [] = Unit
IsOneLine (c ∷ s) = (is_break (code c) ≡ false) × IsOneLine s

abbrev before : Char → Option String → Option String
before c none = none
before c (some t) = some (c ∷ t)

-- The closing quote ends the scalar, and nothing follows it.
abbrev ended : String → Option String
ended [] = some []
ended (c ∷ s) = none

-- The text of a double-quoted scalar after its opening quote: a backslash stands before a quote or a
-- backslash of the text, and a line break is not read.
unfoldable read_quoted : Bool → String → Option String
read_quoted after_backslash [] = none
read_quoted true (c ∷ s) =
    let rest = before c (read_quoted false s) in
    if nat_eq (code c) 34 || nat_eq (code c) 92 then rest else none
read_quoted false (c ∷ s) =
    let next = read_quoted true s in
    let rest = before c (read_quoted false s) in
    if nat_eq (code c) 34
    then ended s
    else if nat_eq (code c) 92
    then next
    else if is_break (code c)
    then none
    else rest

-- What a scalar is read as: a text, or what the YAML schema makes of a plain scalar that is no text (a
-- Boolean, a number, null).
pub data ScalarValue : Type 0 where
  as_text as_typed : String → ScalarValue

abbrev quoted_value : Option String → Option ScalarValue
quoted_value none = none
quoted_value (some s) = some (as_text s)

-- A scalar: quoted if it starts with a quote, and plain else. An empty one and '-' are no scalars.
-- `is_typed` is the schema: it tells the plain scalars that are no texts.
unfoldable pub read_scalar : (String → Bool) → String → Option ScalarValue
unfolding read_quoted
read_scalar is_typed [] = none
read_scalar is_typed (c ∷ s) =
    let quoted = quoted_value (read_quoted false s) in
    if nat_eq (code c) 34
    then quoted
    else if (c ∷ s) == "-"
    then none
    else if is_typed (c ∷ s)
    then some (as_typed (c ∷ s))
    else some (as_text (c ∷ s))
