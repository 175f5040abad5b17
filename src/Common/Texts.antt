-- ===== src/Common/Texts.antt =====
-- Template literals, `join` and `startsWith`.
use Prim.Native.Char.{code}
use Prim.Native.String
use Prim.Native.String.{String}
use mathlib.Core.Bool.{Bool, true, false}
use mathlib.Core.List.{List, [], ◌∷◌}
use messaging_poc.Common.Tests.{if◌then◌else◌, nat_eq}

-- The parts of a template literal.
abbrev pub text_of : List String → String
text_of [] = ""
text_of (part ∷ []) = part
text_of (part ∷ next ∷ parts) = String.◌++◌ part (text_of (next ∷ parts))

unfoldable pub join : String → List String → String
join separator [] = ""
join separator (part ∷ []) = part
join separator (part ∷ next ∷ parts) =
    String.◌++◌ part (String.◌++◌ separator (join separator (next ∷ parts)))

unfoldable pub starts_with : String → String → Bool
starts_with text String.[] = true
starts_with String.[] (String.◌∷◌ d prefix) = false
starts_with (String.◌∷◌ c text) (String.◌∷◌ d prefix) =
    if nat_eq (code c) (code d) then starts_with text prefix else false
