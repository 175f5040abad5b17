-- ===== src/TopicMatch/Words.antt =====
-- `String.prototype.split('.')` and `join('.')`, on which `topicMatch` relies.
use Prim.Native.Char.{Char, code}
use Prim.Native.String
use Prim.Native.String.{String, [], ◌∷◌}
use text.Mathlib.TextLemmas.{nil-append, cons-append}
use messaging_poc.Common.{List, if◌then◌else◌, nat_eq, ◌≡◌, refl, false}

-- There is always at least one word.
prepend : Char → List String → List String
prepend c List.[] = List.◌∷◌ (c ∷ []) List.[]
prepend c (List.◌∷◌ word words) = List.◌∷◌ (c ∷ word) words

unfoldable pub split_dots : String → List String
unfolding prepend
split_dots [] = List.◌∷◌ [] List.[]
split_dots (c ∷ s) =
    if nat_eq (code c) b'.' then List.◌∷◌ [] (split_dots s) else prepend c (split_dots s)

-- No character of the text is a dot.
abbrev pub IsDotFree : String → Type 0
IsDotFree [] = Unit
IsDotFree (c ∷ s) = (nat_eq (code c) b'.' ≡ false) × IsDotFree s

-- A text with no dot is one word.
pub split_dots-one_word : (s : String) → IsDotFree s → split_dots s ≡ List.◌∷◌ s List.[]
unfolding split_dots
split_dots-one_word [] h = refl
split_dots-one_word (c ∷ s) h = rw (h.0, split_dots-one_word s h.1)

-- A dot-free text before a dot is the first word.
pub split_dots-append :
    (w s : String)
    → IsDotFree w
    → split_dots (String.◌++◌ w (String.◌++◌ "." s)) ≡ List.◌∷◌ w (split_dots s)
unfolding split_dots prepend
split_dots-append [] s h = rw (nil-append, cons-append, nil-append)
split_dots-append (c ∷ w) s h = rw (cons-append, h.0, split_dots-append w s h.1)
