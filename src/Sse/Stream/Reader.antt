-- ===== src/Sse/Stream/Reader.antt =====
-- An event stream as a browser's EventSource reads it: the lines of the text, their fields, the events.
-- Lines end with a line feed, the only line end that the server writes.
use Prim.Native.Char.{Char, code}
use Prim.Native.String
use Prim.Native.String.{String, [], ◌∷◌}
use text.Mathlib.TextLemmas.{nil-append, cons-append, append_assoc}
use messaging_poc.Common.{
  List, Bool, true, false, not, ◌&&◌, ℕ, decimal, decimal-is, arith, Option, none, some,
  if◌then◌else◌, nat_eq, or_else, ◌≡◌, refl, sym, ap, subst, ◌∙◌, ◌==◌, string_eq,
}
use messaging_poc.Sse.Stream.{hello_text, beat_text, frame_text}
use messaging_poc.Sse.Yaml.{IsOneLine, is_break}

abbrev extend : Char → List String → List String
extend c List.[] = List.[]
extend c (List.◌∷◌ line lines) = List.◌∷◌ (c ∷ line) lines

-- The lines that are complete.
unfoldable pub lines_of : String → List String
lines_of [] = List.[]
lines_of (c ∷ s) =
    let rest = lines_of s in if nat_eq (code c) 10 then List.◌∷◌ [] rest else extend c rest

-- A value without the one space that may stand before it.
abbrev unspaced : String → String
unspaced [] = []
unspaced (c ∷ s) = if nat_eq (code c) 32 then s else c ∷ s

-- The name and the value of a field. A comment is a field with no name.
unfoldable field_of : String → String × String
field_of [] = ([], [])
field_of (c ∷ s) =
    let (name, value) = field_of s in
    if nat_eq (code c) b':' then ([], unspaced s) else (c ∷ name, value)

pub record ClientEvent : Type 0 where
  pub type : String
  pub body : String

-- The fields of an event so far.
pub record Pending : Type 0 where
  pub type : Option String
  pub body : Option String

abbrev pub no_fields : Pending
no_fields = record { type = none; body = none }

abbrev add_field : String × String → Pending → Pending
add_field (name, value) p =
    if name == "event"
    then record p { type = some value }
    else if name == "data"
    then record p {
      body = some (elim p.body [
        | none ↦ value
        | some earlier ↦ String.◌++◌ earlier (String.◌++◌ "\n" value)
      ]);
    }
    else p

abbrev dispatched : Pending → List ClientEvent → List ClientEvent
dispatched p rest = elim p.body [
  | none ↦ rest
  | some body ↦ List.◌∷◌ (record { type = or_else p.type "message"; body = body }) rest
]

-- An empty line ends an event; an event that is not ended is discarded.
unfoldable pub read_lines : Pending → List String → List ClientEvent
unfolding field_of
read_lines p List.[] = List.[]
read_lines p (List.◌∷◌ [] lines) = dispatched p (read_lines no_fields lines)
read_lines p (List.◌∷◌ (c ∷ s) lines) = read_lines (add_field (field_of (c ∷ s)) p) lines

unfoldable pub read_stream : String → List ClientEvent
unfolding lines_of read_lines
read_stream text = read_lines no_fields (lines_of text)

-- A text of one line before a line feed is the first line.
lines_of-append :
    (w s : String)
    → IsOneLine w
    → lines_of (String.◌++◌ w (String.◌++◌ "\n" s)) ≡ List.◌∷◌ w (lines_of s)
unfolding lines_of
lines_of-append [] s h = rw (nil-append, cons-append, nil-append) refl
lines_of-append (c ∷ w) s h =
    let inside : nat_eq (code c) 10 ≡ false = ground (arith, h.0) in
    rw (cons-append, inside, lines_of-append w s h.1) refl

abbrev IsColonFree : String → Type 0
IsColonFree [] = Unit
IsColonFree (c ∷ s) = (nat_eq (code c) b':' ≡ false) × IsColonFree s

-- A field with a space before its value.
field_of-append :
    (name value : String)
    → IsColonFree name
    → field_of (String.◌++◌ name (String.◌++◌ ": " value)) ≡ (name, value)
unfolding field_of
field_of-append [] value h =
    rw (nil-append, cons-append ":" " " value, cons-append " " "" value, nil-append value) refl
field_of-append (c ∷ name) value h = rw (cons-append, h.0, field_of-append name value h.1) refl

-- A line that starts with a field's name is not empty.
read_lines-field :
    (c : Char) (name value : String) (p : Pending) (lines : List String)
    → IsColonFree (c ∷ name)
    → read_lines p (List.◌∷◌ (String.◌++◌ (c ∷ name) (String.◌++◌ ": " value)) lines)
      ≡ read_lines (add_field (c ∷ name, value) p) lines
unfolding read_lines
read_lines-field c name value p lines h =
    let field = field_of-append (c ∷ name) value h in
    let shape = cons-append c name (String.◌++◌ ": " value) in
    rw shape (ap (λ f. read_lines (add_field f p) lines) (ap field_of (sym shape) ∙ field))

read_lines-comment :
    (comment : String) (p : Pending) (lines : List String)
    → read_lines p (List.◌∷◌ (String.◌++◌ ": " comment) lines) ≡ read_lines p lines
unfolding read_lines field_of
read_lines-comment comment p lines = rw (cons-append ":" " " comment) refl

IsOneLine-append : (v w : String) → IsOneLine v → IsOneLine w → IsOneLine (String.◌++◌ v w)
IsOneLine-append [] w h k = subst IsOneLine (sym (nil-append w)) k
IsOneLine-append (c ∷ v) w h k =
    subst IsOneLine (sym (cons-append c v w)) (h.0, IsOneLine-append v w h.1 k)

lines_of-feed : (s : String) → lines_of (String.◌++◌ "\n" s) ≡ List.◌∷◌ "" (lines_of s)
lines_of-feed s = ap lines_of (sym (nil-append (String.◌++◌ "\n" s))) ∙ lines_of-append "" s tt

-- A line and the empty line after it, after some prefix of the line.
lines_of-block :
    (v w s : String)
    → IsOneLine v
    → IsOneLine w
    → lines_of (String.◌++◌ (String.◌++◌ v (String.◌++◌ w "\n\n")) s)
      ≡ List.◌∷◌ (String.◌++◌ v w) (List.◌∷◌ "" (lines_of s))
lines_of-block v w s h k =
    rw
      (
        sym (append_assoc v w "\n\n"),
        append_assoc (String.◌++◌ v w) "\n\n" s,
        append_assoc "\n" "\n" s,
        lines_of-append (String.◌++◌ v w) (String.◌++◌ "\n" s) (IsOneLine-append v w h k),
        lines_of-feed s,
      )
      refl

abbrev is_one_line : String → Bool
is_one_line [] = true
is_one_line (c ∷ s) = not (is_break (code c)) && is_one_line s

-- For a text that is written out.
is_one_line-IsOneLine : (s : String) → is_one_line s ≡ true → IsOneLine s
is_one_line-IsOneLine [] h = tt
is_one_line-IsOneLine (c ∷ s) h = (ground (arith, h), is_one_line-IsOneLine s (ground (arith, h)))

read_lines-data :
    (type : Option String) (body : String) (lines : List String)
    → read_lines
        (record { type = type; body = none })
        (List.◌∷◌ (String.◌++◌ "data: " body) (List.◌∷◌ "" lines))
      ≡ List.◌∷◌
          (record { type = or_else type "message"; body = body })
          (read_lines no_fields lines)
unfolding read_lines
read_lines-data type body lines =
    ap (λ l. read_lines (record { type = type; body = none }) (List.◌∷◌ l (List.◌∷◌ "" lines)))
      (append_assoc "data" ": " body)
    ∙ read_lines-field "d" "ata" body (record { type = type; body = none }) (List.◌∷◌ "" lines)
        (refl, (refl, (refl, (refl, tt))))

decimal-IsOneLine : (n : ℕ) → IsOneLine (decimal n)
decimal-IsOneLine n =
    let one = λ (d : String) (h : is_one_line d ≡ true). is_one_line-IsOneLine d h in
    decimal-is IsOneLine tt
      (
        one "0" refl,
        (
          one "1" refl,
          (
            one "2" refl,
            (
              one "3" refl,
              (
                one "4" refl,
                (one "5" refl, (one "6" refl, (one "7" refl, (one "8" refl, (one "9" refl, tt))))),
              ),
            ),
          ),
        ),
      )
      IsOneLine-append n

-- The greeting, a frame and a heartbeat before some text: the first two are an event each.
pub read_stream-hello :
    (greeting s : String)
    → IsOneLine greeting
    → read_stream (String.◌++◌ (hello_text greeting) s)
      ≡ List.◌∷◌ (record { type = "hello"; body = greeting }) (read_stream s)
unfolding read_stream
read_stream-hello greeting s h =
    let block = String.◌++◌ greeting "\n\n" in
    let rest = String.◌++◌ (String.◌++◌ "data: " block) s in
    let lines = List.◌∷◌ (String.◌++◌ "data: " greeting) (List.◌∷◌ "" (lines_of s)) in
    let shape : String.◌++◌ (hello_text greeting) s
        ≡ String.◌++◌ "event: hello" (String.◌++◌ "\n" rest) =
      ap (λ (t : String). String.◌++◌ t s) (append_assoc "event: hello" "\ndata: " block)
      ∙ append_assoc "event: hello" (String.◌++◌ "\ndata: " block) s
      ∙ ap (λ (t : String). String.◌++◌ "event: hello" (String.◌++◌ t s))
          (append_assoc "\n" "data: " block)
      ∙ ap (String.◌++◌ "event: hello") (append_assoc "\n" (String.◌++◌ "data: " block) s) in
    let split : lines_of (String.◌++◌ (hello_text greeting) s) ≡ List.◌∷◌ "event: hello" lines =
      ap lines_of shape
      ∙ lines_of-append "event: hello" rest (is_one_line-IsOneLine "event: hello" refl)
      ∙ ap (List.◌∷◌ "event: hello")
          (lines_of-block "data: " greeting s (is_one_line-IsOneLine "data: " refl) h) in
    ap (read_lines no_fields) split
    ∙ read_lines-field "e" "vent" "hello" no_fields lines (refl, (refl, (refl, (refl, (refl, tt)))))
    ∙ read_lines-data (some "hello") greeting (lines_of s)

pub read_stream-frame :
    (body s : String)
    → IsOneLine body
    → read_stream (String.◌++◌ (frame_text body) s)
      ≡ List.◌∷◌ (record { type = "message"; body = body }) (read_stream s)
unfolding read_stream
read_stream-frame body s h =
    ap (read_lines no_fields)
      (lines_of-block "data: " body s (is_one_line-IsOneLine "data: " refl) h)
    ∙ read_lines-data none body (lines_of s)

pub read_stream-beat :
    (now : ℕ) (s : String) → read_stream (String.◌++◌ (beat_text now) s) ≡ read_stream s
unfolding read_stream read_lines
read_stream-beat now s =
    ap (read_lines no_fields) (
      lines_of-block ": keep-alive " (decimal now) s (is_one_line-IsOneLine ": keep-alive " refl)
        (decimal-IsOneLine now))
    ∙ ap (λ l. read_lines no_fields (List.◌∷◌ l (List.◌∷◌ "" (lines_of s))))
        (append_assoc ": " "keep-alive " (decimal now))
    ∙ read_lines-comment (String.◌++◌ "keep-alive " (decimal now)) no_fields
        (List.◌∷◌ "" (lines_of s))
