-- ===== src/Cli/Printed.antt =====
-- A printed command line is parsed back.
use Prim.Native.String
use text.Mathlib.TextLemmas.{nil-append, cons-append}
use mathlib.Core.List.{append-nil, append_assoc}
use messaging_poc.Common.{
  String, List, [], ◌∷◌, ◌++◌, map, true, false, some, ◌≡◌, refl, sym, ◌∙◌, ap, ◌==◌, ==_iff,
  string_eq, contains, contains-append, insert, starts_with, All, Distinct, arith,
}
use messaging_poc.Registry.{known_brokers}
use messaging_poc.Cli.{
  Arguments, no_arguments, is_option, without_dashes, add_bool, parse_arguments, parse_cli,
}

abbrev with_dashes : String → String
with_dashes key = String.◌++◌ "--" key

abbrev flag_words : List (String × String) → List String
flag_words [] = []
flag_words ((k, v) ∷ flags) = with_dashes k ∷ v ∷ flag_words flags

-- The command line: the positional arguments, the options without a value, the flags.
abbrev pub printed : Arguments → List String
printed r = r.positionals ++ (map with_dashes r.bools ++ flag_words r.flags)

abbrev IsWord : String → Type 0
IsWord a = is_option a ≡ false

abbrev keys : List (String × String) → List String
keys flags = map (λ f. f.0) flags

-- What can be printed: no positional argument and no value of a flag starts with two dashes, and no
-- option is given twice.
pub record IsPrintable (r : Arguments) : Type 0 where
  pub words : All IsWord r.positionals
  pub values : All (λ f. IsWord f.1) r.flags
  pub bools_once : Distinct r.bools
  pub flags_once : Distinct (keys r.flags)

two_dashes : (k : String) → with_dashes k ≡ String.◌∷◌ "-" (String.◌∷◌ "-" k)
two_dashes k =
    cons-append "-" "-" k
    ∙ ap (λ (t : String). String.◌∷◌ "-" t)
        (cons-append "-" "" k ∙ ap (λ (t : String). String.◌∷◌ "-" t) (nil-append k))

with_dashes-is_option : (k : String) → is_option (with_dashes k) ≡ true
unfolding is_option starts_with
with_dashes-is_option k = rw (two_dashes k) refl

without_dashes-with_dashes : (k : String) → without_dashes (with_dashes k) ≡ k
without_dashes-with_dashes k = rw (two_dashes k) refl

-- One step of the loop for each kind of argument.
parse-word :
    (a : String) (rest : List String) (r : Arguments)
    → IsWord a
    → parse_arguments (a ∷ rest) r
      ≡ parse_arguments rest (record r { positionals = r.positionals ++ a ∷ [] })
unfolding parse_arguments
parse-word a [] r word = rw (word, parse_arguments) refl
parse-word a (next ∷ rest) r word = rw (word, parse_arguments) refl

parse-flag :
    (k v : String) (rest : List String) (r : Arguments)
    → IsWord v
    → parse_arguments (with_dashes k ∷ v ∷ rest) r
      ≡ parse_arguments rest (record r { flags = insert r.flags k v })
unfolding parse_arguments
parse-flag k v rest r word =
    rw (with_dashes-is_option k, parse_arguments)
      (rw (word, parse_arguments) (rw (without_dashes-with_dashes k) refl))

-- What follows an option without a value.
abbrev IsEnded : List String → Type 0
IsEnded [] = Unit
IsEnded (a ∷ rest) = is_option a ≡ true

parse-bool :
    (k : String) (rest : List String) (r : Arguments)
    → IsEnded rest
    → parse_arguments (with_dashes k ∷ rest) r
      ≡ parse_arguments rest (record r { bools = add_bool k r.bools })
unfolding parse_arguments
parse-bool k [] r ended =
    rw (with_dashes-is_option k, parse_arguments) (rw (without_dashes-with_dashes k) refl)
parse-bool k (next ∷ rest) r ended =
    rw (with_dashes-is_option k, parse_arguments)
      (rw (ended, parse_arguments) (rw (without_dashes-with_dashes k) refl))

parse-words :
    (words rest : List String) (r : Arguments)
    → All IsWord words
    → parse_arguments (words ++ rest) r
      ≡ parse_arguments rest (record r { positionals = r.positionals ++ words })
parse-words [] rest r h =
    ap (λ p. parse_arguments rest (record r { positionals = p })) (sym (append-nil r.positionals))
parse-words (a ∷ words) rest r h =
    parse-word a (words ++ rest) r h.0
    ∙ (parse-words words rest _ h.1
        ∙ ap (λ p. parse_arguments rest (record r { positionals = p }))
            (append_assoc r.positionals (a ∷ []) words))

-- None of the texts is in the list that was collected.
abbrev AreNew : List String → List String → Type 0
AreNew old new = All (λ x. contains old x ≡ false) new

AreNew-concat :
    (old new : List String) (x : String)
    → contains new x ≡ false
    → AreNew old new
    → AreNew (old ++ x ∷ []) new
AreNew-concat old [] x fresh h = tt
AreNew-concat old (y ∷ new) x fresh h = (
  contains-append old (x ∷ []) y ∙ ground (arith, h.0, fresh, ==_iff x y, ==_iff y x),
  AreNew-concat old new x (ground (arith, fresh)) h.1,
)

IsEnded-bools : (bools rest : List String) → IsEnded rest → IsEnded (map with_dashes bools ++ rest)
IsEnded-bools [] rest ended = ended
IsEnded-bools (k ∷ bools) rest ended = with_dashes-is_option k

IsEnded-flags : (flags : List (String × String)) → IsEnded (flag_words flags)
IsEnded-flags [] = tt
IsEnded-flags ((k, v) ∷ flags) = with_dashes-is_option k

add_bool-new :
    (k : String) (bools : List String)
    → contains bools k ≡ false
    → add_bool k bools ≡ bools ++ k ∷ []
add_bool-new k bools new = rw new refl

parse-bools :
    (bools rest : List String) (r : Arguments)
    → IsEnded rest
    → Distinct bools
    → AreNew r.bools bools
    → parse_arguments (map with_dashes bools ++ rest) r
      ≡ parse_arguments rest (record r { bools = r.bools ++ bools })
parse-bools [] rest r ended d new =
    ap (λ p. parse_arguments rest (record r { bools = p })) (sym (append-nil r.bools))
parse-bools (k ∷ bools) rest r ended d new =
    parse-bool k (map with_dashes bools ++ rest) r (IsEnded-bools bools rest ended)
    ∙ (ap (λ p. parse_arguments (map with_dashes bools ++ rest) (record r { bools = p }))
          (add_bool-new k r.bools new.0)
        ∙ (parse-bools bools rest (record r { bools = r.bools ++ k ∷ [] }) ended d.1
              (AreNew-concat r.bools bools k d.0 new.1)
            ∙ ap (λ p. parse_arguments rest (record r { bools = p }))
                (append_assoc r.bools (k ∷ []) bools)))

insert-new :
    (m : List (String × String)) (k v : String)
    → contains (keys m) k ≡ false
    → insert m k v ≡ m ++ (k, v) ∷ []
insert-new [] k v new = refl
insert-new ((j, w) ∷ m) k v new =
    let other : (j == k) ≡ false = ground (arith, new) in
    rw (other, insert) (ap (λ t. (j, w) ∷ t) (insert-new m k v (ground (arith, new))))

keys-concat :
    (m : List (String × String)) (k v : String) → keys (m ++ (k, v) ∷ []) ≡ keys m ++ k ∷ []
keys-concat [] k v = refl
keys-concat (f ∷ m) k v = ap (λ t. f.0 ∷ t) (keys-concat m k v)

parse-flags :
    (flags : List (String × String)) (r : Arguments)
    → All (λ f. IsWord f.1) flags
    → Distinct (keys flags)
    → AreNew (keys r.flags) (keys flags)
    → parse_arguments (flag_words flags) r ≡ record r { flags = r.flags ++ flags }
unfolding parse_arguments
parse-flags [] r words d new = ap (λ p. record r { flags = p }) (sym (append-nil r.flags))
parse-flags ((k, v) ∷ flags) r words d new =
    parse-flag k v (flag_words flags) r words.0
    ∙ (ap (λ p. parse_arguments (flag_words flags) (record r { flags = p }))
          (insert-new r.flags k v new.0)
        ∙ (parse-flags flags (record r { flags = r.flags ++ (k, v) ∷ [] }) words.1 d.1
              (rw (keys-concat r.flags k v) (AreNew-concat (keys r.flags) (keys flags) k d.0 new.1))
            ∙ ap (λ p. record r { flags = p }) (append_assoc r.flags ((k, v) ∷ []) flags)))

AreNew-[] : (xs : List String) → AreNew [] xs
AreNew-[] [] = tt
AreNew-[] (x ∷ xs) = (refl, AreNew-[] xs)

parse_arguments-printed :
    (r : Arguments) → IsPrintable r → parse_arguments (printed r) no_arguments ≡ r
parse_arguments-printed r h =
    parse-words r.positionals (map with_dashes r.bools ++ flag_words r.flags) no_arguments h.words
    ∙ (parse-bools r.bools (flag_words r.flags)
          (record no_arguments { positionals = r.positionals }) (IsEnded-flags r.flags) h.bools_once
          (AreNew-[] r.bools)
        ∙ parse-flags r.flags (record no_arguments { positionals = r.positionals; bools = r.bools })
            h.values h.flags_once (AreNew-[] (keys r.flags)))

-- A command line that is printed from a known broker, positional arguments, options and flags is parsed
-- back to them, if no argument and no value of a flag starts with two dashes and no option stands twice.
pub parse_cli-printed :
    (broker : String) (r : Arguments)
    → contains known_brokers broker ≡ true
    → IsPrintable r
    → IsWord broker
    → parse_cli (broker ∷ printed r) ≡ some (record { broker = broker; arguments = r })
unfolding parse_cli
parse_cli-printed broker r known h word =
    let all : Arguments = record r { positionals = broker ∷ r.positionals } in
    let printable : IsPrintable all = record {
      words = (word, h.words);
      values = h.values;
      bools_once = h.bools_once;
      flags_once = h.flags_once;
    } in
    rw (parse_arguments-printed all printable) (rw known refl)
