-- ===== src/Cli.antt =====
-- typescript/src/interactive/common.ts: `parseCli`, up to the exit of the process: `none` is an unknown
-- broker. `num` gives the text of its flag; `Number` is left to the caller.
pub mod Printed
use Prim.Native.String
use messaging_poc.Common.{
  String, List, [], ◌∷◌, ◌++◌, Bool, true, false, Option, none, some, if◌then◌else◌, string_eq,
  or_else, contains, lookup, insert, starts_with,
}
use messaging_poc.Registry.{known_brokers}

-- `positionals`, `flags` and `bools`.
pub record Arguments : Type 0 where
  pub positionals : List String
  pub flags : List (String × String)
  pub bools : List String

abbrev pub no_arguments : Arguments
no_arguments = record { positionals = []; flags = []; bools = [] }

unfoldable pub is_option : String → Bool
unfolding starts_with
is_option a = starts_with a "--"

-- `slice(2)`
abbrev pub without_dashes : String → String
without_dashes String.[] = ""
without_dashes (String.◌∷◌ c String.[]) = ""
without_dashes (String.◌∷◌ c (String.◌∷◌ d key)) = key

-- `Set.add`
abbrev pub add_bool : String → List String → List String
add_bool key bools = if contains bools key then bools else bools ++ key ∷ []

-- The loop. An option takes the next argument as its value unless that is an option too.
unfoldable pub parse_arguments : List String → Arguments → Arguments
parse_arguments [] r = r
parse_arguments (a ∷ []) r =
    if is_option a
    then record r { bools = add_bool (without_dashes a) r.bools }
    else record r { positionals = r.positionals ++ a ∷ [] }
parse_arguments (a ∷ next ∷ rest) r =
    let key = without_dashes a in
    let skipped = parse_arguments rest (record r { flags = insert r.flags key next }) in
    let flagged = parse_arguments (next ∷ rest) (record r { bools = add_bool key r.bools }) in
    let placed =
      parse_arguments (next ∷ rest) (record r { positionals = r.positionals ++ a ∷ [] }) in
    if is_option a then if is_option next then flagged else skipped else placed

pub record Cli : Type 0 where
  pub broker : String
  pub arguments : Arguments

-- `positionals.shift() ?? ''` and the test of the broker.
abbrev pub checked : Arguments → Option Cli
checked r = elim r.positionals [
  | [] ↦ if contains known_brokers "" then some (record { broker = ""; arguments = r }) else none
  | broker ∷ rest ↦
      if contains known_brokers broker
      then some (record { broker = broker; arguments = record r { positionals = rest } })
      else none
]

unfoldable pub parse_cli : List String → Option Cli
unfolding parse_arguments is_option
parse_cli argv = checked (parse_arguments argv no_arguments)

abbrev pub flag : String → Cli → Option String
flag name cli = lookup cli.arguments.flags name

abbrev pub bool : String → Cli → Bool
bool name cli = contains cli.arguments.bools name
