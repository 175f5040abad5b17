-- ===== src/Tests/Tools.antt =====
-- The documentation generator, the waiting loop and the command line at concrete inputs.
use messaging_poc.Common.{
  String, Bool, ◌+◌, [], ◌∷◌, map, some, ◌≡◌, refl, arith, leb, Distinct, or_else, lookup, keep,
  ◌==◌, string_eq,
}
use messaging_poc.Sse.Docs.{OperationDoc, by_pattern}
use messaging_poc.Sse.Docs.Channels.{by_pattern-channels}
use messaging_poc.Sse.Docs.Contract.{sse_contract}
use messaging_poc.Runner.Waiting.{wait_until, IsWaited, wait_until-IsWaited}
use messaging_poc.Cli.{Arguments, parse_cli, is_option}
use messaging_poc.Cli.Printed.{parse_cli-printed}

-- A schema that takes `true` for a Boolean.
abbrev is_boolean : String → Bool
is_boolean s = s == "true"

by_pattern-channels_example :
    Distinct (map (λ group. group.0) (by_pattern sse_contract))
    × (or_else (lookup (by_pattern sse_contract) "org.{orgId}") []
        ≡ keep
            (λ (op : OperationDoc). op.routing_key_pattern == "org.{orgId}")
            sse_contract.operations)
by_pattern-channels_example = by_pattern-channels sse_contract "org.{orgId}"

-- A clock that is right, and a predicate that holds from 120 on.
wait_until-IsWaited_example :
    IsWaited
      (λ s. s)
      (λ ms s. s + ms)
      (λ s. leb 120 s)
      1000
      (wait_until (λ s. s) (λ ms s. s + ms) (λ s. leb 120 s) 1000 50 0)
wait_until-IsWaited_example =
    wait_until-IsWaited (λ s. s) (λ ms s. s + ms) (λ s. leb 120 s) (λ ms s h. omega (arith, h)) 1000
      50 0 (omega arith)

abbrev typed_in : Arguments
typed_in = record {
  positionals = "mbc.orders" ∷ [];
  flags = ("group", "g1") ∷ ("nack", "2") ∷ [];
  bools = "fanout" ∷ [];
}

parse_cli-printed_example :
    parse_cli ("kafka" ∷ "mbc.orders" ∷ "--fanout" ∷ "--group" ∷ "g1" ∷ "--nack" ∷ "2" ∷ [])
    ≡ some (record { broker = "kafka"; arguments = typed_in })
unfolding is_option
parse_cli-printed_example =
    parse_cli-printed "kafka" typed_in refl
      (record {
        words = (refl, tt);
        values = (refl, (refl, tt));
        bools_once = (refl, tt);
        flags_once = (refl, (refl, tt));
      })
      refl
