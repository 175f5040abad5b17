-- ===== src/Scenarios/Groups.antt =====
-- s12-message-groups.ts: the order in each group, and the consumer of each group.
pub mod Order
pub mod Owners
pub mod Judged
use messaging_poc.Common.{
  ℕ, ◌+◌, ◌*◌, String, List, [], ◌∷◌, ◌++◌, map, Bool, true, false, not, Option, none, some,
  if◌then◌else◌, text_of, decimal, leb, nat_eq, length, keep, string_eq, ℕ_eq, ◌==◌, contains,
  lookup, insert, or_else,
}
use messaging_poc.Abstractions.{no_publish_options, no_subscribe_options}
use messaging_poc.Port.{Op}
use messaging_poc.Runner.{ScenarioResult}
use messaging_poc.Scenarios.Program.{◌>>=◌, ◌>>◌, ◌finally◌, observe, each, fail, unsupported}
use messaging_poc.Scenarios.Stage.{BusStage, Handler, acks, assigns, named}
use messaging_poc.Scenarios.Verdict.{Verdict, passes, fails, conclude}
use messaging_poc.Scenarios.Values.{
  range, split, second, number, out_of_order, shown_number, commas,
}

abbrev pub all_groups : List String
all_groups = "a" ∷ "b" ∷ "c" ∷ []

abbrev pub group_size : ℕ
group_size = 6

abbrev pub groups_total : ℕ
groups_total = length all_groups * group_size

pub record Entry : Type 0 where
  pub group : String
  pub seq : Option ℕ

-- `byConsumer`
pub record Handled : Type 0 where
  pub first : List Entry
  pub second : List Entry

abbrev pub first_part : List String → String
first_part [] = ""
first_part (a ∷ rest) = a

unfoldable pub entry_of : String → Entry
unfolding split number
entry_of body = record {
  group = first_part (split ":" body);
  seq = number (second (split ":" body));
}

abbrev pub handle_first : Handler Handled
handle_first m now l =
    assigns (λ l. record l { first = l.first ++ entry_of m.body ∷ [] }) ∷ acks ∷ []

abbrev pub handle_second : Handler Handled
handle_second m now l =
    assigns (λ l. record l { second = l.second ++ entry_of m.body ∷ [] }) ∷ acks ∷ []

-- `perGroupSeqs`
unfoldable pub per_group :
    List Entry → List (String × List (Option ℕ)) → List (String × List (Option ℕ))
per_group [] seqs = seqs
per_group (e ∷ es) seqs =
    per_group es (insert seqs e.group (or_else (lookup seqs e.group) [] ++ e.seq ∷ []))

-- `ownersOf`: a group and the consumers that handled it, without repetition.
unfoldable pub own : ℕ → List Entry → List (String × List ℕ) → List (String × List ℕ)
own i [] owners = owners
own i (e ∷ es) owners =
    let old = or_else (lookup owners e.group) [] in
    own i es (insert owners e.group (if contains old i then old else old ++ i ∷ []))

-- The first group that a consumer saw out of order.
unfoldable pub disorder : ℕ → List (String × List (Option ℕ)) → Option String
unfolding out_of_order shown_number
disorder i [] = none
disorder i ((group, seqs) ∷ rest) =
    let later = disorder i rest in
    if out_of_order seqs
    then some (
        text_of (
          "group "
          ∷ group
          ∷ " out of order on consumer "
          ∷ decimal i
          ∷ ": "
          ∷ commas (map shown_number seqs)
          ∷ []))
    else later

-- `byConsumer[i]`
abbrev pub handled_by : Handled → ℕ → List Entry
handled_by l i = if nat_eq i 0 then l.first else l.second

-- What is wrong with a group, given the consumers that handled it.
unfoldable pub misplaced : Handled → String → Option (List ℕ) → Option String
misplaced l g none = some (text_of ("group " ∷ g ∷ " was never delivered" ∷ []))
misplaced l g (some []) = some (text_of ("group " ∷ g ∷ " was never delivered" ∷ []))
misplaced l g (some (i ∷ j ∷ owners)) =
    some (text_of ("group " ∷ g ∷ " split across consumers" ∷ []))
misplaced l g (some (i ∷ [])) =
    let seen = length (keep (λ e. e.group == g) (handled_by l i)) in
    if nat_eq seen group_size
    then none
    else some (
        text_of
          ("group " ∷ g ∷ " got " ∷ decimal seen ∷ "/" ∷ decimal group_size ∷ " messages" ∷ []))

-- The first group with which something is wrong.
unfoldable pub misplacement : Handled → List (String × List ℕ) → List String → Option String
unfolding misplaced
misplacement l owners [] = none
misplacement l owners (g ∷ gs) =
    let later = misplacement l owners gs in
    elim (misplaced l g (lookup owners g)) [ none ↦ later | some detail ↦ some detail ]

abbrev pub or_earlier : Option String → Option String → Option String
or_earlier none later = later
or_earlier (some detail) later = some detail

-- The whole judgement: the order on the first consumer, on the second, and the owners of the groups.
unfoldable pub group_fault : Handled → Option String
unfolding per_group own disorder misplacement
group_fault l = or_earlier (disorder 0 (per_group l.first [])) (
    or_earlier (disorder 1 (per_group l.second []))
      (misplacement l (own 1 l.second (own 0 l.first [])) all_groups))

unfoldable pub judge_groups : Handled → Verdict
unfolding group_fault
judge_groups l = elim (group_fault l) [
  | some detail ↦ fails detail
  | none ↦ passes (
      text_of (
        "per-group order preserved, each group pinned to one consumer (split "
        ∷ decimal (length l.first)
        ∷ "/"
        ∷ decimal (length l.second)
        ∷ ")"
        ∷ []))
]

-- `supportsMessageGroups === false`
abbrev pub is_false : Option Bool → Bool
is_false none = false
is_false (some b) = not b

module _ {W Token : Type 0} (bus : BusStage Handled W Token) where
  unfoldable pub message_groups : String → Op W ScenarioResult
  unfolding ◌>>=◌ ◌>>◌ ◌finally◌ each named judge_groups conclude fail unsupported
  message_groups name = do
    t0 ← observe bus.clock
    if not bus.capabilities.supports_manual_ack
        then unsupported bus.clock name "no manual ack on this broker" t0
        else if is_false bus.capabilities.supports_message_groups
        then unsupported bus.clock name "no broker-native message grouping" t0
        else do
          topic ← named bus.nonce "mbc.s12."
          queue_id ← named bus.nonce "groups-"
          a ← bus.subscribe topic handle_first (record no_subscribe_options {
            subscriber_id = some queue_id;
            partition_by_group = some true;
          })
          b ← bus.subscribe topic handle_second (record no_subscribe_options {
            subscriber_id = some queue_id;
            partition_by_group = some true;
          })
          (do
            each (range 0 group_size) λ seq. each all_groups λ g.
                bus.publish topic (text_of (g ∷ ":" ∷ decimal seq ∷ [])) none
                  (record no_publish_options { group_id = some g })
            ok ← bus.wait_until (λ l. leb groups_total (length l.first + length l.second)) 10000
            l ← observe bus.variables
            if not ok
                then fail bus.clock name
                    (text_of (
                      "received "
                      ∷ decimal (length l.first + length l.second)
                      ∷ "/"
                      ∷ decimal groups_total
                      ∷ []))
                    t0
                else conclude bus.clock name t0 (judge_groups l))
              finally (do bus.unsubscribe a; bus.unsubscribe b)
