-- ===== src/Scenarios/Competing.antt =====
-- s9-competing.ts: two consumers of one queue.
use messaging_poc.Common.{
  ℕ, ◌+◌, String, List, [], ◌∷◌, ◌++◌, Bool, not, ◌||◌, none, some, if◌then◌else◌, text_of, decimal,
  leb, nat_eq, length, is_empty, string_eq,
}
use messaging_poc.Abstractions.{no_publish_options, no_subscribe_options}
use messaging_poc.Port.{Op}
use messaging_poc.Runner.{ScenarioResult}
use messaging_poc.Scenarios.Program.{◌>>=◌, ◌>>◌, ◌finally◌, observe, each, unsupported}
use messaging_poc.Scenarios.Stage.{BusStage, Handler, acks, assigns, named}
use messaging_poc.Scenarios.Verdict.{Verdict, passes, fails, conclude}
use messaging_poc.Scenarios.Values.{range, unique}

abbrev pub message_count : ℕ
message_count = 10

-- `byConsumer`
pub record ByConsumer : Type 0 where
  pub first : List String
  pub second : List String

abbrev pub make_first : Handler ByConsumer
make_first m now l = assigns (λ l. record l { first = l.first ++ m.body ∷ [] }) ∷ acks ∷ []

abbrev pub make_second : Handler ByConsumer
make_second m now l = assigns (λ l. record l { second = l.second ++ m.body ∷ [] }) ∷ acks ∷ []

unfoldable pub judge_split : Bool → ByConsumer → Verdict
unfolding unique
judge_split ok l =
    let all = l.first ++ l.second in
    if not ok || not (nat_eq (length all) message_count)
    then fails (text_of ("received " ∷ decimal (length all) ∷ "/" ∷ decimal message_count ∷ []))
    else if not (nat_eq (length (unique all)) message_count)
    then fails (text_of ("duplicate delivery (" ∷ decimal (length (unique all)) ∷ " unique)" ∷ []))
    else if is_empty l.first || is_empty l.second
    then fails "one consumer was starved (not balanced)"
    else passes (
        text_of (
          "split "
          ∷ decimal (length l.first)
          ∷ "/"
          ∷ decimal (length l.second)
          ∷ ", no dupes"
          ∷ []))

module _ {W Token : Type 0} (bus : BusStage ByConsumer W Token) where
  unfoldable pub competing_consumers : String → Op W ScenarioResult
  unfolding ◌>>=◌ ◌>>◌ ◌finally◌ each named judge_split conclude unsupported
  competing_consumers name = do
    t0 ← observe bus.clock
    if not bus.capabilities.supports_manual_ack
        then unsupported bus.clock name "no manual ack on this broker" t0
        else do
          topic ← named bus.nonce "mbc.s9."
          queue_id ← named bus.nonce "workers-"
          a ←
              bus.subscribe topic make_first
                (record no_subscribe_options { subscriber_id = some queue_id })
          b ←
              bus.subscribe topic make_second
                (record no_subscribe_options { subscriber_id = some queue_id })
          (do
            each (range 0 message_count)
                λ i. bus.publish topic (text_of ("job-" ∷ decimal i ∷ [])) none no_publish_options
            ok ← bus.wait_until (λ l. leb message_count (length l.first + length l.second)) 6000
            l ← observe bus.variables
            conclude bus.clock name t0 (judge_split ok l))
              finally (do bus.unsubscribe a; bus.unsubscribe b)
