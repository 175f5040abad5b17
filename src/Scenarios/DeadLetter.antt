-- ===== src/Scenarios/DeadLetter.antt =====
-- s8-poison-dlq.ts: a message that always fails.
use messaging_poc.Common.{
  ℕ, ◌+◌, String, List, [], ◌∷◌, ◌++◌, Bool, true, false, not, ◌||◌, Option, none, some,
  if◌then◌else◌, text_of, decimal, ltb, length, string_eq,
}
use messaging_poc.Abstractions.{
  fanout, no_publish_options, no_subscribe_options, dead_letter_address, BusCapabilities,
}
use messaging_poc.Port.{Op}
use messaging_poc.Runner.{ScenarioResult}
use messaging_poc.Scenarios.Program.{◌>>=◌, ◌>>◌, ◌finally◌, observe, pass, fail, unsupported}
use messaging_poc.Scenarios.Stage.{
  Message, BusStage, Handler, nacks, assigns, named, start, has_some,
}

-- The note on the delivery count, in both scenarios.
unfoldable pub count_note : BusCapabilities → Option ℕ → String
count_note capabilities none = ""
count_note capabilities (some n) =
    if capabilities.reports_delivery_count
    then text_of (" (final deliveryCount=" ∷ decimal n ∷ ")" ∷ [])
    else ""

-- `attempts < 2 || attempts > limit + 1`
abbrev pub out_of_range : ℕ → ℕ → Bool
out_of_range attempts limit = ltb attempts 2 || ltb (limit + 1) attempts

pub record Poisoned : Type 0 where
  pub attempts : ℕ
  pub last_count : Option ℕ
  pub main : List Message
  pub dlq : List Message

abbrev pub poison_deliveries : ℕ
poison_deliveries = 3

abbrev pub always_nack : Handler Poisoned
always_nack m now l =
    assigns (λ l. record l { attempts = l.attempts + 1; last_count = m.delivery_count })
    ∷ nacks true
    ∷ []

module _ {W Token : Type 0} (bus : BusStage Poisoned W Token) where
  unfoldable pub poison_dlq : String → Op W ScenarioResult
  unfolding ◌>>=◌ ◌>>◌ ◌finally◌ named start pass fail unsupported dead_letter_address count_note
  poison_dlq name = do
    t0 ← observe bus.clock
    if not bus.capabilities.supports_dead_letter
        then unsupported bus.clock name "no dead-letter support on this broker" t0
        else do
          topic ← named bus.nonce "mbc.s8."
          poison_id ← named bus.nonce "poison-"
          main ←
              start bus topic (λ m l. record l { main = l.main ++ m ∷ [] }) (some always_nack)
                (some false)
                (record no_subscribe_options {
                  subscriber_id = some poison_id;
                  dead_letter = some true;
                  max_deliveries = some poison_deliveries;
                })
          dlq_id ← named bus.nonce "dlq-"
          dlq ←
              start bus (dead_letter_address topic) (λ m l. record l { dlq = l.dlq ++ m ∷ [] }) none
                none
                (record no_subscribe_options { kind = some fanout; subscriber_id = some dlq_id })
          (do
            bus.publish topic "poison-1" none no_publish_options
            landed ← bus.wait_until (λ l. has_some l.dlq) 8000
            l ← observe bus.variables
            if not landed
                then fail bus.clock name
                    (text_of (
                      "never dead-lettered (attempts="
                      ∷ decimal l.attempts
                      ∷ ", dlq="
                      ∷ decimal (length l.dlq)
                      ∷ ")"
                      ∷ []))
                    t0
                else if out_of_range l.attempts poison_deliveries
                then fail bus.clock name
                    (text_of (
                      "delivery attempts out of range: "
                      ∷ decimal l.attempts
                      ∷ " (limit "
                      ∷ decimal poison_deliveries
                      ∷ ")"
                      ∷ []))
                    t0
                else pass bus.clock name
                    (text_of (
                      "dead-lettered after "
                      ∷ decimal l.attempts
                      ∷ " attempts"
                      ∷ count_note bus.capabilities l.last_count
                      ∷ []))
                    t0)
              finally (do bus.unsubscribe main; bus.unsubscribe dlq)
