-- ===== src/Scenarios/Isolation.antt =====
-- s20-handler-fault-isolation.ts: a handler that throws.
use messaging_poc.Common.{
  ℕ, ◌+◌, String, List, [], ◌∷◌, ◌++◌, not, none, some, if◌then◌else◌, text_of, decimal, leb,
  nat_eq, length, string_eq, contains, lookup, insert, or_else,
}
use messaging_poc.Abstractions.{no_publish_options, no_subscribe_options}
use messaging_poc.Port.{Op}
use messaging_poc.Runner.{ScenarioResult}
use messaging_poc.Scenarios.Program.{◌>>=◌, ◌>>◌, ◌finally◌, observe, each, pass, fail, unsupported}
use messaging_poc.Scenarios.Stage.{BusStage, Handler, acks, throws, assigns, named}
use messaging_poc.Scenarios.Values.{range}
use messaging_poc.Scenarios.Recovery.{numbered}

abbrev pub fault_count : ℕ
fault_count = 6

pub record Faulty : Type 0 where
  pub attempts : List (String × ℕ)
  pub acked : List String
  pub thrown : ℕ

-- The attempts at a body, this one included.
abbrev pub attempt : String → Faulty → ℕ
attempt body l = or_else (lookup l.attempts body) 0 + 1

-- `Set.add`
abbrev pub add : String → List String → List String
add body acked = if contains acked body then acked else acked ++ body ∷ []

unfoldable pub throw_once : Handler Faulty
throw_once m now l =
    assigns (λ l. record l { attempts = insert l.attempts m.body (attempt m.body l) })
    ∷ (if nat_eq (attempt m.body l) 1
        then assigns (λ l. record l { thrown = l.thrown + 1 })
          ∷ throws (text_of ("simulated handler failure for " ∷ m.body ∷ []))
          ∷ []
        else acks ∷ assigns (λ l. record l { acked = add m.body l.acked }) ∷ [])

module _ {W Token : Type 0} (bus : BusStage Faulty W Token) where
  unfoldable pub handler_fault_isolation : String → Op W ScenarioResult
  unfolding ◌>>=◌ ◌>>◌ ◌finally◌ each named throw_once pass fail unsupported
  handler_fault_isolation name = do
    t0 ← observe bus.clock
    if not bus.capabilities.supports_manual_ack
        then unsupported bus.clock name
            "needs manual ack/redelivery to recover from a thrown handler" t0
        else do
          topic ← named bus.nonce "mbc.s20."
          subscriber_id ← named bus.nonce "fault-"
          sub ←
              bus.subscribe topic throw_once
                (record no_subscribe_options { subscriber_id = some subscriber_id })
          (do
            each (range 0 fault_count)
                λ i. bus.publish topic (numbered "msg-" i) none no_publish_options
            ok ← bus.wait_until (λ l. leb fault_count (length l.acked)) 30000
            l ← observe bus.variables
            if ok
                then pass bus.clock name
                    (text_of (
                      "consumer survived "
                      ∷ decimal l.thrown
                      ∷ " handler exceptions; all "
                      ∷ decimal fault_count
                      ∷ " messages processed on retry"
                      ∷ []))
                    t0
                else fail bus.clock name
                    (text_of (
                      "only "
                      ∷ decimal (length l.acked)
                      ∷ "/"
                      ∷ decimal fault_count
                      ∷ " recovered after a thrown handler (exceptions="
                      ∷ decimal l.thrown
                      ∷ ")"
                      ∷ []))
                    t0)
              finally bus.unsubscribe sub
