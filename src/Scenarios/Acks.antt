-- ===== src/Scenarios/Acks.antt =====
-- s7-explicit-ack.ts: who settles a message. A part of the scenario returns its note, or the result with
-- which the scenario ends early.
use messaging_poc.Common.{
  ℕ, ◌+◌, String, List, [], ◌∷◌, ◌++◌, Bool, true, false, not, ◌&&◌, Option, none, some,
  if◌then◌else◌, text_of, decimal, join, leb, nat_eq, length, ◌⊎◌, inr,
}
use messaging_poc.Abstractions.{no_publish_options, no_subscribe_options}
use messaging_poc.Port.{Op}
use messaging_poc.Runner.{ScenarioResult}
use messaging_poc.Scenarios.Program.{
  ◌>>=◌, ◌>>◌, ◌finally◌, pure, observe, early, or_return, pass, fail, unsupported,
}
use messaging_poc.Scenarios.Stage.{
  Message, BusStage, Handler, acks, nacks, assigns, named, start, has_some,
}
use messaging_poc.Scenarios.Values.{shown}

pub record Settled : Type 0 where
  pub acked : List Message
  pub nacked : List Message
  pub attempts : ℕ
  pub second_count : Option ℕ
  pub crashed : List Message
  pub fresh : List Message

-- The first delivery is requeued, a later one is acked.
unfoldable pub nack_first : Handler Settled
nack_first m now l =
    if nat_eq (l.attempts + 1) 1
    then assigns (λ l. record l { attempts = l.attempts + 1 }) ∷ nacks true ∷ []
    else assigns (λ l. record l { attempts = l.attempts + 1; second_count = m.delivery_count })
      ∷ acks
      ∷ []

-- Receives and never settles.
abbrev pub never_settle : Handler Settled
never_settle m now l = []

abbrev pub is_two : Option ℕ → Bool
is_two none = false
is_two (some n) = nat_eq n 2

module _ {W Token : Type 0} (bus : BusStage Settled W Token) where
  unfoldable pub acks_once : String → ℕ → Op W (ScenarioResult ⊎ String)
  unfolding ◌>>=◌ ◌>>◌ ◌finally◌ early named start fail
  acks_once name t0 = do
    topic ← named bus.nonce "mbc.s7a."
    id ← named bus.nonce "ack-"
    c ←
        start bus topic (λ m l. record l { acked = l.acked ++ m ∷ [] }) none none
          (record no_subscribe_options { subscriber_id = some id })
    (do
      bus.publish topic "ack-1" none no_publish_options
      bus.wait_until (λ l. has_some l.acked) 4000
      bus.delay 500
      l ← observe bus.variables
      if not (nat_eq (length l.acked) 1)
          then early (
              fail bus.clock name
                (text_of ("(a) acked msg delivered " ∷ decimal (length l.acked) ∷ "×" ∷ [])) t0)
          else pure (inr "ack→once"))
        finally bus.unsubscribe c

  unfoldable pub nack_redelivers : String → ℕ → Op W (ScenarioResult ⊎ String)
  unfolding ◌>>=◌ ◌>>◌ ◌finally◌ early named start nack_first fail
  nack_redelivers name t0 = do
    topic ← named bus.nonce "mbc.s7b."
    id ← named bus.nonce "nack-"
    c ←
        start bus topic (λ m l. record l { nacked = l.nacked ++ m ∷ [] }) (some nack_first)
          (some false) (record no_subscribe_options { subscriber_id = some id })
    (do
      bus.publish topic "nack-1" none no_publish_options
      ok ← bus.wait_until (λ l. leb 2 l.attempts) 5000
      l ← observe bus.variables
      if not ok
          then early (fail bus.clock name "(b) nacked msg was not redelivered" t0)
          else if bus.capabilities.reports_delivery_count && not (is_two l.second_count)
          then early (
              fail bus.clock name
                (text_of ("(b) expected deliveryCount 2, got " ∷ shown l.second_count ∷ [])) t0)
          else pure (
              inr (
                if bus.capabilities.reports_delivery_count
                then "nack→redelivered (count=2)"
                else "nack→redelivered (count n/a)")))
        finally bus.unsubscribe c

  unfoldable pub crash_redelivers : String → ℕ → Op W (ScenarioResult ⊎ String)
  unfolding ◌>>=◌ ◌>>◌ ◌finally◌ early named start fail
  crash_redelivers name t0 = do
    topic ← named bus.nonce "mbc.s7c."
    queue_id ← named bus.nonce "crash-"
    crashed ←
        start bus topic (λ m l. record l { crashed = l.crashed ++ m ∷ [] }) (some never_settle)
          (some false) (record no_subscribe_options { subscriber_id = some queue_id })
    bus.publish topic "crash-1" none no_publish_options
    bus.wait_until (λ l. has_some l.crashed) 4000
    bus.unsubscribe crashed
    fresh ←
        start bus topic (λ m l. record l { fresh = l.fresh ++ m ∷ [] }) none none
          (record no_subscribe_options { subscriber_id = some queue_id })
    (do
      got ← bus.wait_until (λ l. has_some l.fresh) 5000
      if not got
          then early (fail bus.clock name "(c) crashed consumer msg was lost" t0)
          else pure (inr "crash→redelivered"))
        finally bus.unsubscribe fresh

  unfoldable pub explicit_ack : String → Op W ScenarioResult
  unfolding ◌>>=◌ or_return acks_once nack_redelivers crash_redelivers pass unsupported join
  explicit_ack name = do
    t0 ← observe bus.clock
    if not bus.capabilities.supports_manual_ack
        then unsupported bus.clock name "no manual ack on this broker" t0
        else or_return (acks_once name t0) λ a. or_return (nack_redelivers name t0) λ b.
          or_return (crash_redelivers name t0)
            λ c. pass bus.clock name (join "; " (a ∷ b ∷ c ∷ [])) t0
