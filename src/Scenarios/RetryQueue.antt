-- ===== src/Scenarios/RetryQueue.antt =====
-- s11-retry-queue.ts: healthy messages flow past one that always fails.
use messaging_poc.Common.{
  ℕ, ◌+◌, ◌-◌, ◌*◌, pos, String, List, [], ◌∷◌, ◌++◌, Bool, true, false, not, ◌&&◌, Option, none,
  some, if◌then◌else◌, text_of, decimal, leb, nat_eq, length, starts_with, string_eq, or_else,
}
use messaging_poc.Abstractions.{
  fanout, no_publish_options, no_subscribe_options, dead_letter_address,
}
use messaging_poc.Port.{Op}
use messaging_poc.Runner.{ScenarioResult}
use messaging_poc.Scenarios.Program.{◌>>=◌, ◌>>◌, ◌finally◌, observe, each, unsupported}
use messaging_poc.Scenarios.Stage.{
  Message, BusStage, Handler, acks, nacks, assigns, named, start, has_some,
}
use messaging_poc.Scenarios.Values.{range, unique}
use messaging_poc.Scenarios.Verdict.{Verdict, passes, fails, conclude}
use messaging_poc.Abstractions.{BusCapabilities}
use messaging_poc.Scenarios.DeadLetter.{count_note, out_of_range}

pub record Retried : Type 0 where
  pub good : List String
  pub attempts : ℕ
  pub last_count : Option ℕ
  pub good_drained_at : Option ℕ
  pub dlq_at : Option ℕ
  pub main : List Message
  pub dlq : List Message

abbrev pub retry_deliveries : ℕ
retry_deliveries = 6

abbrev pub backoff_ms : ℕ
backoff_ms = 250

abbrev pub good_count : ℕ
good_count = 8

-- A healthy message; the last one is timed.
unfoldable pub drain : String → ℕ → Retried → Retried
drain body now l = record l {
  good = l.good ++ body ∷ [];
  good_drained_at =
      if nat_eq (length (l.good ++ body ∷ [])) good_count then some now else l.good_drained_at;
}

unfoldable pub work : Handler Retried
unfolding drain starts_with
work m now l =
    if starts_with m.body "poison"
    then assigns (λ l. record l { attempts = l.attempts + 1; last_count = m.delivery_count })
      ∷ nacks true
      ∷ []
    else assigns (drain m.body now) ∷ acks ∷ []

-- `dlqAt ??= performance.now()`
abbrev pub land : Handler Retried
land m now l = assigns (λ l. record l { dlq_at = some (or_else l.dlq_at now) }) ∷ acks ∷ []

-- `fmt`
unfoldable pub fmt : ℕ → Option ℕ → String
fmt t0 none = "n/a"
fmt t0 (some at) = text_of (decimal (at - t0) ∷ "ms" ∷ [])

-- `goodDrainedAt === undefined || dlqAt === undefined || goodDrainedAt >= dlqAt`, or the two times.
unfoldable pub unblocked : Option ℕ → Option ℕ → Option (ℕ × ℕ)
unblocked none dlq_at = none
unblocked (some good_at) none = none
unblocked (some good_at) (some dlq_at) = if leb dlq_at good_at then none else some (good_at, dlq_at)

-- The judgement after the wait, without the clock.
unfoldable pub judge_retries : BusCapabilities → ℕ → Bool → Retried → Verdict
unfolding unique unblocked fmt count_note
judge_retries capabilities t0 drained l =
    if not drained
    then fails (
        text_of (
          "pipeline did not drain (good="
          ∷ decimal (length l.good)
          ∷ "/"
          ∷ decimal good_count
          ∷ ", dlq="
          ∷ decimal (length l.dlq)
          ∷ ", attempts="
          ∷ decimal l.attempts
          ∷ ")"
          ∷ []))
    else if not (nat_eq (length (unique l.good)) good_count)
    then fails (
        text_of (
          "good messages not delivered exactly once ("
          ∷ decimal (length (unique l.good))
          ∷ " unique of "
          ∷ decimal (length l.good)
          ∷ ")"
          ∷ []))
    else if out_of_range l.attempts retry_deliveries
    then fails (
        text_of (
          "retry attempts out of range: "
          ∷ decimal l.attempts
          ∷ " (limit "
          ∷ decimal retry_deliveries
          ∷ ")"
          ∷ []))
    else elim (unblocked l.good_drained_at l.dlq_at) [
      | none ↦ fails (
          text_of (
            "main queue was blocked by the poison message (good done "
            ∷ fmt t0 l.good_drained_at
            ∷ ", dlq "
            ∷ fmt t0 l.dlq_at
            ∷ ")"
            ∷ []))
      | some times ↦ passes (
          text_of (
            decimal good_count
            ∷ " ok in "
            ∷ decimal (times.0 - t0)
            ∷ "ms; poison→DLQ after "
            ∷ decimal l.attempts
            ∷ " attempts"
            ∷ count_note capabilities l.last_count
            ∷ " in "
            ∷ decimal (times.1 - t0)
            ∷ "ms; main unblocked (ok done "
            ∷ decimal (times.1 - times.0)
            ∷ "ms before DLQ)"
            ∷ []))
    ]

module _ {W Token : Type 0} (bus : BusStage Retried W Token) where
  abbrev pub publish_job : String → ℕ → Op W Unit
  publish_job topic i =
      bus.publish topic (text_of ("job-" ∷ decimal i ∷ [])) none no_publish_options

  unfoldable pub retry_queue : String → Op W ScenarioResult
  unfolding ◌>>=◌ ◌>>◌ ◌finally◌ each named start unsupported dead_letter_address judge_retries
      conclude work
  retry_queue name = do
    t0 ← observe bus.clock
    if not bus.capabilities.supports_dead_letter
        then unsupported bus.clock name "no dead-letter support on this broker" t0
        else do
          topic ← named bus.nonce "mbc.s11."
          worker_id ← named bus.nonce "worker-"
          main ←
              start bus topic (λ m l. record l { main = l.main ++ m ∷ [] }) (some work) (some false)
                (record no_subscribe_options {
                  subscriber_id = some worker_id;
                  dead_letter = some true;
                  max_deliveries = some retry_deliveries;
                  retry_delay_ms = some (pos backoff_ms);
                })
          dlq_id ← named bus.nonce "dlq-"
          dlq ←
              start bus (dead_letter_address topic) (λ m l. record l { dlq = l.dlq ++ m ∷ [] })
                (some land) none
                (record no_subscribe_options { kind = some fanout; subscriber_id = some dlq_id })
          (do
            each (range 0 3) (publish_job topic)
            bus.publish topic "poison-1" none no_publish_options
            each (range 3 (good_count - 3)) (publish_job topic)
            drained ←
                bus.wait_until (λ l. leb good_count (length l.good) && has_some l.dlq)
                  (retry_deliveries * backoff_ms + 4000)
            l ← observe bus.variables
            conclude bus.clock name t0 (judge_retries bus.capabilities t0 drained l))
              finally (do bus.unsubscribe main; bus.unsubscribe dlq)
