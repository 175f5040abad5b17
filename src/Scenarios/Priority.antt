-- ===== src/Scenarios/Priority.antt =====
-- s14-priority.ts: a message that overtakes the messages before it.
use messaging_poc.Common.{
  ℕ, ◌+◌, pos, String, List, [], ◌∷◌, ◌++◌, true, false, not, none, some, if◌then◌else◌, text_of,
  decimal, leb, ltb, length, string_eq,
}
use messaging_poc.Abstractions.{no_publish_options, no_subscribe_options}
use messaging_poc.Port.{Op}
use messaging_poc.Runner.{ScenarioResult}
use messaging_poc.Scenarios.Program.{◌>>=◌, ◌>>◌, ◌finally◌, observe, each, fail}
use messaging_poc.Scenarios.Stage.{BusStage, Handler, acks_else, assigns, waits, named}
use messaging_poc.Scenarios.Values.{range, index_of, commas}
use messaging_poc.Scenarios.Verdict.{Verdict, passes, fails, conclude}

abbrev pub low_count : ℕ
low_count = 8

abbrev pub handler_delay_ms : ℕ
handler_delay_ms = 60

pub record Prioritised : Type 0 where
  pub received : List String
  pub settled : ℕ

abbrev pub settle_slowly : Handler Prioritised
settle_slowly m now l =
    assigns (λ l. record l { received = l.received ++ m.body ∷ [] })
    ∷ waits handler_delay_ms
    ∷ acks_else (λ e l. l) false
    ∷ assigns (λ l. record l { settled = l.settled + 1 })
    ∷ []

-- `indexOf('HIGH')`, none for -1.
unfoldable pub judge_overtaking : List String → Verdict
unfolding index_of
judge_overtaking received = elim (index_of received "HIGH") [
  | none ↦
      fails (
        text_of ("high-priority message arrived at index -1 (order: " ∷ commas received ∷ ")" ∷ []))
  | some i ↦
      if ltb 1 i
      then fails (
          text_of (
            "high-priority message arrived at index "
            ∷ decimal i
            ∷ " (order: "
            ∷ commas received
            ∷ ")"
            ∷ []))
      else passes
          (text_of ("priority:9 overtook the backlog (arrived at index " ∷ decimal i ∷ ")" ∷ []))
]

module _ {W Token : Type 0} (bus : BusStage Prioritised W Token) where
  unfoldable pub priority : String → Op W ScenarioResult
  unfolding ◌>>=◌ ◌>>◌ ◌finally◌ each named judge_overtaking conclude fail
  priority name = do
    t0 ← observe bus.clock
    topic ← named bus.nonce "mbc.s14."
    id ← named bus.nonce "prio-"
    sub ←
        bus.subscribe topic settle_slowly
          (record no_subscribe_options { subscriber_id = some id; priority_queue = some true })
    (do
      each (range 0 low_count) λ i.
          bus.publish topic (text_of ("low-" ∷ decimal i ∷ [])) none
            (record no_publish_options { priority = some (pos 1) })
      bus.publish topic "HIGH" none (record no_publish_options { priority = some (pos 9) })
      ok ← bus.wait_until (λ l. leb (low_count + 1) (length l.received)) 8000
      early ← observe bus.variables
      if not ok
          then fail bus.clock name
              (text_of (
                "received " ∷ decimal (length early.received) ∷ "/" ∷ decimal (low_count + 1) ∷ []))
              t0
          else do
            bus.wait_until (λ l. leb (low_count + 1) l.settled) 2000
            l ← observe bus.variables
            conclude bus.clock name t0 (judge_overtaking l.received))
        finally bus.unsubscribe sub
