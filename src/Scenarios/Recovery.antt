-- ===== src/Scenarios/Recovery.antt =====
-- s17-durable-subscription.ts and s19-stream-replay.ts: what was published is still there.
use messaging_poc.Common.{
  ℕ, String, List, [], ◌∷◌, ◌++◌, map, true, not, Option, none, some, if◌then◌else◌, text_of,
  decimal, leb, length, string_eq, contains,
}
use messaging_poc.Abstractions.{no_publish_options, no_subscribe_options}
use messaging_poc.Port.{Op}
use messaging_poc.Runner.{ScenarioResult}
use messaging_poc.Scenarios.Program.{◌>>=◌, ◌>>◌, ◌finally◌, observe, each, fail, unsupported}
use messaging_poc.Scenarios.Stage.{BusStage, Handler, acks, assigns, named}
use messaging_poc.Scenarios.Values.{range}
use messaging_poc.Scenarios.Verdict.{Verdict, passes, fails, conclude}

abbrev pub gap_count : ℕ
gap_count = 5

abbrev pub only_ack : Handler (List String)
only_ack m now l = acks ∷ []

abbrev pub keep_and_ack : Handler (List String)
keep_and_ack m now l = assigns (λ l. l ++ m.body ∷ []) ∷ acks ∷ []

-- The first of some texts that was not received.
unfoldable pub first_lost : List String → List String → Option String
first_lost received [] = none
first_lost received (e ∷ es) =
    let later = first_lost received es in if contains received e then later else some e

abbrev pub numbered : String → ℕ → String
numbered prefix i = text_of (prefix ∷ decimal i ∷ [])

unfoldable pub judge_gap : List String → Verdict
unfolding first_lost range
judge_gap received = elim (first_lost received (map (numbered "gap-") (range 0 gap_count))) [
  | some e ↦ fails (text_of ("lost message " ∷ e ∷ " across the gap" ∷ []))
  | none ↦ passes (
      text_of
        ("all " ∷ decimal gap_count ∷ " offline messages retained and delivered on reattach" ∷ []))
]

module _ {W Token : Type 0} (bus : BusStage (List String) W Token) where
  unfoldable pub durable_subscription : String → Op W ScenarioResult
  unfolding ◌>>=◌ ◌>>◌ ◌finally◌ each named judge_gap conclude fail
  durable_subscription name = do
    t0 ← observe bus.clock
    topic ← named bus.nonce "mbc.s17."
    subscriber_id ← named bus.nonce "durable-"
    warmup ←
        bus.subscribe topic only_ack
          (record no_subscribe_options { subscriber_id = some subscriber_id })
    bus.unsubscribe warmup
    bus.delay 200
    each (range 0 gap_count) λ i. bus.publish topic (numbered "gap-" i) none no_publish_options
    bus.delay 200
    sub ←
        bus.subscribe topic keep_and_ack
          (record no_subscribe_options { subscriber_id = some subscriber_id })
    (do
      ok ← bus.wait_until (λ l. leb gap_count (length l)) 8000
      received ← observe bus.variables
      if not ok
          then fail bus.clock name
              (text_of (
                "received "
                ∷ decimal (length received)
                ∷ "/"
                ∷ decimal gap_count
                ∷ " after reattach"
                ∷ []))
              t0
          else conclude bus.clock name t0 (judge_gap received))
        finally bus.unsubscribe sub

abbrev pub stream_count : ℕ
stream_count = 8

pub record Replayed : Type 0 where
  pub first_seen : List String
  pub replayed : List String

abbrev pub see_first : Handler Replayed
see_first m now l = assigns (λ l. record l { first_seen = l.first_seen ++ m.body ∷ [] }) ∷ acks ∷ []

abbrev pub see_again : Handler Replayed
see_again m now l = assigns (λ l. record l { replayed = l.replayed ++ m.body ∷ [] }) ∷ acks ∷ []

unfoldable pub judge_replay : List String → Verdict
unfolding first_lost range
judge_replay replayed = elim (first_lost replayed (map (numbered "evt-") (range 0 stream_count))) [
  | some e ↦ fails (text_of ("replay missing " ∷ e ∷ []))
  | none ↦ passes (
      text_of (
        "fresh subscriber replayed all "
        ∷ decimal stream_count
        ∷ " messages from offset 0 (full history)"
        ∷ []))
]

module _ {W Token : Type 0} (bus : BusStage Replayed W Token) where
  -- The new subscriber, after the publishes.
  unfoldable pub replay_history : String → String → ℕ → Op W ScenarioResult
  unfolding ◌>>=◌ ◌>>◌ ◌finally◌ judge_replay conclude fail
  replay_history name topic t0 = do
    again ←
        bus.subscribe topic see_again (record no_subscribe_options { stream_replay = some true })
    (do
      ok ← bus.wait_until (λ l. leb stream_count (length l.replayed)) 12000
      l ← observe bus.variables
      if not ok
          then fail bus.clock name
              (text_of (
                "fresh subscriber replayed "
                ∷ decimal (length l.replayed)
                ∷ "/"
                ∷ decimal stream_count
                ∷ " from offset 0"
                ∷ []))
              t0
          else conclude bus.clock name t0 (judge_replay l.replayed))
        finally bus.unsubscribe again

  unfoldable pub stream_replay : String → Op W ScenarioResult
  unfolding ◌>>=◌ ◌>>◌ each named replay_history fail unsupported
  stream_replay name = do
    t0 ← observe bus.clock
    if not bus.capabilities.supports_stream_replay
        then unsupported bus.clock name
            "broker cannot replay consumed history (no stream/offset support)" t0
        else do
          topic ← named bus.nonce "mbc.s19."
          first ←
              bus.subscribe topic see_first
                (record no_subscribe_options { stream_replay = some true })
          bus.delay 300
          each (range 0 stream_count)
              λ i. bus.publish topic (numbered "evt-" i) none no_publish_options
          ok ← bus.wait_until (λ l. leb stream_count (length l.first_seen)) 10000
          if not ok
              then (do
                bus.unsubscribe first
                l ← observe bus.variables
                fail bus.clock name
                    (text_of (
                      "establishing subscriber saw "
                      ∷ decimal (length l.first_seen)
                      ∷ "/"
                      ∷ decimal stream_count
                      ∷ " live messages"
                      ∷ []))
                    t0)
              else do bus.unsubscribe first; bus.delay 300; replay_history name topic t0
