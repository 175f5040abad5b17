-- ===== src/Scenarios/Failover.antt =====
-- s18-single-active-consumer.ts: the active consumer and the standby.
use messaging_poc.Common.{
  ℕ, ◌+◌, ◌-◌, ◌*◌, String, List, [], ◌∷◌, ◌++◌, map, Bool, true, false, not, Option, none, some,
  if◌then◌else◌, text_of, decimal, leb, length, is_empty, contains,
}
use messaging_poc.Abstractions.{no_publish_options, no_subscribe_options}
use messaging_poc.Port.{Op}
use messaging_poc.Runner.{ScenarioResult}
use messaging_poc.Scenarios.Program.{
  ◌>>=◌, ◌>>◌, ◌finally◌, ◌catch◌, done, observe, each, fail, unsupported,
}
use messaging_poc.Scenarios.Stage.{BusStage, Handler, acks_else, assigns, named}
use messaging_poc.Scenarios.Verdict.{Verdict, passes, fails, conclude}
use messaging_poc.Scenarios.Values.{
  range, unique, split, second, number, number_eq, out_of_order, shown_number, commas, greatest,
  below,
}

abbrev pub batch_size : ℕ
batch_size = 5

abbrev pub batches_total : ℕ
batches_total = batch_size * 2

-- `byConsumer`
pub record Served : Type 0 where
  pub first : List (Option ℕ)
  pub second : List (Option ℕ)

-- `Number(m.body.split('-')[1])`
unfoldable pub sequence_of : String → Option ℕ
unfolding split number
sequence_of body = number (second (split "-" body))

abbrev pub serve_first : Handler Served
serve_first m now l =
    assigns (λ l. record l { first = l.first ++ sequence_of m.body ∷ [] })
    ∷ acks_else (λ e l. l) false
    ∷ []

abbrev pub serve_second : Handler Served
serve_second m now l =
    assigns (λ l. record l { second = l.second ++ sequence_of m.body ∷ [] })
    ∷ acks_else (λ e l. l) false
    ∷ []

-- `activeIdx === 0`
unfoldable pub first_is_active : Served → Bool
first_is_active l = leb (length l.second) (length l.first)

-- `byConsumer[activeIdx]` and `byConsumer[standbyIdx]`
abbrev pub active : Bool → Served → List (Option ℕ)
active is_first l = if is_first then l.first else l.second

abbrev pub standby : Bool → Served → List (Option ℕ)
standby is_first l = if is_first then l.second else l.first

-- The first number that is not in the union.
unfoldable pub first_missing : List (Option ℕ) → List ℕ → Option ℕ
first_missing union [] = none
first_missing union (i ∷ rest) =
    let later = first_missing union rest in if contains union (some i) then later else some i

-- The detail on a consumer that is out of order.
unfoldable pub served_disorder : Bool → List (Option ℕ) → Option String
unfolding out_of_order shown_number
served_disorder is_first seq =
    if out_of_order seq
    then some (
        text_of (
          "consumer "
          ∷ (if is_first then "0" else "1")
          ∷ " out of order: "
          ∷ commas (map shown_number seq)
          ∷ []))
    else none

-- The judgement on the last state, `is_first` for the consumer that was active before the failover.
unfoldable pub judge_failover : Bool → Served → Verdict
unfolding first_missing served_disorder shown_number greatest
judge_failover is_first l =
    if is_empty (standby is_first l)
    then fails "standby never took over after failover"
    else elim (first_missing (active is_first l ++ standby is_first l) (range 0 batches_total)) [
      | some i ↦ fails (text_of ("message m-" ∷ decimal i ∷ " was lost across failover" ∷ []))
      | none ↦ elim (served_disorder is_first (active is_first l)) [
        | some detail ↦ fails detail
        | none ↦ elim (served_disorder (not is_first) (standby is_first l)) [
          | some detail ↦ fails detail
          | none ↦
              if below (greatest (standby is_first l)) batch_size
              then fails (
                  text_of (
                    "standby did not take over the post-failover batch (got "
                    ∷ commas (map shown_number (standby is_first l))
                    ∷ ")"
                    ∷ []))
              else passes (
                  text_of (
                    "active served "
                    ∷ decimal (length (active is_first l))
                    ∷ ", standby took over "
                    ∷ decimal (length (standby is_first l))
                    ∷ " after failover, order preserved"
                    ∷ []))
        ]
      ]
    ]

module _ {W Token : Type 0} (bus : BusStage Served W Token) where
  abbrev pub publish_number : String → ℕ → Op W Unit
  publish_number topic i =
      bus.publish topic (text_of ("m-" ∷ decimal i ∷ [])) none no_publish_options

  -- From the failover on.
  unfoldable pub fail_over : String → String → ℕ → Bool → Token → Op W ScenarioResult
  unfolding ◌>>=◌ ◌>>◌ each judge_failover conclude fail
  fail_over name topic t0 is_first token = do
    bus.unsubscribe token
    bus.delay 300
    each (range batch_size (batches_total - batch_size)) (publish_number topic)
    ok ← bus.wait_until (λ l. leb batches_total (length (unique (l.first ++ l.second)))) 8000
    l ← observe bus.variables
    if not ok
        then fail bus.clock name
            (text_of (
              "only "
              ∷ decimal (length (unique (l.first ++ l.second)))
              ∷ "/"
              ∷ decimal batches_total
              ∷ " distinct messages delivered after failover"
              ∷ []))
            t0
        else do
          bus.delay 200
          last ← observe bus.variables
          conclude bus.clock name t0 (judge_failover is_first last)

  unfoldable pub single_active_consumer : String → Op W ScenarioResult
  unfolding ◌>>=◌ ◌>>◌ ◌finally◌ ◌catch◌ each named first_is_active fail_over fail unsupported
  single_active_consumer name = do
    t0 ← observe bus.clock
    if not bus.capabilities.supports_manual_ack
        then unsupported bus.clock name "no manual ack on this broker" t0
        else do
          topic ← named bus.nonce "mbc.s18."
          queue_id ← named bus.nonce "sac-"
          a ← bus.subscribe topic serve_first (record no_subscribe_options {
            subscriber_id = some queue_id;
            single_active_consumer = some true;
          })
          b ← bus.subscribe topic serve_second (record no_subscribe_options {
            subscriber_id = some queue_id;
            single_active_consumer = some true;
          })
          (do
            each (range 0 batch_size) (publish_number topic)
            first_done ←
                bus.wait_until (λ l. leb batch_size (length l.first + length l.second)) 8000
            l ← observe bus.variables
            if not first_done
                then fail bus.clock name
                    (text_of (
                      "only "
                      ∷ decimal (length l.first + length l.second)
                      ∷ "/"
                      ∷ decimal batch_size
                      ∷ " of the first batch delivered"
                      ∷ []))
                    t0
                else do
                  bus.delay 200
                  before ← observe bus.variables
                  if not (is_empty (standby (first_is_active before) before))
                      then fail bus.clock name
                          (text_of (
                            "both consumers were active before failover ("
                            ∷ decimal (length before.first)
                            ∷ "/"
                            ∷ decimal (length before.second)
                            ∷ ")"
                            ∷ []))
                          t0
                      else fail_over name topic t0 (first_is_active before)
                          (if first_is_active before then a else b))
              finally (do bus.unsubscribe a catch λ e. done; bus.unsubscribe b catch λ e. done)
