-- ===== src/Scenarios/Idempotent.antt =====
-- s10-idempotent-consumer.ts: duplicates, with no store, with the in-memory store, and with a store that
-- throws.
use messaging_poc.Common.{
  ℕ, ◌+◌, String, List, [], ◌∷◌, ◌++◌, true, false, not, Option, none, some, if◌then◌else◌, text_of,
  decimal, join, nat_eq, ◌⊎◌, inr, string_eq,
}
use messaging_poc.Abstractions.{no_publish_options, no_subscribe_options}
use messaging_poc.Idempotency.{SeenKeys, handle_message, handle_reply, runs_inner, acks_duplicate}
use messaging_poc.Port.{Op, Failure, failure_message, not_supported, store_down, error}
use messaging_poc.Runner.{ScenarioResult}
use messaging_poc.Scenarios.Program.{
  ◌>>=◌, ◌>>◌, ◌finally◌, pure, observe, early, or_return, pass, fail, unsupported,
}
use messaging_poc.Scenarios.Stage.{
  Message, BusStage, Handler, acks, acks_else, assigns, named, start, has_some,
}

-- The collectors, the store, and the variables of the three parts.
pub record Processed : Type 0 where
  pub first_a : List Message
  pub second_a : List Message
  pub count_a : ℕ
  pub first_b : List Message
  pub second_b : List Message
  pub count_b : ℕ
  pub store : SeenKeys
  pub sub_c : List Message
  pub count_c : ℕ
  pub caught : Option Failure

abbrev pub crash_a : Handler Processed
crash_a m now l = assigns (λ l. record l { count_a = l.count_a + 1 }) ∷ []

abbrev pub process_a : Handler Processed
process_a m now l = assigns (λ l. record l { count_a = l.count_a + 1 }) ∷ acks ∷ []

-- `idempotentHandler(store, inner)`
unfoldable pub idempotent : Handler Processed → Handler Processed
unfolding handle_message
idempotent inner m now l =
    assigns (λ l. record l { store = (handle_message m.body 300 now l.store).1 })
    ∷ (elim (handle_message m.body 300 now l.store).0 [
      | runs_inner ↦ inner m now l
      | acks_duplicate ↦ acks ∷ []
    ])

abbrev pub crash_b : Handler Processed
crash_b m now l = assigns (λ l. record l { count_b = l.count_b + 1 }) ∷ []

abbrev pub process_b : Handler Processed
process_b m now l = assigns (λ l. record l { count_b = l.count_b + 1 }) ∷ acks ∷ []

-- `idempotentHandler` with the broken store, under `try`.
unfoldable pub fail_open : Handler Processed
unfolding handle_reply
fail_open m now l = elim (handle_reply none) [
  | runs_inner ↦
      assigns (λ l. record l { count_c = l.count_c + 1 })
      ∷ acks_else (λ e l. record l { caught = some e }) true
      ∷ []
  | acks_duplicate ↦ acks_else (λ e l. record l { caught = some e }) true ∷ []
]

-- An error in a template literal.
unfoldable pub error_text : Failure → String
unfolding failure_message
error_text (not_supported operation broker reason) =
    text_of ("NotSupportedError: " ∷ failure_message (not_supported operation broker reason) ∷ [])
error_text (store_down store reason) =
    text_of ("IdempotencyStoreDown: " ∷ failure_message (store_down store reason) ∷ [])
error_text (error text) = text_of ("Error: " ∷ text ∷ [])

module _ {W Token : Type 0} (bus : BusStage Processed W Token) where
  unfoldable pub without_store : String → ℕ → Op W (ScenarioResult ⊎ String)
  unfolding ◌>>=◌ ◌>>◌ early named start fail
  without_store name t0 = do
    topic ← named bus.nonce "mbc.s10a."
    queue_id ← named bus.nonce "idm-a-"
    first ←
        start bus topic (λ m l. record l { first_a = l.first_a ++ m ∷ [] }) (some crash_a)
          (some false) (record no_subscribe_options { subscriber_id = some queue_id })
    body ← named bus.nonce "order-a-"
    bus.publish topic body none no_publish_options
    bus.wait_until (λ l. has_some l.first_a) 4000
    bus.unsubscribe first
    second ←
        start bus topic (λ m l. record l { second_a = l.second_a ++ m ∷ [] }) (some process_a)
          (some false) (record no_subscribe_options { subscriber_id = some queue_id })
    redelivered ← bus.wait_until (λ l. has_some l.second_a) 5000
    bus.unsubscribe second
    l ← observe bus.variables
    if not redelivered
        then early (fail bus.clock name "(a) redelivery did not happen" t0)
        else if not (nat_eq l.count_a 2)
        then early (
            fail bus.clock name
              (text_of ("(a) expected 2 processings, got " ∷ decimal l.count_a ∷ [])) t0)
        else pure (inr (text_of ("no-store→processed×" ∷ decimal l.count_a ∷ [])))

  unfoldable pub with_store : String → ℕ → Op W (ScenarioResult ⊎ String)
  unfolding ◌>>=◌ ◌>>◌ early named start idempotent fail
  with_store name t0 = do
    topic ← named bus.nonce "mbc.s10b."
    queue_id ← named bus.nonce "idm-b-"
    body ← named bus.nonce "order-b-"
    first ←
        start bus topic (λ m l. record l { first_b = l.first_b ++ m ∷ [] })
          (some (idempotent crash_b)) (some false)
          (record no_subscribe_options { subscriber_id = some queue_id })
    bus.publish topic body none no_publish_options
    bus.wait_until (λ l. has_some l.first_b) 4000
    bus.unsubscribe first
    second ←
        start bus topic (λ m l. record l { second_b = l.second_b ++ m ∷ [] })
          (some (idempotent process_b)) (some false)
          (record no_subscribe_options { subscriber_id = some queue_id })
    redelivered ← bus.wait_until (λ l. has_some l.second_b) 5000
    bus.unsubscribe second
    l ← observe bus.variables
    if not redelivered
        then early (fail bus.clock name "(b) redelivery did not happen" t0)
        else if not (nat_eq l.count_b 1)
        then early (
            fail bus.clock name
              (text_of ("(b) expected 1 processing, got " ∷ decimal l.count_b ∷ [])) t0)
        else pure (inr "with-store→processed×1")

  unfoldable pub judge_fail_open : String → ℕ → Option Failure → ℕ → Op W (ScenarioResult ⊎ String)
  unfolding early fail error_text
  judge_fail_open name t0 (some e) count =
      early (
        fail bus.clock name (text_of ("(c) store error leaked to caller: " ∷ error_text e ∷ [])) t0)
  judge_fail_open name t0 none count =
      if not (nat_eq count 1)
      then early (
          fail bus.clock name
            (text_of ("(c) expected fail-open processing, got " ∷ decimal count ∷ [])) t0)
      else pure (inr "store-down→fail-open,processed×1")

  unfoldable pub store_down_part : String → ℕ → Op W (ScenarioResult ⊎ String)
  unfolding ◌>>=◌ ◌>>◌ ◌finally◌ early named start fail_open fail judge_fail_open
  store_down_part name t0 = do
    topic ← named bus.nonce "mbc.s10c."
    queue_id ← named bus.nonce "idm-c-"
    sub ←
        start bus topic (λ m l. record l { sub_c = l.sub_c ++ m ∷ [] }) (some fail_open)
          (some false) (record no_subscribe_options { subscriber_id = some queue_id })
    (do
      body ← named bus.nonce "order-c-"
      bus.publish topic body none no_publish_options
      ok ← bus.wait_until (λ l. has_some l.sub_c) 4000
      if not ok then early (fail bus.clock name "(c) message was not delivered" t0) else do
        bus.delay 200
        l ← observe bus.variables
        judge_fail_open name t0 l.caught l.count_c)
        finally bus.unsubscribe sub

  unfoldable pub idempotent_consumer : String → Op W ScenarioResult
  unfolding ◌>>=◌ or_return without_store with_store store_down_part pass unsupported join
  idempotent_consumer name = do
    t0 ← observe bus.clock
    if not bus.capabilities.supports_manual_ack
        then unsupported bus.clock name "no manual ack on this broker" t0
        else or_return (without_store name t0) λ a. or_return (with_store name t0) λ b.
          or_return (store_down_part name t0)
            λ c. pass bus.clock name (join "; " (a ∷ b ∷ c ∷ [])) t0
