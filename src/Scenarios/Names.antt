-- ===== src/Scenarios/Names.antt =====
-- The results of the scenarios carry the names of the scenarios.
use messaging_poc.Common.{ℕ, String, List, Option, none, some}
use messaging_poc.Port.{Failure}
use messaging_poc.Scenarios.Stage.{SchedulerStage, BusStage, Message}
use messaging_poc.Scenarios.Yields.{HasName, HasNameEarly, Yields, reporting}
use messaging_poc.Scenarios.Scheduling.{
  immediate_delivery, scheduled_delivery, cancel_scheduled, list_pending, counted,
}
use messaging_poc.Scenarios.Routing.{TwoCollectors, pub_sub, fanout_multicast}
use messaging_poc.Scenarios.Acks.{
  Settled, explicit_ack, acks_once, nack_redelivers, crash_redelivers,
}
use messaging_poc.Scenarios.DeadLetter.{Poisoned, poison_dlq}
use messaging_poc.Scenarios.Competing.{ByConsumer, competing_consumers}
use messaging_poc.Scenarios.Idempotent.{
  Processed, idempotent_consumer, without_store, with_store, judge_fail_open, store_down_part,
}
use messaging_poc.Scenarios.RetryQueue.{Retried, retry_queue}
use messaging_poc.Scenarios.Groups.{Handled, message_groups}
use messaging_poc.Scenarios.Options.{broker_native_dedup, request_reply, ttl_expiry}
use messaging_poc.Scenarios.Priority.{Prioritised, priority}
use messaging_poc.Scenarios.Recovery.{durable_subscription, Replayed, stream_replay, replay_history}
use messaging_poc.Scenarios.Failover.{Served, single_active_consumer, fail_over}
use messaging_poc.Scenarios.Isolation.{Faulty, handler_fault_isolation}

module _ {W Handle Info Token : Type 0} (s : SchedulerStage (List String) W Handle Info Token) where
  pub immediate_delivery-HasName :
      (name : String) → Yields (HasName name) (immediate_delivery s name)
  unfolding immediate_delivery
  immediate_delivery-HasName name = search reporting depth 60 fits 3000

  pub scheduled_delivery-HasName :
      (name : String) → Yields (HasName name) (scheduled_delivery s name)
  unfolding scheduled_delivery
  scheduled_delivery-HasName name = search reporting depth 60 fits 3000

  pub cancel_scheduled-HasName : (name : String) → Yields (HasName name) (cancel_scheduled s name)
  unfolding cancel_scheduled
  cancel_scheduled-HasName name = search reporting depth 60 fits 3000

  counted-HasName :
      (name : String) (t0 : ℕ) (infos : Option (List Info))
      → Yields (HasName name) (counted s name t0 infos)
  unfolding counted
  counted-HasName name t0 none = search reporting
  counted-HasName name t0 (some infos) = search reporting

  pub list_pending-HasName : (name : String) → Yields (HasName name) (list_pending s name)
  unfolding list_pending
  list_pending-HasName name = search (reporting, counted-HasName) depth 60 fits 3000

module _ {W Token : Type 0} (bus : BusStage TwoCollectors W Token) where
  pub pub_sub-HasName : (name : String) → Yields (HasName name) (pub_sub bus name)
  unfolding pub_sub
  pub_sub-HasName name = search reporting depth 60 fits 3000

module _ {W Token : Type 0} (bus : BusStage (List (List Message)) W Token) where
  pub fanout_multicast-HasName : (name : String) → Yields (HasName name) (fanout_multicast bus name)
  unfolding fanout_multicast
  fanout_multicast-HasName name = search reporting depth 60 fits 3000

module _ {W Token : Type 0} (bus : BusStage Settled W Token) where
  pub explicit_ack-HasName : (name : String) → Yields (HasName name) (explicit_ack bus name)
  unfolding explicit_ack acks_once nack_redelivers crash_redelivers
  explicit_ack-HasName name = search reporting depth 60 fits 3000

module _ {W Token : Type 0} (bus : BusStage Poisoned W Token) where
  pub poison_dlq-HasName : (name : String) → Yields (HasName name) (poison_dlq bus name)
  unfolding poison_dlq
  poison_dlq-HasName name = search reporting depth 60 fits 3000

module _ {W Token : Type 0} (bus : BusStage ByConsumer W Token) where
  pub competing_consumers-HasName :
      (name : String) → Yields (HasName name) (competing_consumers bus name)
  unfolding competing_consumers
  competing_consumers-HasName name = search reporting depth 60 fits 3000

module _ {W Token : Type 0} (bus : BusStage Processed W Token) where
  judge_fail_open-HasName :
      (name : String) (t0 : ℕ) (caught : Option Failure) (count : ℕ)
      → Yields (HasNameEarly name) (judge_fail_open bus name t0 caught count)
  unfolding judge_fail_open
  judge_fail_open-HasName name t0 none count = search reporting
  judge_fail_open-HasName name t0 (some e) count = search reporting

  without_store-HasName :
      (name : String) (t0 : ℕ) → Yields (HasNameEarly name) (without_store bus name t0)
  unfolding without_store
  without_store-HasName name t0 = search reporting depth 40

  with_store-HasName :
      (name : String) (t0 : ℕ) → Yields (HasNameEarly name) (with_store bus name t0)
  unfolding with_store
  with_store-HasName name t0 = search reporting depth 40

  store_down_part-HasName :
      (name : String) (t0 : ℕ) → Yields (HasNameEarly name) (store_down_part bus name t0)
  unfolding store_down_part
  store_down_part-HasName name t0 = search (reporting, judge_fail_open-HasName) depth 40

  pub idempotent_consumer-HasName :
      (name : String) → Yields (HasName name) (idempotent_consumer bus name)
  unfolding idempotent_consumer
  idempotent_consumer-HasName name =
      search (reporting, without_store-HasName, with_store-HasName, store_down_part-HasName) depth
        60 fits 3000

module _ {W Token : Type 0} (bus : BusStage Retried W Token) where
  pub retry_queue-HasName : (name : String) → Yields (HasName name) (retry_queue bus name)
  unfolding retry_queue
  retry_queue-HasName name = search reporting depth 60 fits 3000

module _ {W Token : Type 0} (bus : BusStage Handled W Token) where
  pub message_groups-HasName : (name : String) → Yields (HasName name) (message_groups bus name)
  unfolding message_groups
  message_groups-HasName name = search reporting depth 60 fits 3000

module _ {W Token : Type 0} (bus : BusStage (List Message) W Token) where
  pub broker_native_dedup-HasName :
      (name : String) → Yields (HasName name) (broker_native_dedup bus name)
  unfolding broker_native_dedup
  broker_native_dedup-HasName name = search reporting depth 60 fits 3000

  pub request_reply-HasName : (name : String) → Yields (HasName name) (request_reply bus name)
  unfolding request_reply
  request_reply-HasName name = search reporting depth 60 fits 3000

  pub ttl_expiry-HasName : (name : String) → Yields (HasName name) (ttl_expiry bus name)
  unfolding ttl_expiry
  ttl_expiry-HasName name = search reporting depth 60 fits 3000

module _ {W Token : Type 0} (bus : BusStage Prioritised W Token) where
  pub priority-HasName : (name : String) → Yields (HasName name) (priority bus name)
  unfolding priority
  priority-HasName name = search reporting depth 60 fits 3000

module _ {W Token : Type 0} (bus : BusStage (List String) W Token) where
  pub durable_subscription-HasName :
      (name : String) → Yields (HasName name) (durable_subscription bus name)
  unfolding durable_subscription
  durable_subscription-HasName name = search reporting depth 60 fits 3000

module _ {W Token : Type 0} (bus : BusStage Served W Token) where
  pub single_active_consumer-HasName :
      (name : String) → Yields (HasName name) (single_active_consumer bus name)
  unfolding single_active_consumer fail_over
  single_active_consumer-HasName name = search reporting depth 60 fits 3000

module _ {W Token : Type 0} (bus : BusStage Replayed W Token) where
  pub stream_replay-HasName : (name : String) → Yields (HasName name) (stream_replay bus name)
  unfolding stream_replay replay_history
  stream_replay-HasName name = search reporting depth 60 fits 3000

module _ {W Token : Type 0} (bus : BusStage Faulty W Token) where
  pub handler_fault_isolation-HasName :
      (name : String) → Yields (HasName name) (handler_fault_isolation bus name)
  unfolding handler_fault_isolation
  handler_fault_isolation-HasName name = search reporting depth 60 fits 3000
