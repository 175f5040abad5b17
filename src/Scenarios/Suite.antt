-- ===== src/Scenarios/Suite.antt =====
-- typescript/src/scenarios/index.ts: the two suites. An adapter has a world `W L` for the variables `L` of
-- the scenario that runs on it; `enter` and `leave` are the begin and the end of a scenario.
use messaging_poc.Common.{String, List, [], ◌∷◌, none}
use messaging_poc.Abstractions.{Capabilities}
use messaging_poc.Port.{Op, Outcome}
use messaging_poc.Runner.{Scenario, ScenarioResult, run_suite}
use messaging_poc.Scenarios.Stage.{BusStage, SchedulerStage}
use messaging_poc.Scenarios.Scheduling.{
  immediate_delivery, scheduled_delivery, cancel_scheduled, list_pending,
}
use messaging_poc.Scenarios.Routing.{TwoCollectors, pub_sub, fanout_multicast}
use messaging_poc.Scenarios.Acks.{Settled, explicit_ack}
use messaging_poc.Scenarios.DeadLetter.{Poisoned, poison_dlq}
use messaging_poc.Scenarios.Competing.{ByConsumer, competing_consumers}
use messaging_poc.Scenarios.Idempotent.{Processed, idempotent_consumer}
use messaging_poc.Scenarios.RetryQueue.{Retried, retry_queue}
use messaging_poc.Scenarios.Groups.{Handled, message_groups}
use messaging_poc.Scenarios.Options.{broker_native_dedup, request_reply, ttl_expiry}
use messaging_poc.Scenarios.Priority.{Prioritised, priority}
use messaging_poc.Scenarios.Recovery.{Replayed, durable_subscription, stream_replay}
use messaging_poc.Scenarios.Failover.{Served, single_active_consumer}
use messaging_poc.Scenarios.Isolation.{Faulty, handler_fault_isolation}

-- An adapter, as the runner and the entry point see it.
pub record Adapter (W : Type 0 → Type 0) (Handle Info Token : Type 0) : Type 1 where
  pub name : String
  pub capabilities : Capabilities
  pub connect : Op (W Unit) Unit
  pub connect_bus : Op (W Unit) Unit
  pub dispose : Op (W Unit) Unit
  pub enter : (L : Type 0) → L → W Unit → W L
  pub leave : (L : Type 0) → W L → W Unit
  pub scheduler : (L : Type 0) → SchedulerStage L (W L) Handle Info Token
  pub bus : (L : Type 0) → BusStage L (W L) Token

-- The variables as the scenarios begin.
abbrev pub no_collectors : TwoCollectors
no_collectors = record { created = []; all = [] }

abbrev pub nothing_settled : Settled
nothing_settled = record {
  acked = [];
  nacked = [];
  attempts = 0;
  second_count = none;
  crashed = [];
  fresh = [];
}

abbrev pub nothing_poisoned : Poisoned
nothing_poisoned = record { attempts = 0; last_count = none; main = []; dlq = [] }

abbrev pub nothing_consumed : ByConsumer
nothing_consumed = record { first = []; second = [] }

abbrev pub nothing_processed : Processed
nothing_processed = record {
  first_a = [];
  second_a = [];
  count_a = 0;
  first_b = [];
  second_b = [];
  count_b = 0;
  store = [];
  sub_c = [];
  count_c = 0;
  caught = none;
}

abbrev pub nothing_retried : Retried
nothing_retried = record {
  good = [];
  attempts = 0;
  last_count = none;
  good_drained_at = none;
  dlq_at = none;
  main = [];
  dlq = [];
}

abbrev pub nothing_handled : Handled
nothing_handled = record { first = []; second = [] }

abbrev pub nothing_prioritised : Prioritised
nothing_prioritised = record { received = []; settled = 0 }

abbrev pub nothing_replayed : Replayed
nothing_replayed = record { first_seen = []; replayed = [] }

abbrev pub nothing_served : Served
nothing_served = record { first = []; second = [] }

abbrev pub nothing_faulty : Faulty
nothing_faulty = record { attempts = []; acked = []; thrown = 0 }

module _ {W : Type 0 → Type 0} {Handle Info Token : Type 0}
    (adapter : Adapter W Handle Info Token) where
  abbrev pub left_with : (L : Type 0) {A : Type 0} → Outcome A × W L → Outcome A × W Unit
  left_with L (o, w) = (o, adapter.leave L w)

  -- A scenario with its name, its first variables and its `run`, which reads `this.name`.
  unfoldable pub scenario :
      (L : Type 0) → L → String → (String → Op (W L) ScenarioResult) → Scenario (W Unit)
  scenario L first name run = record {
    name = name;
    run = λ w. left_with L (run name (adapter.enter L first w));
  }

  -- `ALL_SCENARIOS`
  unfoldable pub all_scenarios : List (Scenario (W Unit))
  unfolding scenario
  all_scenarios =
      scenario (List String) [] "S1 immediate send/receive"
        (immediate_delivery (adapter.scheduler (List String)))
      ∷ scenario (List String) [] "S2 scheduled delivery"
          (scheduled_delivery (adapter.scheduler (List String)))
      ∷ scenario (List String) [] "S3 cancel scheduled"
          (cancel_scheduled (adapter.scheduler (List String)))
      ∷ scenario (List String) [] "S4 list pending" (list_pending (adapter.scheduler (List String)))
      ∷ []

  -- `ALL_BUS_SCENARIOS`
  unfoldable pub all_bus_scenarios : List (Scenario (W Unit))
  unfolding scenario
  all_bus_scenarios =
      scenario TwoCollectors no_collectors "S5 pub/sub (topic)" (pub_sub (adapter.bus _))
      ∷ scenario _ ([] ∷ [] ∷ [] ∷ []) "S6 fanout multicast" (fanout_multicast (adapter.bus _))
      ∷ scenario Settled nothing_settled "S7 explicit ack" (explicit_ack (adapter.bus _))
      ∷ scenario Poisoned nothing_poisoned "S8 poison → dead-letter" (poison_dlq (adapter.bus _))
      ∷ scenario ByConsumer nothing_consumed "S9 competing consumers"
          (competing_consumers (adapter.bus _))
      ∷ scenario Processed nothing_processed "S10 idempotent consumer"
          (idempotent_consumer (adapter.bus _))
      ∷ scenario Retried nothing_retried "S11 retry queue" (retry_queue (adapter.bus _))
      ∷ scenario Handled nothing_handled "S12 message groups" (message_groups (adapter.bus _))
      ∷ scenario _ [] "S13 broker-native dedup" (broker_native_dedup (adapter.bus _))
      ∷ scenario Prioritised nothing_prioritised "S14 priority" (priority (adapter.bus _))
      ∷ scenario _ [] "S15 request/reply" (request_reply (adapter.bus _))
      ∷ scenario _ [] "S16 TTL → expiry" (ttl_expiry (adapter.bus _))
      ∷ scenario _ [] "S17 durable subscription" (durable_subscription (adapter.bus _))
      ∷ scenario Served nothing_served "S18 single active consumer"
          (single_active_consumer (adapter.bus _))
      ∷ scenario Replayed nothing_replayed "S19 stream replay" (stream_replay (adapter.bus _))
      ∷ scenario Faulty nothing_faulty "S20 handler fault isolation"
          (handler_fault_isolation (adapter.bus _))
      ∷ []

  -- `runSuite` at the two suites.
  unfoldable pub suite : W Unit → List ScenarioResult × W Unit
  unfolding run_suite all_scenarios all_bus_scenarios
  suite = run_suite adapter.capabilities adapter.connect_bus all_scenarios all_bus_scenarios
