-- ===== src/Scenarios/Reports.antt =====
-- The report of the two suites, over any adapter.
use messaging_poc.Common.{String, List, [], ◌∷◌, map, All, ◌≡◌}
use messaging_poc.Port.{Outcome, returned, threw, Op}
use messaging_poc.Runner.{ScenarioResult}
use messaging_poc.Runner.Report.{IsNamed, run_suite-names}
use messaging_poc.Scenarios.Suite.{
  Adapter, left_with, scenario, all_scenarios, all_bus_scenarios, suite,
}
use messaging_poc.Scenarios.Yields.{HasName, Holds, Yields}
use messaging_poc.Scenarios.Names.{
  immediate_delivery-HasName, scheduled_delivery-HasName, cancel_scheduled-HasName,
  list_pending-HasName, pub_sub-HasName, fanout_multicast-HasName, explicit_ack-HasName,
  poison_dlq-HasName, competing_consumers-HasName, idempotent_consumer-HasName, retry_queue-HasName,
  message_groups-HasName, broker_native_dedup-HasName, priority-HasName, request_reply-HasName,
  ttl_expiry-HasName, durable_subscription-HasName, single_active_consumer-HasName,
  stream_replay-HasName, handler_fault_isolation-HasName,
}

abbrev pub suite_names : List String
suite_names =
    "S1 immediate send/receive" ∷ "S2 scheduled delivery" ∷ "S3 cancel scheduled"
    ∷ "S4 list pending" ∷ "S5 pub/sub (topic)" ∷ "S6 fanout multicast" ∷ "S7 explicit ack"
    ∷ "S8 poison → dead-letter" ∷ "S9 competing consumers" ∷ "S10 idempotent consumer"
    ∷ "S11 retry queue" ∷ "S12 message groups" ∷ "S13 broker-native dedup" ∷ "S14 priority"
    ∷ "S15 request/reply" ∷ "S16 TTL → expiry" ∷ "S17 durable subscription"
    ∷ "S18 single active consumer" ∷ "S19 stream replay" ∷ "S20 handler fault isolation" ∷ []

module _ {W : Type 0 → Type 0} {Handle Info Token : Type 0}
    (adapter : Adapter W Handle Info Token) where
  left-name :
      (L : Type 0) (name : String) (o : Outcome ScenarioResult × W L) (w' : W Unit)
      (result : ScenarioResult)
      → Holds (HasName name) o
      → left_with adapter L o ≡ (returned result, w')
      → result.name ≡ name
  left-name L name (returned r, w) w' result h e = cc
  left-name L name (threw f, w) w' result h e = absurd (cc)

  scenario-IsNamed :
      (L : Type 0) (first : L) (name : String) (run : String → Op (W L) ScenarioResult)
      → Yields (HasName name) (run name)
      → IsNamed (scenario adapter L first name run)
  unfolding scenario
  scenario-IsNamed L first name run y = record {
    own_name = λ w w' result e.
        left-name L name (run name (adapter.enter L first w)) w' result
          (y.holds (adapter.enter L first w)) e;
  }

  scenarios-IsNamed : All IsNamed (all_scenarios adapter)
  unfolding all_scenarios
  scenarios-IsNamed = search (
    scenario-IsNamed, immediate_delivery-HasName, scheduled_delivery-HasName,
    cancel_scheduled-HasName, list_pending-HasName,
  )

  bus_scenarios-IsNamed : All IsNamed (all_bus_scenarios adapter)
  unfolding all_bus_scenarios
  bus_scenarios-IsNamed = search (
    scenario-IsNamed, pub_sub-HasName, fanout_multicast-HasName, explicit_ack-HasName,
    poison_dlq-HasName, competing_consumers-HasName, idempotent_consumer-HasName,
    retry_queue-HasName, message_groups-HasName, broker_native_dedup-HasName, priority-HasName,
    request_reply-HasName, ttl_expiry-HasName, durable_subscription-HasName,
    single_active_consumer-HasName, stream_replay-HasName, handler_fault_isolation-HasName,
  )

  -- Whatever an adapter does, and whatever it throws, the report of the two suites on it has exactly the
  -- twenty results S1 to S20, under these names and in this order.
  pub suite-names :
      (w : W Unit) → map (λ (r : ScenarioResult). r.name) (suite adapter w).0 ≡ suite_names
  unfolding suite all_scenarios all_bus_scenarios scenario
  suite-names w =
      run_suite-names adapter.capabilities adapter.connect_bus (all_scenarios adapter)
        (all_bus_scenarios adapter) w scenarios-IsNamed bus_scenarios-IsNamed
