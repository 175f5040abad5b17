-- ===== src/Registry.antt =====
-- typescript/src/adapters/index.ts: the registry of the brokers and `createScheduler`, and the parts of
-- kafka.ts, rabbitmq.ts and in-memory.ts that keep the contract of `cancel` and `listScheduled`. An
-- adapter is known by that part of the scheduler port. `inherited` is what the object `REGISTRY` answers
-- to besides its own names (`toString`, `constructor`): what the function of that name gives or throws
-- when it is called without arguments; it is a part of JavaScript and a parameter.
pub mod Contract
use messaging_poc.Common.{
  String, List, [], ◌∷◌, Bool, true, Option, none, some, false, lookup, string_eq, ◌⊎◌, inl, inr,
  text_of, join,
}
use messaging_poc.Abstractions.{ScheduleHandle, ScheduledInfo, Capabilities, BusCapabilities}
use messaging_poc.Port.{Failure, error, returned, Op, Scheduling}
use messaging_poc.Kafka.Consumers.{KafkaHandle, kafka_scheduling}
use messaging_poc.RabbitMq.Delayed.{RabbitHandle, rabbit_scheduling}
use messaging_poc.Scheduler.{InMemoryScheduler, cancel, list_scheduled}
use messaging_poc.Artemis.Jolokia.{JolokiaRequest, HttpReply}
use messaging_poc.Artemis.Management.{ArtemisHandle, ArtemisInfo, artemis_scheduling}
use messaging_poc.Resilience.{Policies, Decorated, default_resilience, resilient_scheduling}

abbrev pub in_memory_bus_capabilities : BusCapabilities
in_memory_bus_capabilities = record {
  supports_topic = true;
  supports_fanout = true;
  supports_manual_ack = true;
  supports_dead_letter = true;
  reports_delivery_count = true;
  supports_dedup = true;
  supports_stream_replay = true;
  supports_message_groups = none;
}

abbrev pub in_memory_capabilities : Capabilities
in_memory_capabilities = record {
  protocol = "in-memory";
  native_scheduling = true;
  supports_cancel = true;
  supports_list = true;
  bus = some in_memory_bus_capabilities;
}

abbrev pub in_memory_scheduling : Scheduling InMemoryScheduler ScheduleHandle ScheduledInfo
in_memory_scheduling = record {
  name = "In-Memory (reference)";
  capabilities = in_memory_capabilities;
  cancel = λ handle s. (returned tt, cancel handle s);
  list_scheduled = λ destination s. (returned (list_scheduled destination s), s);
}

-- An adapter as it is, or under `ResilientScheduler`.
pub data Adapter (Circuit : Type 0) : Type 1 where
  raw : {S H I : Type 0} → Scheduling S H I → Adapter Circuit
  protected : {S H I : Type 0} → Scheduling (Circuit × Decorated S) H I → Adapter Circuit

-- `Object.keys(REGISTRY)`
abbrev pub known_brokers : List String
known_brokers = "artemis" ∷ "rabbitmq" ∷ "kafka" ∷ "in-memory" ∷ []

abbrev pub unknown_broker : String → Failure
unknown_broker id =
    error (text_of ("Unknown broker '" ∷ id ∷ "'. Known: " ∷ join ", " known_brokers ∷ []))

module _ {Circuit S : Type 0} (p : Policies Circuit) (fetch : JolokiaRequest → Op S HttpReply) where
  -- `REGISTRY`; the configuration that the factories read from the environment is not part of it.
  abbrev pub registry : List (String × Adapter Circuit)
  registry =
      ("artemis", raw (artemis_scheduling fetch))
      ∷ ("rabbitmq", raw rabbit_scheduling)
      ∷ ("kafka", raw kafka_scheduling)
      ∷ ("in-memory", raw in_memory_scheduling)
      ∷ []

  abbrev pub wrapped : Bool → Adapter Circuit → Adapter Circuit
  wrapped true (raw inner) = protected (resilient_scheduling p default_resilience inner)
  wrapped true (protected inner) = protected inner
  wrapped false a = a

  abbrev pub from_factory : Bool → Failure ⊎ Adapter Circuit → Failure ⊎ Adapter Circuit
  from_factory resilient (inl e) = inl e
  from_factory resilient (inr scheduler) = inr (wrapped resilient scheduler)

  -- `REGISTRY[id]` finds its own names first.
  unfoldable pub create_scheduler :
      (String → Option (Failure ⊎ Adapter Circuit)) → String → Bool → Failure ⊎ Adapter Circuit
  create_scheduler inherited id resilient = elim (lookup registry id) [
    | some scheduler ↦ inr (wrapped resilient scheduler)
    | none ↦ elim (inherited id) [
      | none ↦ inl (unknown_broker id)
      | some made ↦ from_factory resilient made
    ]
  ]
