-- ===== src/Kafka/Consumers.antt =====
-- typescript/src/adapters/kafka.ts: the scheduler port's `consume`, `cancel` and `listScheduled`.
use messaging_poc.Common.{ℕ, String, List, [], ◌∷◌, Bool, some, if◌then◌else◌, or_else}
use messaging_poc.Abstractions.{Destination, ReceivedMessage}
use messaging_poc.Port.{not_supported, threw, Scheduling}
use messaging_poc.Kafka.{
  KafkaRecord, KafkaCall, joins, commit, normalize_headers, KafkaTopics, kafka_capabilities,
}

pub record KafkaHandle : Type 0 where
  pub id : String
  pub destination : Destination
  pub deliver_at : ℕ

-- `consume`: `random` is `randomGroup('sched')`. The topic is not created.
abbrev pub kafka_consume : Destination → String → List KafkaCall
kafka_consume destination random = joins destination random ∷ []

-- The `eachMessage` of `consume`: what the handler gets, and the commit unless it throws.
unfoldable pub kafka_received : Destination → KafkaRecord → Bool → ReceivedMessage × List KafkaCall
unfolding normalize_headers
kafka_received destination p throws = (
  record {
    id = p.offset;
    destination = destination;
    body = or_else p.value "";
    headers = normalize_headers p.headers;
  },
  if throws then [] else commit p,
)

-- `cancel` and `listScheduled`.
abbrev pub kafka_scheduling : Scheduling KafkaTopics KafkaHandle Unit
kafka_scheduling = record {
  name = "Apache Kafka";
  capabilities = kafka_capabilities;
  cancel = λ handle t. (
    threw (
        not_supported "cancel" "Apache Kafka"
          (some "a written log record cannot be removed before consumption")),
    t,
  );
  list_scheduled = λ destination t. (
    threw (
        not_supported "listScheduled" "Apache Kafka"
          (some "Kafka has no notion of pending, not-yet-delivered messages")),
    t,
  );
}
