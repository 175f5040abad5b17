-- ===== src/Tests/Adapters.antt =====
-- The broker adapters at concrete inputs.
use messaging_poc.Common.{
  pos, ◌+◌, [], ◌∷◌, ◌++◌, true, false, none, some, ◌≡◌, arith, or_else, lookup, string_eq, ℕ, refl,
}
use messaging_poc.Abstractions.{
  no_subscribe_options, SubscribeOptions, no_publish_options, PublishOptions, truthy,
}
use messaging_poc.Settlement.{acked, nacked}
use messaging_poc.Port.{Op, returned, threw, error}
use messaging_poc.Kafka.Lifecycle.{KafkaJs, KafkaAdapter, ensure_client, ensure_admin}
use messaging_poc.Kafka.Lifecycle.Retried.{half_connected, ensure_client-half_connected}
use messaging_poc.Kafka.{KafkaRecord, kafka_deliver, kafka_incoming, kafka_publish}
use messaging_poc.Kafka.Topics.{committed, sought, kafka_deliver-position}
use messaging_poc.Kafka.Published.{records_of, IsPublished, kafka_incoming-IsPublished}
use messaging_poc.RabbitMq.{
  Retry, Topologies, sends, acks, persistent_only, bus_queue, topic_exchange, fanout_exchange,
  hash_exchange, rabbit_publish, rabbit_subscribe, QueueArguments,
}
use messaging_poc.RabbitMq.DeadLetters.{
  declared_queues, retry_queues, failure_exchange, expected_exchange, expected_key,
  rabbit_subscribe-dead_letters,
}
use messaging_poc.RabbitMq.Settle.{journey, rabbit_settle-budget}
use messaging_poc.RabbitMq.Queues.{sent_to, hashed_copies, rabbit_publish-one_copy}
use messaging_poc.Artemis.{artemis_incoming, artemis_message, or_also}
use messaging_poc.Artemis.Published.{redelivered, last_of, artemis_incoming-published}

abbrev request : PublishOptions
request = record no_publish_options {
  reply_to = some "answers";
  group_id = some "g";
  headers = some (("correlationId", "c1") ∷ []);
}

abbrev fetched : KafkaRecord
fetched = record {
  topic = "t";
  partition = 1;
  offset = 41;
  key = some "g";
  value = some "p";
  headers = [];
}

kafka_deliver-position_example :
    (committed "t" 1 (kafka_deliver fetched (nacked false ∷ acked ∷ []) true) 41 ≡ 42)
    × (sought "t" 1 (kafka_deliver fetched (nacked false ∷ acked ∷ []) true) none ≡ none)
kafka_deliver-position_example =
    kafka_deliver-position fetched (nacked false ∷ acked ∷ []) true "t" 1 41 none

kafka_incoming-IsPublished_example :
    (r : KafkaRecord) × (records_of 1 41 (kafka_publish "t" "p" request []).1 ≡ r ∷ [])
    × (r.topic ≡ "t")
    × IsPublished "t" "p" request (kafka_incoming r.topic r)
kafka_incoming-IsPublished_example = kafka_incoming-IsPublished "t" "p" request [] 1 41

abbrev three_tries : Retry
three_tries = record {
  main_queue = bus_queue "t" "s" none;
  max_deliveries = 3;
  dla_exchange = fanout_exchange "t.dlq";
}

rabbit_settle-budget_example :
    journey 3 three_tries "p" 0
    ≡ (3, sends (fanout_exchange "t.dlq") "" "p" persistent_only ∷ acks ∷ [])
rabbit_settle-budget_example = rabbit_settle-budget three_tries "p" (omega arith)

abbrev nothing_declared : Topologies
nothing_declared = record { queues = []; bus = []; hash = [] }

rabbit_publish-one_copy_example :
    (sent_to (topic_exchange "t") (rabbit_publish "t" "p" none request nothing_declared).1
      ≡ "p" ∷ [])
    × (sent_to (fanout_exchange "t") (rabbit_publish "t" "p" none request nothing_declared).1
        ≡ "p" ∷ [])
    × (sent_to (hash_exchange "t") (rabbit_publish "t" "p" none request nothing_declared).1
        ≡ hashed_copies (truthy request.group_id) "p")
rabbit_publish-one_copy_example = rabbit_publish-one_copy "t" "p" none request nothing_declared

artemis_incoming-published_example :
    ((artemis_incoming "t" (redelivered (artemis_message "t" "p" none request) 2)).body ≡ "p")
    × ((artemis_incoming "t" (redelivered (artemis_message "t" "p" none request) 2)).delivery_count
        ≡ 2 + 1)
    × ((artemis_incoming "t" (redelivered (artemis_message "t" "p" none request) 2)).group_id
        ≡ or_also (truthy request.group_id) (last_of (or_else request.headers []) "_AMQ_GROUP_ID"))
    × (lookup
          (artemis_incoming "t" (redelivered (artemis_message "t" "p" none request) 2)).headers
          "routingKey"
        ≡ or_also (last_of (or_else request.headers []) "routingKey") (some (or_else none "t")))
artemis_incoming-published_example = artemis_incoming-published "t" "p" none request 2

abbrev expiring_retries : SubscribeOptions
expiring_retries = record no_subscribe_options {
  dead_letter = some true;
  retry_delay_ms = some (pos 50);
  ttl_ms = some (pos 1000);
}

rabbit_subscribe-dead_letters_example :
    (args : QueueArguments) × (declared_queues
        (rabbit_subscribe "t" expiring_retries "s" "x" nothing_declared).1
      ≡ retry_queues (bus_queue "t" "s" none) expiring_retries
        ++ (bus_queue "t" "s" none, false, args) ∷ [])
    × (args.dead_letter_exchange
        ≡ expected_exchange expiring_retries.ttl_ms "t" (failure_exchange "t" expiring_retries))
    × (args.dead_letter_routing_key ≡ expected_key (bus_queue "t" "s" none) expiring_retries)
rabbit_subscribe-dead_letters_example =
    rabbit_subscribe-dead_letters "t" expiring_retries "s" "x" nothing_declared refl refl

-- A client whose producers cannot be connected; its state counts the calls.
abbrev counted_call : Op ℕ Unit
counted_call n = (returned tt, n + 1)

abbrev flaky : KafkaJs ℕ
flaky = record {
  new_producer = λ n. (7, n);
  connect_producer = λ p n. (threw (error "ECONNREFUSED"), n + 1);
  disconnect_producer = λ p. counted_call;
  new_admin = λ n. (8, n);
  connect_admin = λ a. counted_call;
  disconnect_admin = λ a. counted_call;
  create_topics = λ a topic partitions. counted_call;
  new_consumer = λ group n. (9, n);
  connect_consumer = λ c. counted_call;
  subscribe_consumer = λ c topic. counted_call;
  run_consumer = λ c. counted_call;
  disconnect_consumer = λ c. counted_call;
}

abbrev idle : KafkaAdapter ℕ
idle = record {
  has_client = false;
  producer = none;
  admin = none;
  consumers = [];
  topics = [];
  js = 0;
}

ensure_client-half_connected_example :
    (ensure_client flaky idle ≡ (threw (error "ECONNREFUSED"), half_connected flaky idle 1))
    × (ensure_client flaky (half_connected flaky idle 1)
        ≡ ensure_admin flaky none (half_connected flaky idle 1))
ensure_client-half_connected_example =
    ensure_client-half_connected flaky idle (error "ECONNREFUSED") 1 refl refl
