-- ===== src/Kafka.antt =====
-- typescript/src/adapters/kafka.ts: the class `KafkaScheduler` over the bus port. The calls of kafkajs
-- are data (`KafkaCall`), in order; a call that throws ends the operation, which is not modelled.
-- Offsets are numbers, as `commit` reads them.
pub mod Topics
pub mod Published
pub mod Consumers
pub mod Lifecycle
use messaging_poc.Common.{
  ℕ, ◌+◌, String, List, [], ◌∷◌, ◌++◌, Bool, true, false, Option, none, some, if◌then◌else◌, ◌==◌,
  string_eq, or_else, contains, lookup, insert,
}
use messaging_poc.Abstractions.{
  Destination, AckHandler, Headers, PublishOptions, SubscribeOptions, BusCapabilities, Capabilities,
  truthy,
}
use messaging_poc.Settlement.{Settlement, acked, nacked, settle_all}

-- `EachMessagePayload`: the record of a partition that the consumer got.
pub record KafkaRecord : Type 0 where
  pub topic : Destination
  pub partition : ℕ
  pub offset : ℕ
  pub key : Option String
  pub value : Option String
  pub headers : List (String × Option String)

pub data KafkaCall : Type 0 where
  creates_topic : Destination → ℕ → KafkaCall
  produces : Destination → String → Option String → Headers → KafkaCall
  commits : Destination → ℕ → ℕ → KafkaCall
  seeks : Destination → ℕ → ℕ → KafkaCall
  joins : Destination → String → KafkaCall

abbrev pub kafka_bus_capabilities : BusCapabilities
kafka_bus_capabilities = record {
  supports_topic = false;
  supports_fanout = true;
  supports_manual_ack = true;
  supports_dead_letter = false;
  reports_delivery_count = false;
  supports_dedup = false;
  supports_stream_replay = true;
  supports_message_groups = some true;
}

abbrev pub kafka_capabilities : Capabilities
kafka_capabilities = record {
  protocol = "Kafka";
  native_scheduling = false;
  supports_cancel = false;
  supports_list = false;
  bus = some kafka_bus_capabilities;
}

-- The topics that the adapter created: `this.topics`.
abbrev pub KafkaTopics : Type 0
KafkaTopics = List Destination

unfoldable pub ensure_topic : Destination → KafkaTopics → KafkaTopics × List KafkaCall
ensure_topic topic topics =
    if contains topics topic
    then (topics, [])
    else (topics ++ topic ∷ [], creates_topic topic 3 ∷ [])

-- `if (value) headers[name] = value`
abbrev pub set_header : String → Option String → Headers → Headers
set_header name none headers = headers
set_header name (some value) headers = insert headers name value

unfoldable pub publish_headers : PublishOptions → Headers
publish_headers o =
    set_header "replyTo" (truthy o.reply_to)
      (set_header "correlationId" (truthy o.correlation_id) (or_else o.headers []))

unfoldable pub kafka_publish :
    Destination → String → PublishOptions → KafkaTopics → KafkaTopics × List KafkaCall
unfolding ensure_topic publish_headers
kafka_publish topic payload o topics =
    let (topics', created) = ensure_topic topic topics in
    (topics', created ++ produces topic payload o.group_id (publish_headers o) ∷ [])

unfoldable pub kafka_send_now : Destination → String → KafkaTopics → KafkaTopics × List KafkaCall
unfolding ensure_topic
kafka_send_now destination payload topics =
    let (topics', created) = ensure_topic destination topics in
    (topics', created ++ produces destination payload none [] ∷ [])

-- `schedule` appends at once and ignores `deliverAt`.
unfoldable pub kafka_schedule :
    Destination → String → ℕ → KafkaTopics → KafkaTopics × List KafkaCall
unfolding kafka_send_now
kafka_schedule destination payload deliver_at topics = kafka_send_now destination payload topics

-- `subscribe`: the subscriber's id is the consumer group; `random` is `randomGroup('bus')`.
unfoldable pub kafka_subscribe :
    Destination → SubscribeOptions → String → KafkaTopics → KafkaTopics × List KafkaCall
unfolding ensure_topic
kafka_subscribe topic o random topics =
    let (topics', created) = ensure_topic topic topics in
    (topics', created ++ joins topic (or_else o.subscriber_id random) ∷ [])

-- `commit`: the offset after the record.
abbrev pub commit : KafkaRecord → List KafkaCall
commit p = commits p.topic p.partition (p.offset + 1) ∷ []

-- What `ack` and `nack` of a record do the first time.
unfoldable pub kafka_settle : KafkaRecord → Settlement → List KafkaCall
kafka_settle p acked = commit p
kafka_settle p (nacked requeue) =
    if requeue then seeks p.topic p.partition p.offset ∷ [] else commit p

-- The names of an object's headers are distinct, so that every assignment adds one.
unfoldable pub normalize_headers : List (String × Option String) → Headers
normalize_headers [] = []
normalize_headers ((k, none) ∷ hs) = normalize_headers hs
normalize_headers ((k, some v) ∷ hs) = (k, v) ∷ normalize_headers hs

pub record KafkaIncoming : Type 0 where
  pub id : ℕ
  pub destination : Destination
  pub body : String
  pub headers : Headers
  pub delivery_count : Option ℕ
  pub reply_to : Option String
  pub correlation_id : Option String
  pub group_id : Option String

-- The data of `toIncoming`.
unfoldable pub kafka_incoming : Destination → KafkaRecord → KafkaIncoming
unfolding normalize_headers
kafka_incoming topic p = record {
  id = p.offset;
  destination = topic;
  body = or_else p.value "";
  headers = normalize_headers p.headers;
  delivery_count = none;
  reply_to = lookup (normalize_headers p.headers) "replyTo";
  correlation_id = lookup (normalize_headers p.headers) "correlationId";
  group_id = p.key;
}

-- The `eachMessage` of a bus consumer: what the handler settles, and a `nack` if it throws.
unfoldable pub kafka_deliver : KafkaRecord → List Settlement → Bool → List KafkaCall
unfolding kafka_settle
kafka_deliver p settles threw =
    settle_all (kafka_settle p) false (if threw then settles ++ nacked true ∷ [] else settles)
