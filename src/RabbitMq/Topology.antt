-- ===== src/RabbitMq/Topology.antt =====
-- typescript/src/adapters/rabbitmq.ts: the exchanges and queues, and the publishing side. The names
-- `x.t.…`, `x.f.…` and `x.h.…` of exchanges, and those of queues, are modelled by constructors.
use messaging_poc.Common.{
  ℕ, String, List, [], ◌∷◌, ◌++◌, Bool, true, false, Option, none, some, if◌then◌else◌, string_eq,
  or_else, contains, insert, ℤ,
}
use messaging_poc.Abstractions.{
  Destination, Headers, PublishOptions, BusCapabilities, Capabilities, truthy,
}

abbrev pub rabbit_bus_capabilities : BusCapabilities
rabbit_bus_capabilities = record {
  supports_topic = true;
  supports_fanout = true;
  supports_manual_ack = true;
  supports_dead_letter = true;
  reports_delivery_count = false;
  supports_dedup = false;
  supports_stream_replay = true;
  supports_message_groups = some true;
}

abbrev pub rabbit_capabilities : Capabilities
rabbit_capabilities = record {
  protocol = "AMQP 0.9.1";
  native_scheduling = false;
  supports_cancel = false;
  supports_list = false;
  bus = some rabbit_bus_capabilities;
}

-- `delayed` is the exchange of the delayed-message plugin, `default` the one named ''.
pub data Exchange : Type 0 where
  default delayed : Exchange
  topic_exchange fanout_exchange hash_exchange : Destination → Exchange

-- `bus.topic.id` with the random suffix of a partitioned one, its `.retry` queue, `q.destination` and
-- `stream.topic`.
pub data Queue : Type 0 where
  bus_queue : Destination → String → Option String → Queue
  retry_queue : Queue → Queue
  schedule_queue stream_queue : Destination → Queue

-- The arguments of `assertQueue`.
pub record QueueArguments : Type 0 where
  pub dead_letter_exchange : Option Exchange
  pub dead_letter_routing_key : Option Queue
  pub queue_type : Option String
  pub delivery_limit : Option ℕ
  pub message_ttl : Option ℤ
  pub max_priority : Option ℕ
  pub single_active_consumer : Bool

abbrev pub no_arguments : QueueArguments
no_arguments = record {
  dead_letter_exchange = none;
  dead_letter_routing_key = none;
  queue_type = none;
  delivery_limit = none;
  message_ttl = none;
  max_priority = none;
  single_active_consumer = false;
}

-- The properties of a message. `expiration` is the text of the number.
pub record Properties : Type 0 where
  pub persistent : Bool
  pub headers : Headers
  pub priority : Option ℤ
  pub reply_to : Option String
  pub correlation_id : Option String
  pub expiration : Option ℤ

abbrev pub persistent_only : Properties
persistent_only = record {
  persistent = true;
  headers = [];
  priority = none;
  reply_to = none;
  correlation_id = none;
  expiration = none;
}

-- `transient` of `asserts_queue` stands for not durable, exclusive and auto-delete.
pub data RabbitCall : Type 0 where
  asserts_exchange : Exchange → String → RabbitCall
  asserts_queue : Queue → Bool → QueueArguments → RabbitCall
  binds : Queue → Exchange → String → RabbitCall
  sends : Exchange → String → String → Properties → RabbitCall
  consumes : Queue → RabbitCall
  acks : RabbitCall
  nacks : Bool → RabbitCall

-- `topology`, `busTopology` and `hashTopology`: what was declared.
pub record Topologies : Type 0 where
  pub queues : List Destination
  pub bus : List Destination
  pub hash : List Destination

unfoldable pub ensure_topology : Destination → Topologies → Topologies × List RabbitCall
ensure_topology destination t = if contains t.queues destination then (t, []) else (
  record t { queues = t.queues ++ destination ∷ [] },
  asserts_queue (schedule_queue destination) false no_arguments
      ∷ binds (schedule_queue destination) delayed destination
      ∷ [],
)

unfoldable pub ensure_bus_exchanges : Destination → Topologies → Topologies × List RabbitCall
ensure_bus_exchanges topic t = if contains t.bus topic then (t, []) else (
  record t { bus = t.bus ++ topic ∷ [] },
  asserts_exchange (topic_exchange topic) "topic"
      ∷ asserts_exchange (fanout_exchange topic) "fanout"
      ∷ [],
)

unfoldable pub ensure_hash_exchange : Destination → Topologies → Topologies × List RabbitCall
ensure_hash_exchange topic t = if contains t.hash topic then (t, []) else (
  record t { hash = t.hash ++ topic ∷ [] },
  asserts_exchange (hash_exchange topic) "x-consistent-hash" ∷ [],
)

unfoldable pub rabbit_send_now : Destination → String → Topologies → Topologies × List RabbitCall
unfolding ensure_topology
rabbit_send_now destination payload t =
    let (t', declared) = ensure_topology destination t in
    (t', declared ++ sends delayed destination payload persistent_only ∷ [])

-- `if (value) headers[name] = value`
abbrev pub set_header : String → Option String → Headers → Headers
set_header name none headers = headers
set_header name (some value) headers = insert headers name value

unfoldable pub publish_props : PublishOptions → Properties
publish_props o = record {
  persistent = true;
  headers =
      set_header "x-dedup-id" (truthy o.dedup_id)
        (set_header "x-group-id" (truthy o.group_id) (or_else o.headers []));
  priority = o.priority;
  reply_to = truthy o.reply_to;
  correlation_id = truthy o.correlation_id;
  expiration = o.ttl_ms;
}

-- S12: a message with a group goes through the consistent-hash exchange too.
unfoldable pub send_hashed :
    Destination → String → Properties → Option String → Topologies → Topologies × List RabbitCall
unfolding ensure_hash_exchange
send_hashed topic payload props none t = (t, [])
send_hashed topic payload props (some group) t =
    let (t', declared) = ensure_hash_exchange topic t in
    (t', declared ++ sends (hash_exchange topic) group payload props ∷ [])

unfoldable pub rabbit_publish :
    Destination
    → String
    → Option String
    → PublishOptions
    → Topologies
    → Topologies × List RabbitCall
unfolding ensure_bus_exchanges publish_props send_hashed
rabbit_publish topic payload routing_key o t =
    let (t', declared) = ensure_bus_exchanges topic t in
    let props = publish_props o in
    let (t'', hashed) = send_hashed topic payload props (truthy o.group_id) t' in
    (
      t'',
      declared
          ++ ((sends (topic_exchange topic) (or_else routing_key topic) payload props
                ∷ sends (fanout_exchange topic) "" payload props
                ∷ [])
              ++ hashed),
    )
