-- ===== src/InMemoryBus/State.antt =====
-- typescript/src/adapters/in-memory-bus.ts: the state of the class `InMemoryBus`. The queues are
-- objects on a heap (`heap`), to which the two maps and the closures refer by index. `deliveries`
-- holds every message object handed to a handler so far, in order.
use Prim.Native.String
use messaging_poc.Common.{ℕ, String, List, [], map, Bool, false, string_eq, ℕ_eq}
use messaging_poc.Abstractions.{Destination, PublishOptions}
use messaging_poc.BusQueue.{MessageId, BusMessage, BusQueue}
use messaging_poc.Pump.{IncomingMessage}

-- A delivery: the queue that it came from, the message that the handler got, and the flag `settled`
-- that the wrapped `ack` and `nack` set.
pub record Delivery : Type 0 where
  pub queue : ℕ
  pub incoming : IncomingMessage
  pub settled : Bool

pub record InMemoryBus : Type 0 where
  pub heap : List BusQueue
  pub queues : List (String × ℕ)
  pub by_topic : List (Destination × List ℕ)
  pub seen_dedup_ids : List String
  pub stream_log : List (Destination × List BusMessage)
  pub seq : ℕ
  pub next_object : ℕ
  pub deliveries : List Delivery

abbrev pub new_bus : InMemoryBus
new_bus = record {
  heap = [];
  queues = [];
  by_topic = [];
  seen_dedup_ids = [];
  stream_log = [];
  seq = 0;
  next_object = 0;
  deliveries = [];
}

-- `${topic}\0${subscriberId}`
unfoldable pub key : Destination → String → String
key topic subscriber_id = String.◌++◌ topic (String.◌++◌ "\0" subscriber_id)

abbrev pub delivered : ℕ → List IncomingMessage → List Delivery
delivered queue = map (λ m. record { queue = queue; incoming = m; settled = false })

-- The message object of one publish.
abbrev pub message : ℕ → MessageId → Destination → String → String → PublishOptions → BusMessage
message object id topic body routing_key o = record {
  object = object;
  id = id;
  topic = topic;
  body = body;
  routing_key = routing_key;
  delivery_count = 0;
  priority = o.priority;
  group_id = o.group_id;
  dedup_id = o.dedup_id;
  reply_to = o.reply_to;
  correlation_id = o.correlation_id;
  ttl_ms = o.ttl_ms;
  headers = o.headers;
}
