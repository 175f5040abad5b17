-- ===== src/Abstractions.antt =====
-- typescript/src/abstractions: the options, capabilities and addresses that every adapter shares.
-- A callback (`AckHandler`, `MessageHandler`) is an object that the code compares by identity and
-- calls: it is modelled by its identity, a number, and what it does is the choice of the caller of
-- the bus. Dates and delays are whole milliseconds.
use messaging_poc.Common.{ℕ, String, List, Bool, Option, ℤ, none, some}
use Prim.Native.String

abbrev pub Destination : Type 0
Destination = String

-- The identity of the function object.
abbrev pub AckHandler : Type 0
AckHandler = ℕ

abbrev pub MessageHandler : Type 0
MessageHandler = ℕ

-- `Readonly<Record<string, string>>`
abbrev pub Headers : Type 0
Headers = List (String × String)

pub data TopologyKind : Type 0 where
  topic fanout : TopologyKind

pub record PublishOptions : Type 0 where
  pub priority : Option ℤ
  pub group_id : Option String
  pub dedup_id : Option String
  pub reply_to : Option String
  pub correlation_id : Option String
  pub ttl_ms : Option ℤ
  pub headers : Option Headers

pub record SubscribeOptions : Type 0 where
  pub kind : Option TopologyKind
  pub routing_key : Option String
  pub subscriber_id : Option String
  pub dead_letter : Option Bool
  pub max_deliveries : Option ℕ
  pub retry_delay_ms : Option ℤ
  pub partition_by_group : Option Bool
  pub single_active_consumer : Option Bool
  pub stream_replay : Option Bool
  pub transient : Option Bool
  pub priority_queue : Option Bool
  pub ttl_ms : Option ℤ

-- `{}`
abbrev pub no_publish_options : PublishOptions
no_publish_options = record {
  priority = none;
  group_id = none;
  dedup_id = none;
  reply_to = none;
  correlation_id = none;
  ttl_ms = none;
  headers = none;
}

abbrev pub no_subscribe_options : SubscribeOptions
no_subscribe_options = record {
  kind = none;
  routing_key = none;
  subscriber_id = none;
  dead_letter = none;
  max_deliveries = none;
  retry_delay_ms = none;
  partition_by_group = none;
  single_active_consumer = none;
  stream_replay = none;
  transient = none;
  priority_queue = none;
  ttl_ms = none;
}

pub record BusCapabilities : Type 0 where
  pub supports_topic : Bool
  pub supports_fanout : Bool
  pub supports_manual_ack : Bool
  pub supports_dead_letter : Bool
  pub reports_delivery_count : Bool
  pub supports_dedup : Bool
  pub supports_stream_replay : Bool
  pub supports_message_groups : Option Bool

pub record Capabilities : Type 0 where
  pub protocol : String
  pub native_scheduling : Bool
  pub supports_cancel : Bool
  pub supports_list : Bool
  pub bus : Option BusCapabilities

abbrev pub default_max_deliveries : ℕ
default_max_deliveries = 3

unfoldable pub dead_letter_address : Destination → Destination
dead_letter_address destination = String.◌++◌ destination ".dlq"

unfoldable pub expiry_address : Destination → Destination
expiry_address destination = String.◌++◌ destination ".expiry"

-- The id is the number in the text that the in-memory adapter makes of it.
pub record ScheduleHandle : Type 0 where
  pub id : ℕ
  pub destination : Destination
  pub deliver_at : ℕ

pub record ScheduledInfo : Type 0 where
  pub id : ℕ
  pub destination : Destination
  pub deliver_at : ℕ

pub record ReceivedMessage : Type 0 where
  pub id : ℕ
  pub destination : Destination
  pub body : String
  pub headers : Headers

-- `if (text)`: the empty text counts as missing.
unfoldable pub truthy : Option String → Option String
truthy none = none
truthy (some text) = elim text [ String.[] ↦ none | String.◌∷◌ c s ↦ some (String.◌∷◌ c s) ]
