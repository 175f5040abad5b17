-- ===== src/RabbitMq.antt =====
-- typescript/src/adapters/rabbitmq.ts: the class `RabbitMqScheduler`, its subscribing side. The calls of
-- amqplib are data (`RabbitCall`), in order; a call that throws ends the operation, which is not
-- modelled.
pub mod Channels
mod Topology
pub mod Queues
pub mod Settle
pub mod DeadLetters
pub mod Delayed
unfoldable pub use Topology.*
use Prim.Native.String
use messaging_poc.Common.{
  ℕ, zero, suc, ◌+◌, ◌-◌, String, List, [], ◌∷◌, ◌++◌, Bool, true, false, not, ◌||◌, ◌&&◌, Option,
  none, some, if◌then◌else◌, ◌==◌, string_eq, or_else, contains, lookup, insert, map, leb, ltb_ℤ, ℤ,
  pos,
}
use messaging_poc.Abstractions.{
  Destination, AckHandler, Headers, PublishOptions, SubscribeOptions, TopologyKind, BusCapabilities,
  Capabilities, truthy, default_max_deliveries, dead_letter_address, expiry_address,
}
use messaging_poc.Settlement.{Settlement, acked, nacked, settle_all}
use messaging_poc.RabbitMq.Topology.{
  Exchange, default, delayed, topic_exchange, fanout_exchange, hash_exchange, Queue, bus_queue,
  retry_queue, schedule_queue, stream_queue, QueueArguments, no_arguments, Properties,
  persistent_only, RabbitCall, asserts_exchange, asserts_queue, binds, sends, consumes, acks, nacks,
  Topologies, ensure_bus_exchanges, ensure_hash_exchange,
}

-- `!!options.deadLetter && !!options.retryDelayMs && options.retryDelayMs > 0`
abbrev pub positive : Option ℤ → Bool
positive none = false
positive (some d) = ltb_ℤ (pos 0) d

unfoldable pub is_retry_enabled : SubscribeOptions → Bool
is_retry_enabled o = or_else o.dead_letter false && positive o.retry_delay_ms

-- What `toIncoming` needs to know of the retry topology.
pub record Retry : Type 0 where
  pub main_queue : Queue
  pub max_deliveries : ℕ
  pub dla_exchange : Exchange

-- S12: a partitioned consumer has a queue of its own; `random` is the suffix.
abbrev pub queue_of : Destination → String → Bool → String → Queue
queue_of topic id true random = bus_queue topic id (some random)
queue_of topic id false random = bus_queue topic id none

-- The dead-letter part of the arguments, and the calls that prepare it.
unfoldable pub dead_letter_arguments :
    Destination
    → Queue
    → SubscribeOptions
    → Topologies
    → QueueArguments × Topologies × List RabbitCall
unfolding is_retry_enabled ensure_bus_exchanges
dead_letter_arguments topic queue o t =
    let (t', declared) = ensure_bus_exchanges (dead_letter_address topic) t in
    if is_retry_enabled o
    then (
      record no_arguments {
        dead_letter_exchange = some default;
        dead_letter_routing_key = some (retry_queue queue);
      },
      t',
      declared
          ++ asserts_queue (retry_queue queue) false (record no_arguments {
            message_ttl = o.retry_delay_ms;
            dead_letter_exchange = some default;
            dead_letter_routing_key = some queue;
          })
            ∷ [],
    )
    else if or_else o.dead_letter false
    then (
      record no_arguments {
        queue_type = some "quorum";
        delivery_limit = some (or_else o.max_deliveries default_max_deliveries);
        dead_letter_exchange = some (fanout_exchange (dead_letter_address topic));
      },
      t',
      declared,
    )
    else (no_arguments, t, [])

-- S14 and S18.
abbrev pub dispatch_arguments : SubscribeOptions → QueueArguments → QueueArguments
dispatch_arguments o args = record args {
  max_priority = if or_else o.priority_queue false then some 10 else args.max_priority;
  single_active_consumer = or_else o.single_active_consumer false;
}

-- S16
abbrev pub expiry_arguments :
    Destination
    → Option ℤ
    → QueueArguments
    → Topologies
    → QueueArguments × Topologies × List RabbitCall
unfolding ensure_bus_exchanges
expiry_arguments topic none args t = (args, t, [])
expiry_arguments topic (some ttl) args t =
    let (t', declared) = ensure_bus_exchanges (expiry_address topic) t in
    (
      record args { dead_letter_exchange = some (fanout_exchange (expiry_address topic)) },
      t',
      declared,
    )

-- The binding of a durable queue.
unfoldable pub bind_queue :
    Destination → Queue → SubscribeOptions → Topologies → Topologies × List RabbitCall
unfolding ensure_hash_exchange
bind_queue topic queue o t =
    let (t', declared) = ensure_hash_exchange topic t in
    if or_else o.partition_by_group false
    then (t', declared ++ binds queue (hash_exchange topic) "1" ∷ [])
    else elim (or_else o.kind TopologyKind.topic) [
      | TopologyKind.fanout ↦ (t, binds queue (fanout_exchange topic) "" ∷ [])
      | TopologyKind.topic ↦
          (t, binds queue (topic_exchange topic) (or_else o.routing_key "#") ∷ [])
    ]

-- S19
unfoldable pub subscribe_stream :
    Destination → Topologies → Topologies × List RabbitCall × Option Retry
subscribe_stream topic t = (
  t,
  asserts_queue (stream_queue topic) false (record no_arguments { queue_type = some "stream" })
      ∷ binds (stream_queue topic) (topic_exchange topic) "#"
      ∷ consumes (stream_queue topic)
      ∷ [],
  none,
)

-- The end of `subscribe` for a durable queue.
unfoldable pub subscribe_durable :
    Destination
    → Queue
    → SubscribeOptions
    → QueueArguments
    → Topologies
    → Topologies × List RabbitCall
unfolding bind_queue
subscribe_durable topic queue o args t =
    let (args', t', expiring) = expiry_arguments topic o.ttl_ms args t in
    let (t'', bound) = bind_queue topic queue o t' in
    (t'', expiring ++ asserts_queue queue false args' ∷ [] ++ bound ++ consumes queue ∷ [])

-- `subscribe`: `id` and `suffix` are the random texts that it may draw. The retry information goes to
-- `toIncoming`.
unfoldable pub rabbit_subscribe :
    Destination
    → SubscribeOptions
    → String
    → String
    → Topologies
    → Topologies × List RabbitCall × Option Retry
unfolding ensure_bus_exchanges subscribe_stream dead_letter_arguments subscribe_durable
    is_retry_enabled
rabbit_subscribe topic o id suffix t =
    let (t0, declared) = ensure_bus_exchanges topic t in
    let queue =
      queue_of topic (or_else o.subscriber_id id) (or_else o.partition_by_group false) suffix in
    let (args, t1, prepared) = dead_letter_arguments topic queue o t0 in
    let (t2, calls) = subscribe_durable topic queue o (dispatch_arguments o args) t1 in
    let (t3, replayed, unused) = subscribe_stream topic t0 in
    if or_else o.stream_replay false
    then (t3, declared ++ replayed, none)
    else if or_else o.transient false
    then (
      t1,
      declared
          ++ prepared
          ++ asserts_queue queue true no_arguments
            ∷ binds queue (topic_exchange topic) (or_else o.routing_key "#")
            ∷ consumes queue
            ∷ [],
      none,
    )
    else (
      t2,
      declared ++ prepared ++ calls,
      if is_retry_enabled o
          then some (record {
            main_queue = queue;
            max_deliveries = or_else o.max_deliveries default_max_deliveries;
            dla_exchange = fanout_exchange (dead_letter_address topic);
          })
          else none,
    )

-- What a delivery tells of its past: the counts of `x-death` by queue, `x-delivery-count` and
-- `fields.redelivered`.
pub record Past : Type 0 where
  pub deaths : List (Bool × Option ℕ)
  pub delivery_count : Option ℕ
  pub redelivered : Bool

-- `xDeathCount`: the first entry of the main queue; an entry says if it is the main queue's.
unfoldable pub x_death_count : List (Bool × Option ℕ) → ℕ
x_death_count [] = 0
x_death_count ((true, count) ∷ ds) = or_else count 0
x_death_count ((false, count) ∷ ds) = x_death_count ds

abbrev pub counted_delivery : Option ℕ → Bool → Option ℕ
counted_delivery (some deaths) redelivered = some (deaths + 1)
counted_delivery none true = none
counted_delivery none false = some 1

-- The delivery count of `toIncoming`.
unfoldable pub rabbit_delivery_count : Option Retry → Past → Option ℕ
unfolding x_death_count
rabbit_delivery_count (some retry) past = some (x_death_count past.deaths + 1)
rabbit_delivery_count none past = counted_delivery past.delivery_count past.redelivered

-- What `ack` and `nack` do the first time, for a message with the text `body`.
unfoldable pub rabbit_settle : Option Retry → String → Option ℕ → Settlement → List RabbitCall
rabbit_settle retry body count acked = acks ∷ []
rabbit_settle none body count (nacked requeue) = nacks requeue ∷ []
rabbit_settle (some retry) body count (nacked requeue) =
    if not requeue || leb retry.max_deliveries (or_else count 1)
    then sends retry.dla_exchange "" body persistent_only ∷ acks ∷ []
    else nacks false ∷ []

-- `toStreamIncoming`: a nack acks.
unfoldable pub stream_settle : Settlement → List RabbitCall
stream_settle s = acks ∷ []

-- `deliver`: what the handler settles, and a `nack` if it throws.
unfoldable pub rabbit_deliver :
    Option Retry → String → Option ℕ → List Settlement → Bool → List RabbitCall
unfolding rabbit_settle
rabbit_deliver retry body count settles threw =
    settle_all (rabbit_settle retry body count) false
      (if threw then settles ++ nacked true ∷ [] else settles)
