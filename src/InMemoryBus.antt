-- ===== src/InMemoryBus.antt =====
-- typescript/src/adapters/in-memory-bus.ts: the operations of the class `InMemoryBus`. A call of the
-- program or of the event loop is an `Event`, and `step` runs it to its end, as the single JavaScript
-- thread does. A timer of the source fires in an event of its own, at any time after it is armed.
mod State
pub mod Invariant
pub mod Drained
pub mod Dedup
pub mod Replay
pub mod Lifecycle
pub mod Unmatched
pub mod Budget
pub use State.*
use Prim.Native.String
use messaging_poc.Common.{
  ℕ, suc, ◌+◌, String, List, [], ◌∷◌, ◌++◌, map, Bool, true, false, Option, none, some,
  if◌then◌else◌, ◌==◌, string_eq, or_else, length, get_elem?, set, contains, lookup, insert,
  decimal,
}
use messaging_poc.Abstractions.{
  Destination, AckHandler, TopologyKind, PublishOptions, SubscribeOptions, no_publish_options,
  default_max_deliveries, dead_letter_address, expiry_address,
}
use messaging_poc.BusQueue.{MessageId, mem_stream, mem_bus, BusMessage, BusQueue, matches}
use messaging_poc.Pump.{
  IncomingMessage, Resolution, ack, requeue, dead, pump, settle, redeliver, expire, detach, attach,
  enqueue,
}

-- Write a queue back after its pump, and note what the handlers got.
abbrev after_pump : ℕ → BusQueue × List IncomingMessage → InMemoryBus → InMemoryBus
after_pump queue (q, sent) b = record b {
  heap = set b.heap queue q;
  deliveries = b.deliveries ++ delivered queue sent;
}

-- `f` on the queue, and then `this.pump(queue)`.
unfoldable pub pump_after : (BusQueue → BusQueue) → ℕ → InMemoryBus → InMemoryBus
pump_after f queue b = elim (get_elem? b.heap queue) [
  | none ↦ b
  | some q ↦ after_pump queue (pump (f q)) b
]

-- S13: `none` for a dedup id that was seen before.
unfoldable pub admit : Option String → InMemoryBus → Option InMemoryBus
admit none b = some b
admit (some dedup_id) b =
    if contains b.seen_dedup_ids dedup_id
    then none
    else some (record b { seen_dedup_ids = b.seen_dedup_ids ++ dedup_id ∷ [] })

-- S19: the log of the topic takes every publish.
unfoldable pub log_publish :
    Destination → String → String → PublishOptions → InMemoryBus → InMemoryBus
log_publish topic body k o b =
    let logged = message b.next_object (mem_stream (b.seq + 1)) topic body k o in
    record b {
      stream_log =
          insert b.stream_log topic (or_else (lookup b.stream_log topic) [] ++ logged ∷ []);
      seq = b.seq + 1;
      next_object = b.next_object + 1;
    }

-- The body of the loop of `publish` for one queue of the topic.
unfoldable pub publish_to :
    Destination → String → String → PublishOptions → ℕ → InMemoryBus → InMemoryBus
unfolding pump_after
publish_to topic body k o queue b = elim (get_elem? b.heap queue) [
  | none ↦ b
  | some q ↦
      if matches q k
      then pump_after (enqueue (message b.next_object (mem_bus (b.seq + 1)) topic body k o)) queue
          (record b { seq = b.seq + 1; next_object = b.next_object + 1 })
      else b
]

unfoldable pub publish_all :
    Destination → String → String → PublishOptions → List ℕ → InMemoryBus → InMemoryBus
unfolding publish_to
publish_all topic body k o [] b = b
publish_all topic body k o (queue ∷ queues) b =
    publish_all topic body k o queues (publish_to topic body k o queue b)

-- The queues of a topic: `this.byTopic.get(topic) ?? []`.
abbrev pub topic_queues : InMemoryBus → Destination → List ℕ
topic_queues b topic = or_else (lookup b.by_topic topic) []

unfoldable pub publish :
    Destination → String → Option String → PublishOptions → InMemoryBus → InMemoryBus
unfolding admit log_publish publish_all
publish topic body routing_key o b = elim (admit o.dedup_id b) [
  | none ↦ b
  | some b' ↦
      let k = or_else routing_key topic in
      publish_all topic body k o (topic_queues b' topic) (log_publish topic body k o b')
]

-- `new BusQueue(…)` with the defaults of `subscribe`.
abbrev pub new_queue : Destination → SubscribeOptions → BusQueue
new_queue topic o = record {
  topic = topic;
  kind = or_else o.kind TopologyKind.topic;
  routing_key = o.routing_key;
  max_deliveries = or_else o.max_deliveries default_max_deliveries;
  dead_letter = or_else o.dead_letter false;
  retry_delay_ms = o.retry_delay_ms;
  partition_by_group = or_else o.partition_by_group false;
  single_active_consumer = or_else o.single_active_consumer false;
  pending = [];
  inflight = [];
  consumers = [];
  rr = 0;
  group_affinity = [];
  parked = [];
  expiring = [];
}

-- S19: the copies of the matching log entries, and the next free object.
unfoldable pub replay : BusQueue → ℕ → List BusMessage → List BusMessage × ℕ
replay q object [] = ([], object)
replay q object (m ∷ log) =
    let copy : BusMessage = record m { object = object; delivery_count = 0 } in
    let (copies, next) = replay q (object + 1) log in
    let (skipped, next') = replay q object log in
    if matches q m.routing_key then (copy ∷ copies, next) else (skipped, next')

-- The queue that `subscribe` creates, and what it leaves of the heap, the maps and the counter.
unfoldable pub create_queue : Destination → String → SubscribeOptions → InMemoryBus → InMemoryBus
unfolding replay
create_queue topic k o b =
    let log =
      if or_else o.stream_replay false then or_else (lookup b.stream_log topic) [] else [] in
    let (copies, next) = replay (new_queue topic o) b.next_object log in
    let reference = length b.heap in
    record b {
      heap = b.heap ++ record (new_queue topic o) { pending = copies } ∷ [];
      queues = insert b.queues k reference;
      by_topic = insert b.by_topic topic (topic_queues b topic ++ reference ∷ []);
      next_object = next;
    }

-- `options.subscriberId ?? `sub-${(this.seq += 1)}``
abbrev pub subscriber : Option String → InMemoryBus → String × InMemoryBus
subscriber (some id) b = (id, b)
subscriber none b = (String.◌++◌ "sub-" (decimal (b.seq + 1)), record b { seq = b.seq + 1 })

-- The bus after `subscribe`, and the queue that the subscription's `unsubscribe` closes over.
unfoldable pub subscribe :
    Destination → AckHandler → SubscribeOptions → InMemoryBus → InMemoryBus × ℕ
unfolding create_queue pump_after decimal key
subscribe topic handler o b =
    let (id, b') = subscriber o.subscriber_id b in
    elim (lookup b'.queues (key topic id)) [
      | some queue ↦ (pump_after (attach handler) queue b', queue)
      | none ↦ (
        pump_after (attach handler) (length b'.heap) (create_queue topic (key topic id) o b'),
        length b'.heap,
      )
    ]

unfoldable pub unsubscribe : ℕ → AckHandler → InMemoryBus → InMemoryBus
unfolding pump_after
unsubscribe queue handler b = pump_after (detach handler) queue b

-- `deadLetter`
unfoldable pub dead_letter : BusQueue → BusMessage → InMemoryBus → InMemoryBus
dead_letter q m b =
    if q.dead_letter
    then publish (dead_letter_address q.topic) m.body (some m.routing_key) no_publish_options b
    else b

abbrev pub bury : BusQueue → Option BusMessage → InMemoryBus → InMemoryBus
bury q none b = b
bury q (some m) b = dead_letter q m b

-- `settle` of the closure that `wrap` makes for a delivery.
unfoldable pub settle_delivery : Resolution → ℕ → IncomingMessage → InMemoryBus → InMemoryBus
unfolding pump_after dead_letter
settle_delivery r queue m b = elim (get_elem? b.heap queue) [
  | none ↦ b
  | some q ↦ elim (settle m.object m.consumer r q) [
    | none ↦ b
    | some (q', buried) ↦
        pump_after (λ q. q) queue (bury q buried (record b { heap = set b.heap queue q' }))
  ]
]

-- `guard`: the call, and then `settled = true`.
unfoldable pub guarded : Resolution → ℕ → InMemoryBus → InMemoryBus
unfolding settle_delivery
guarded r n b = elim (get_elem? b.deliveries n) [
  | none ↦ b
  | some d ↦
      let b' = settle_delivery r d.queue d.incoming b in
      record b' { deliveries = set b'.deliveries n (record d { settled = true }) }
]

-- The `catch` of `pump`: a handler that throws before it settles is a nack with requeue.
unfoldable pub handler_throws : ℕ → InMemoryBus → InMemoryBus
unfolding guarded
handler_throws n b = elim (get_elem? b.deliveries n) [
  | none ↦ b
  | some d ↦ if d.settled then b else guarded requeue n b
]

unfoldable pub fire_retry : ℕ → ℕ → InMemoryBus → InMemoryBus
unfolding pump_after
fire_retry queue object b = elim (get_elem? b.heap queue) [
  | none ↦ b
  | some q ↦ elim (redeliver object q) [
    | none ↦ b
    | some q' ↦ pump_after (λ q. q) queue (record b { heap = set b.heap queue q' })
  ]
]

abbrev pub publish_expired : BusQueue → Option BusMessage → InMemoryBus → InMemoryBus
publish_expired q none b = b
publish_expired q (some m) b =
    publish (expiry_address q.topic) m.body (some m.routing_key) no_publish_options b

unfoldable pub fire_ttl : ℕ → ℕ → InMemoryBus → InMemoryBus
fire_ttl queue object b = elim (get_elem? b.heap queue) [
  | none ↦ b
  | some q ↦
      let (q', expired) = expire object q in
      publish_expired q expired (record b { heap = set b.heap queue q' })
]

-- The closures of subscriptions and timers keep their queues.
unfoldable pub dispose : InMemoryBus → InMemoryBus
dispose b = record b { queues = []; by_topic = []; stream_log = [] }

pub data Event : Type 0 where
  publishes : Destination → String → Option String → PublishOptions → Event
  subscribes : Destination → AckHandler → SubscribeOptions → Event
  unsubscribes : ℕ → AckHandler → Event
  acks : ℕ → Event
  nacks : ℕ → Bool → Event
  throws : ℕ → Event
  retry_timer ttl_timer : ℕ → ℕ → Event
  disposes : Event

unfoldable pub step : Event → InMemoryBus → InMemoryBus
step (publishes topic body routing_key o) b = publish topic body routing_key o b
step (subscribes topic handler o) b = (subscribe topic handler o b).0
step (unsubscribes queue handler) b = unsubscribe queue handler b
step (acks n) b = guarded ack n b
step (nacks n again) b = guarded (if again then requeue else dead) n b
step (throws n) b = handler_throws n b
step (retry_timer queue object) b = fire_retry queue object b
step (ttl_timer queue object) b = fire_ttl queue object b
step disposes b = dispose b

unfoldable pub run : List Event → InMemoryBus → InMemoryBus
unfolding step
run [] b = b
run (e ∷ es) b = run es (step e b)
