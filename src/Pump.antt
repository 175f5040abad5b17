-- ===== src/Pump.antt =====
-- typescript/src/adapters/in-memory-bus.ts: what `pump`, `wrap`, `unsubscribe` and the timers of
-- `publish` and `wrap` do to one queue. `InMemoryBus` applies them to the queues that it keeps.
pub mod Pull
pub mod Rounds
pub mod Sound
pub mod Custody
pub mod Drained
pub mod Steps
pub mod Detach
pub mod Lifecycle
pub mod Budget
use mathlib.Core.Option
use messaging_poc.Common.{
  ℕ, zero, suc, ◌+◌, String, List, [], ◌∷◌, ◌++◌, Bool, true, false, ◌||◌, Option, none, some,
  if◌then◌else◌, ◌==◌, ℕ_eq, or_else, length, is_empty, erase, ℤ, pos, ltb_ℤ, leb,
}
use messaging_poc.Abstractions.{Destination, AckHandler, Headers}
use messaging_poc.BusQueue.{
  MessageId, BusMessage, BusQueue, next_consumer, next_pending, next_group_delivery,
}

-- What the handler receives. `object` and `consumer` are what its `ack` and `nack` close over.
pub record IncomingMessage : Type 0 where
  pub object : ℕ
  pub consumer : AckHandler
  pub id : MessageId
  pub destination : Destination
  pub body : String
  pub headers : Headers
  pub delivery_count : ℕ
  pub reply_to : Option String
  pub correlation_id : Option String
  pub group_id : Option String
  pub priority : Option ℤ

abbrev pub wrap : BusMessage → AckHandler → IncomingMessage
wrap m c = record {
  object = m.object;
  consumer = c;
  id = m.id;
  destination = m.topic;
  body = m.body;
  headers = or_else m.headers [];
  delivery_count = m.delivery_count;
  reply_to = m.reply_to;
  correlation_id = m.correlation_id;
  group_id = m.group_id;
  priority = m.priority;
}

-- `consumer = free; msg = queue.nextPending()!`, or the `break` if there is none.
abbrev pub serve : Option AckHandler → BusQueue → Option (BusMessage × AckHandler) × BusQueue
serve none q = (none, q)
serve (some c) q =
    let (m, rest) = next_pending q.pending in
    (Option.map (λ m. (m, c)) m, record q { pending = rest })

-- The branch of `pump` for a queue without partitions.
unfoldable pub pull_plain : BusQueue → Option (BusMessage × AckHandler) × BusQueue
pull_plain q = let (free, rr') = next_consumer q in serve free (record q { rr = rr' })

-- The test of the loop of `pump`, and the choice of the next message and its consumer.
unfoldable pub pull : BusQueue → Option (BusMessage × AckHandler) × BusQueue
pull q =
    if is_empty q.pending || is_empty q.consumers
    then (none, q)
    else if q.partition_by_group
    then next_group_delivery q
    else pull_plain q

abbrev pub counted : BusMessage → BusMessage
counted m = record m { delivery_count = m.delivery_count + 1 }

-- `msg.deliveryCount += 1; queue.inflight.set(msg, consumer)`. The message was pending, so it is no
-- key of the map yet.
abbrev pub hand_over : BusMessage → AckHandler → BusQueue → BusQueue
hand_over m c q = record q { inflight = q.inflight ++ (counted m, c) ∷ [] }

-- The loop of `pump` with its rounds bounded, and the messages handed to consumers, in order.
unfoldable pub pump_rounds : ℕ → BusQueue → BusQueue × List IncomingMessage
pump_rounds zero q = (q, [])
pump_rounds (suc rounds) q =
    let (next, q') = pull q in
    elim next [
      | none ↦ (q', [])
      | some (m, c) ↦
          let (q'', later) = pump_rounds rounds (hand_over m c q') in
          (q'', wrap (counted m) c ∷ later)
    ]

-- Every round takes a message out of `pending`, so its length bounds the rounds.
unfoldable pub pump : BusQueue → BusQueue × List IncomingMessage
unfolding pump_rounds
pump q = pump_rounds (length q.pending) q

-- `inflight.get(msg)`, with the message as it is now.
unfoldable pub find_inflight : ℕ → List (BusMessage × AckHandler) → Option (BusMessage × AckHandler)
find_inflight object [] = none
find_inflight object ((m, c) ∷ es) =
    if m.object == object then some (m, c) else find_inflight object es

-- `inflight.delete(msg)`
unfoldable pub drop_inflight : ℕ → List (BusMessage × AckHandler) → List (BusMessage × AckHandler)
drop_inflight object [] = []
drop_inflight object ((m, c) ∷ es) =
    if m.object == object then es else (m, c) ∷ drop_inflight object es

unfoldable pub find_object : ℕ → List BusMessage → Option BusMessage
find_object object [] = none
find_object object (m ∷ ms) = if m.object == object then some m else find_object object ms

-- `indexOf` and `splice(i, 1)`
unfoldable pub drop_object : ℕ → List BusMessage → List BusMessage
drop_object object [] = []
drop_object object (m ∷ ms) = if m.object == object then ms else m ∷ drop_object object ms

pub data Resolution : Type 0 where
  ack requeue dead : Resolution

-- `queue.retryDelayMs && queue.retryDelayMs > 0`
abbrev pub delays : Option ℤ → Bool
delays none = false
delays (some ms) = ltb_ℤ (pos 0) ms

-- `settle` once the message is out of `inflight`: the queue, and the message to dead-letter, if any.
unfoldable pub resolve : Resolution → BusMessage → BusQueue → BusQueue × Option BusMessage
resolve ack m q = (q, none)
resolve dead m q = (q, some m)
resolve requeue m q =
    if leb q.max_deliveries m.delivery_count
    then (q, some m)
    else if delays q.retry_delay_ms
    then (record q { parked = q.parked ++ m ∷ [] }, none)
    else (record q { pending = q.pending ++ m ∷ [] }, none)

-- `settle` up to the dead letter and the pump; `none` where the delivery is settled already.
unfoldable pub settle :
    ℕ → AckHandler → Resolution → BusQueue → Option (BusQueue × Option BusMessage)
unfolding find_inflight drop_inflight resolve
settle object consumer r q = elim (find_inflight object q.inflight) [
  | none ↦ none
  | some (m, owner) ↦
      if owner == consumer
      then some (resolve r m (record q { inflight = drop_inflight object q.inflight }))
      else none
]

-- The retry timer of a parked message fires, up to the pump; `none` where no such timer is armed.
unfoldable pub redeliver : ℕ → BusQueue → Option BusQueue
unfolding find_object drop_object
redeliver object q = elim (find_object object q.parked) [
  | none ↦ none
  | some m ↦ some (record q { pending = q.pending ++ m ∷ []; parked = drop_object object q.parked })
]

-- The TTL timer of a message fires: the queue, and the message if it was still not consumed.
unfoldable pub expire : ℕ → BusQueue → BusQueue × Option BusMessage
unfolding find_object drop_object find_inflight drop_inflight
expire object q = elim (find_object object q.expiring) [
  | none ↦ (q, none)
  | some armed ↦
      let q' : BusQueue = record q { expiring = drop_object object q.expiring } in
      elim (find_object object q.pending) [
        | some m ↦ (record q' { pending = drop_object object q.pending }, some m)
        | none ↦ elim (find_inflight object q.inflight) [
          | some (m, c) ↦ (record q' { inflight = drop_inflight object q.inflight }, some m)
          | none ↦ (q', none)
        ]
      ]
]

-- The loop of `unsubscribe` over a copy of `inflight`, and its body: the messages of the handler go
-- back to the front of `pending`.
unfoldable pub take_back : AckHandler → BusMessage → AckHandler → BusQueue → BusQueue
unfolding drop_inflight
take_back handler m owner q =
    if owner == handler
    then record q { inflight = drop_inflight m.object q.inflight; pending = m ∷ q.pending }
    else q

unfoldable pub give_back : AckHandler → List (BusMessage × AckHandler) → BusQueue → BusQueue
give_back handler [] q = q
give_back handler ((m, owner) ∷ es) q = give_back handler es (take_back handler m owner q)

-- `unsubscribe` up to the pump.
unfoldable pub detach : AckHandler → BusQueue → BusQueue
unfolding give_back take_back
detach handler q = give_back handler q.inflight (record q { consumers = erase q.consumers handler })

-- `consumers.push(handler)`
abbrev pub attach : AckHandler → BusQueue → BusQueue
attach handler q = record q { consumers = q.consumers ++ handler ∷ [] }

-- `options?.ttlMs !== undefined && options.ttlMs >= 0`
abbrev pub expires : Option ℤ → Bool
expires none = false
expires (some ms) = if ltb_ℤ ms (pos 0) then false else true

-- `pending.push(msg)` and the TTL timer of `publish`, up to the pump.
unfoldable pub enqueue : BusMessage → BusQueue → BusQueue
enqueue m q = record q {
  pending = q.pending ++ m ∷ [];
  expiring = if expires m.ttl_ms then q.expiring ++ m ∷ [] else q.expiring;
}
