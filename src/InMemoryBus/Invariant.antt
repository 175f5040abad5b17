-- ===== src/InMemoryBus/Invariant.antt =====
-- The invariant of the bus: every queue is sound, holds each message object once, and holds none that
-- was not made yet. Every event keeps it.
pub mod Publish
pub mod Events
use messaging_poc.Common.{
  ℕ, zero, suc, ◌+◌, ◌≤◌, ◌<◌, String, List, [], ◌∷◌, ◌++◌, Bool, true, false, Option, none, some,
  ◌≡◌, refl, ap, sym, subst, ◌⊎◌, inl, inr, arith, get_elem?, set, length, All, All-map, All-set,
  All-get, All-append, Bool-cases, Option-cases, or_else, lookup, if◌then◌else◌, ◌==◌, ℕ_eq,
  string_eq, contains, decimal, insert,
}
use messaging_poc.Abstractions.{
  Destination, AckHandler, PublishOptions, SubscribeOptions, no_publish_options,
  dead_letter_address, expiry_address,
}
use messaging_poc.BusQueue.{BusMessage, BusQueue, mem_stream, mem_bus, matches}
use messaging_poc.Pump.{
  IncomingMessage, Resolution, ack, requeue, dead, pump, settle, redeliver, expire, detach, attach,
  enqueue,
}
use messaging_poc.Pump.Custody.{
  one, occurs, holds, pump-holds, IsSettled, settle-IsSettled, settle-holds, redeliver-holds,
  expire-holds, enqueue-holds, expired, left,
}
use messaging_poc.Pump.Sound.{IsSound, pump-IsSound}
use messaging_poc.Pump.Steps.{
  settle-IsSound, redeliver-IsSound, expire-IsSound, enqueue-IsSound, attach-IsSound,
}
use messaging_poc.Pump.Detach.{IsUnique, detach-holds, detach-IsSound}
use messaging_poc.InMemoryBus.{
  InMemoryBus, new_bus, message, pump_after, admit, log_publish, publish_to, publish_all, publish,
  new_queue, replay, create_queue, topic_queues, subscribe, unsubscribe, dead_letter,
  settle_delivery, guarded, handler_throws, fire_retry, fire_ttl, dispose, Event, publishes,
  subscribes, unsubscribes, acks, nacks, throws, retry_timer, ttl_timer, disposes, step, run, bury,
  publish_expired, subscriber, key,
}

-- `next` is the next object that the bus will make.
pub record IsGood (next : ℕ) (q : BusQueue) : Type 0 where
  pub sound : IsSound q
  pub unique : IsUnique q
  pub fresh : (o : ℕ) → next ≤ o → holds o q ≡ 0

abbrev pub IsValid : InMemoryBus → Type 0
IsValid b = All (IsGood b.next_object) b.heap

-- What changes no holding keeps the last two parts.
pub IsGood-of_holds :
    (next : ℕ) (q q' : BusQueue)
    → IsGood next q
    → ((o : ℕ) → holds o q' ≤ holds o q)
    → IsSound q'
    → IsGood next q'
IsGood-of_holds next q q' g h s = record {
  sound = s;
  unique = λ o. omega (arith, h o, g.unique o);
  fresh = λ o le. omega (arith, h o, g.fresh o le);
}

pub pump-IsGood : (next : ℕ) (q : BusQueue) → IsGood next q → IsGood next (pump q).0
pump-IsGood next q g =
    IsGood-of_holds next q (pump q).0 g (λ o. omega (arith, pump-holds o q))
      (pump-IsSound q g.sound)

pub IsGood-le : (n n' : ℕ) → n ≤ n' → (q : BusQueue) → IsGood n q → IsGood n' q
IsGood-le n n' le q g = record {
  sound = g.sound;
  unique = g.unique;
  fresh = λ o h. g.fresh o (omega arith);
}

-- A new object enters a queue.
enqueue-IsGood :
    (m : BusMessage) (q : BusQueue) → IsGood m.object q → IsGood (m.object + 1) (enqueue m q)
enqueue-IsGood m q g = record {
  sound = enqueue-IsSound m q g.sound;
  unique = λ o. ground (arith, enqueue-holds o m q, g.unique o, g.fresh o);
  fresh = λ o le. ground (arith, enqueue-holds o m q, g.fresh o);
}

module _ (f : BusQueue → BusQueue) (r n : ℕ) (b : InMemoryBus) where
  pub pump_after-keeps :
      ((q : BusQueue) → IsGood n q → IsGood b.next_object (f q))
      → n ≤ b.next_object
      → All (IsGood n) b.heap
      → IsValid (pump_after f r b)
  unfolding pump_after
  pump_after-keeps keeps le v =
      let v' = All-map _ _ (λ q. IsGood-le n b.next_object le q) b.heap v in
      elim (Option-cases (get_elem? b.heap r)) [
        | inl missing ↦ rw (missing, pump_after) v'
        | inr (q, there) ↦
            rw (there, pump_after)
              (All-set _ b.heap r (pump (f q)).0 v'
                (pump-IsGood b.next_object (f q) (keeps q (All-get _ b.heap r v there))))
      ]

pub publish_to-IsValid :
    (topic : Destination) (body k : String) (o : PublishOptions) (r : ℕ) (b : InMemoryBus)
    → IsValid b
    → IsValid (publish_to topic body k o r b)
unfolding publish_to
publish_to-IsValid topic body k o r b v = elim (Option-cases (get_elem? b.heap r)) [
  | inl missing ↦ rw (missing, publish_to) v
  | inr (q, there) ↦ elim (Bool-cases (matches q k)) [
    | inl yes_match ↦
        rw (there, yes_match, publish_to)
          (pump_after-keeps _ r b.next_object _
            (λ x g. enqueue-IsGood (message b.next_object (mem_bus (b.seq + 1)) topic body k o) x g)
            (omega arith) v)
    | inr no_match ↦ rw (there, no_match, publish_to) v
  ]
]
