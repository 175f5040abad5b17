-- ===== src/InMemoryBus/Budget.antt =====
-- How often the messages of the in-memory bus are delivered: no more often than the queue's limit, in
-- every history without `unsubscribe`, which gives messages back without counting.
use messaging_poc.Common.{
  get_elem?-set, get_elem?-concat, All, ℕ, ◌+◌, String, List, [], ◌∷◌, Option, none, some, ◌≡◌,
  refl, sym, subst, inl, inr, arith, get_elem?, set, Bool-cases, Option-cases, lookup, string_eq,
  ℕ_eq, or_else, length,
}
use messaging_poc.Abstractions.{
  Destination, AckHandler, PublishOptions, SubscribeOptions, no_publish_options,
}
use messaging_poc.BusQueue.{BusMessage, BusQueue, matches, mem_bus}
use messaging_poc.Pump.{
  IncomingMessage, Resolution, ack, requeue, pump, settle, redeliver, expire, enqueue, attach,
}
use messaging_poc.Pump.Budget.{
  IsBounded, IsWithin, pump-IsBounded, settle-IsBounded, redeliver-IsBounded, expire-IsBounded,
  enqueue-IsBounded, attach-IsBounded,
}
use messaging_poc.InMemoryBus.{
  InMemoryBus, new_bus, message, pump_after, admit, log_publish, publish_to, publish_all, publish,
  new_queue, replay, create_queue, topic_queues, subscribe, subscriber, key, dead_letter,
  settle_delivery, guarded, handler_throws, fire_retry, fire_ttl, dispose, Event, publishes,
  subscribes, unsubscribes, acks, nacks, throws, retry_timer, ttl_timer, disposes, step, run, bury,
  publish_expired,
}
use messaging_poc.InMemoryBus.Unmatched.{admit-same}

-- Every queue keeps its limit.
abbrev HeapBounded : List BusQueue → Type 0
HeapBounded heap = (i : ℕ) (q : BusQueue) → get_elem? heap i ≡ some q → IsBounded q

abbrev pub AllBounded : InMemoryBus → Type 0
AllBounded b = HeapBounded b.heap

set-HeapBounded :
    (heap : List BusQueue) (r : ℕ) (q' : BusQueue)
    → HeapBounded heap
    → IsBounded q'
    → HeapBounded (set heap r q')
set-HeapBounded heap r q' h one i x e = elim (get_elem?-set heap r i q' x e) [
  | inl same ↦ rw same one
  | inr (apart, old) ↦ h i x old
]

pump_after-AllBounded :
    (f : BusQueue → BusQueue) (r : ℕ) (b : InMemoryBus)
    → ((q : BusQueue) → IsBounded q → IsBounded (f q))
    → AllBounded b
    → AllBounded (pump_after f r b)
unfolding pump_after
pump_after-AllBounded f r b keeps d = elim (Option-cases (get_elem? b.heap r)) [
  | inl missing ↦ rw (missing, pump_after) d
  | inr (q, there) ↦
      rw (there, pump_after)
        (set-HeapBounded b.heap r (pump (f q)).0 d (pump-IsBounded (f q) (keeps q (d r q there))))
]

module _ (topic : Destination) (body : String) (o : PublishOptions) where
  publish_to-AllBounded :
      (k : String) (r : ℕ) (b : InMemoryBus)
      → AllBounded b
      → AllBounded (publish_to topic body k o r b)
  unfolding publish_to
  publish_to-AllBounded k r b d = elim (Option-cases (get_elem? b.heap r)) [
    | inl missing ↦ rw (missing, publish_to) d
    | inr (q, there) ↦ elim (Bool-cases (matches q k)) [
      | inl fits ↦
          let m = message b.next_object (mem_bus (b.seq + 1)) topic body k o in
          rw (there, fits, publish_to)
            (pump_after-AllBounded (enqueue m) r
              (record b { seq = b.seq + 1; next_object = b.next_object + 1 })
              (λ x. enqueue-IsBounded m x refl) d)
      | inr other ↦ rw (there, other, publish_to) d
    ]
  ]

  publish_all-AllBounded :
      (k : String) (rs : List ℕ) (b : InMemoryBus)
      → AllBounded b
      → AllBounded (publish_all topic body k o rs b)
  unfolding publish_all
  publish_all-AllBounded k [] b d = d
  publish_all-AllBounded k (r ∷ rs) b d =
      publish_all-AllBounded k rs (publish_to topic body k o r b) (publish_to-AllBounded k r b d)

  publish-AllBounded :
      (k : Option String) (b : InMemoryBus) → AllBounded b → AllBounded (publish topic body k o b)
  unfolding publish log_publish
  publish-AllBounded k b d = elim (Option-cases (admit o.dedup_id b)) [
    | inl repeated ↦ rw (repeated, publish) d
    | inr (b', admitted) ↦
        rw (admitted, publish)
          (publish_all-AllBounded (or_else k topic) (topic_queues b' topic)
            (log_publish topic body (or_else k topic) o b')
            (subst HeapBounded (sym (admit-same o.dedup_id b b' admitted).0) d))
  ]

bury-AllBounded :
    (q : BusQueue) (m : Option BusMessage) (b : InMemoryBus)
    → AllBounded b
    → AllBounded (bury q m b)
unfolding dead_letter
bury-AllBounded q none b d = d
bury-AllBounded q (some m) b d = elim (Bool-cases q.dead_letter) [
  | inl on ↦ rw on (publish-AllBounded _ m.body no_publish_options (some m.routing_key) b d)
  | inr off ↦ rw off d
]

settle_delivery-AllBounded :
    (r : Resolution) (queue : ℕ) (m : IncomingMessage) (b : InMemoryBus)
    → AllBounded b
    → AllBounded (settle_delivery r queue m b)
unfolding settle_delivery
settle_delivery-AllBounded r queue m b d = elim (Option-cases (get_elem? b.heap queue)) [
  | inl missing ↦ rw (missing, settle_delivery) d
  | inr (q, there) ↦ elim (Option-cases (settle m.object m.consumer r q)) [
    | inl stale ↦ rw (there, stale, settle_delivery) d
    | inr ((q', buried), settled) ↦
        let b1 : InMemoryBus = record b { heap = set b.heap queue q' } in
        rw (there, settled, settle_delivery)
          (pump_after-AllBounded (λ q. q) queue (bury q buried b1) (λ x h. h)
            (bury-AllBounded q buried b1 (
              set-HeapBounded b.heap queue q' d
                (settle-IsBounded m.object m.consumer r q q' buried settled (d queue q there)))))
  ]
]

guarded-AllBounded :
    (r : Resolution) (n : ℕ) (b : InMemoryBus) → AllBounded b → AllBounded (guarded r n b)
unfolding guarded
guarded-AllBounded r n b d = elim (Option-cases (get_elem? b.deliveries n)) [
  | inl missing ↦ rw (missing, guarded) d
  | inr (x, there) ↦ rw (there, guarded) (settle_delivery-AllBounded r x.queue x.incoming b d)
]

throws-AllBounded : (n : ℕ) (b : InMemoryBus) → AllBounded b → AllBounded (handler_throws n b)
unfolding handler_throws
throws-AllBounded n b d = elim (Option-cases (get_elem? b.deliveries n)) [
  | inl missing ↦ rw (missing, handler_throws) d
  | inr (x, there) ↦ elim (Bool-cases x.settled) [
    | inl done ↦ rw (there, done, handler_throws) d
    | inr open_yet ↦ rw (there, open_yet, handler_throws) (guarded-AllBounded requeue n b d)
  ]
]

fire_retry-AllBounded :
    (queue object : ℕ) (b : InMemoryBus) → AllBounded b → AllBounded (fire_retry queue object b)
unfolding fire_retry
fire_retry-AllBounded queue object b d = elim (Option-cases (get_elem? b.heap queue)) [
  | inl missing ↦ rw (missing, fire_retry) d
  | inr (q, there) ↦ elim (Option-cases (redeliver object q)) [
    | inl unarmed ↦ rw (there, unarmed, fire_retry) d
    | inr (q', fired) ↦
        rw (there, fired, fire_retry)
          (pump_after-AllBounded (λ q. q) queue (record b { heap = set b.heap queue q' }) (λ x h. h)
            (set-HeapBounded b.heap queue q' d
              (redeliver-IsBounded object q q' fired (d queue q there))))
  ]
]

publish_expired-AllBounded :
    (q : BusQueue) (m : Option BusMessage) (b : InMemoryBus)
    → AllBounded b
    → AllBounded (publish_expired q m b)
publish_expired-AllBounded q none b d = d
publish_expired-AllBounded q (some m) b d =
    publish-AllBounded _ m.body no_publish_options (some m.routing_key) b d

fire_ttl-AllBounded :
    (queue object : ℕ) (b : InMemoryBus) → AllBounded b → AllBounded (fire_ttl queue object b)
unfolding fire_ttl
fire_ttl-AllBounded queue object b d = elim (Option-cases (get_elem? b.heap queue)) [
  | inl missing ↦ rw (missing, fire_ttl) d
  | inr (q, there) ↦
      rw (there, fire_ttl)
        (publish_expired-AllBounded q (expire object q).1
          (record b { heap = set b.heap queue (expire object q).0 })
          (set-HeapBounded b.heap queue (expire object q).0 d
            (expire-IsBounded object q (d queue q there))))
]

-- The copies of a replay were not delivered yet.
replay-All :
    (limit : ℕ) (q : BusQueue) (object : ℕ) (log : List BusMessage)
    → All (IsWithin limit) (replay q object log).0
unfolding replay
replay-All limit q object [] = tt
replay-All limit q object (m ∷ log) = elim (Bool-cases (matches q m.routing_key)) [
  | inl fits ↦ rw (fits, replay) (omega arith, replay-All limit q (object + 1) log)
  | inr other ↦ rw (other, replay) (replay-All limit q object log)
]

create_queue-AllBounded :
    (topic : Destination) (k : String) (o : SubscribeOptions) (b : InMemoryBus)
    → AllBounded b
    → AllBounded (create_queue topic k o b)
unfolding create_queue
create_queue-AllBounded topic k o b d i q e = elim (get_elem?-concat b.heap _ q i e) [
  | inl created ↦
      rw created (record {
        waiting = replay-All _ (new_queue topic o) b.next_object _;
        later = tt;
        sent = tt;
      })
  | inr old ↦ d i q old
]

subscriber-same : (o : Option String) (b : InMemoryBus) → (subscriber o b).1.heap ≡ b.heap
subscriber-same none b = refl
subscriber-same (some id) b = refl

subscribe-AllBounded :
    (topic : Destination) (h : AckHandler) (o : SubscribeOptions) (b : InMemoryBus)
    → AllBounded b
    → AllBounded (subscribe topic h o b).0
unfolding subscribe
subscribe-AllBounded topic h o b d =
    let b' = (subscriber o.subscriber_id b).1 in
    let k = key topic (subscriber o.subscriber_id b).0 in
    let d' : AllBounded b' = subst HeapBounded (sym (subscriber-same o.subscriber_id b)) d in
    elim (Option-cases (lookup b'.queues k)) [
      | inl fresh ↦
          rw (fresh, subscribe)
            (pump_after-AllBounded (attach h) (length b'.heap) (create_queue topic k o b')
              (attach-IsBounded h) (create_queue-AllBounded topic k o b' d'))
      | inr (queue, there) ↦
          rw (there, subscribe) (pump_after-AllBounded (attach h) queue b' (attach-IsBounded h) d')
    ]

-- The events but `unsubscribe`.
abbrev pub StaysAttached : Event → Type 0
StaysAttached (unsubscribes queue h) = ⊥
StaysAttached (ttl_timer queue object) = Unit
StaysAttached (publishes topic body k o) = Unit
StaysAttached (subscribes topic h o) = Unit
StaysAttached (acks n) = Unit
StaysAttached (nacks n again) = Unit
StaysAttached (throws n) = Unit
StaysAttached (retry_timer queue object) = Unit
StaysAttached disposes = Unit

step-AllBounded :
    (e : Event) (b : InMemoryBus) → StaysAttached e → AllBounded b → AllBounded (step e b)
unfolding step dispose
step-AllBounded (publishes topic body k o) b _ d = publish-AllBounded topic body o k b d
step-AllBounded (subscribes topic h o) b _ d = subscribe-AllBounded topic h o b d
step-AllBounded (unsubscribes queue h) b never d = absurd never
step-AllBounded (acks n) b _ d = guarded-AllBounded ack n b d
step-AllBounded (nacks n again) b _ d = guarded-AllBounded _ n b d
step-AllBounded (throws n) b _ d = throws-AllBounded n b d
step-AllBounded (retry_timer queue object) b _ d = fire_retry-AllBounded queue object b d
step-AllBounded (ttl_timer queue object) b _ d = fire_ttl-AllBounded queue object b d
step-AllBounded disposes b _ d = d

run-AllBounded :
    (es : List Event) (b : InMemoryBus)
    → All StaysAttached es
    → AllBounded b
    → AllBounded (run es b)
unfolding run
run-AllBounded [] b _ d = d
run-AllBounded (e ∷ es) b (here, there) d =
    run-AllBounded es (step e b) there (step-AllBounded e b here d)

-- In every state that a history without `unsubscribe` reaches, a message in flight was delivered at most as
-- often as its queue's limit allows (once, if the limit is 0), and one that waits or is parked less often, so
-- that it may be delivered again.
pub reached-AllBounded : (es : List Event) → All StaysAttached es → AllBounded (run es new_bus)
reached-AllBounded es attached = run-AllBounded es new_bus attached (λ i q e. absurd (cc))
