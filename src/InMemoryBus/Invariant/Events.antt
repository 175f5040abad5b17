-- ===== src/InMemoryBus/Invariant/Events.antt =====
-- Every event keeps the invariant of the bus.
use messaging_poc.Common.{
  ℕ, List, [], ◌∷◌, Option, none, some, inl, inr, arith, get_elem?, set, All-set, All-get,
  Bool-cases, Option-cases,
}
use messaging_poc.Abstractions.{no_publish_options}
use messaging_poc.BusQueue.{BusMessage, BusQueue}
use messaging_poc.Pump.{
  IncomingMessage, Resolution, ack, requeue, settle, redeliver, expire, detach,
}
use messaging_poc.Pump.Custody.{settle-IsSettled, settle-holds, redeliver-holds, expire-holds}
use messaging_poc.Pump.Steps.{settle-IsSound, redeliver-IsSound, expire-IsSound}
use messaging_poc.Pump.Detach.{detach-holds, detach-IsSound}
use messaging_poc.InMemoryBus.{
  InMemoryBus, new_bus, pump_after, unsubscribe, dead_letter, settle_delivery, guarded,
  handler_throws, fire_retry, fire_ttl, dispose, Event, publishes, subscribes, unsubscribes, acks,
  nacks, throws, retry_timer, ttl_timer, disposes, step, run, bury, publish_expired,
}
use messaging_poc.InMemoryBus.Invariant.{IsGood, IsValid, IsGood-of_holds, pump_after-keeps}
use messaging_poc.InMemoryBus.Invariant.Publish.{publish-IsValid, subscribe-IsValid}

module _ (r : ℕ) (b : InMemoryBus) where
  pumped-IsValid : IsValid b → IsValid (pump_after (λ q. q) r b)
  pumped-IsValid v = pump_after-keeps (λ q. q) r b.next_object b (λ q g. g) (omega arith) v

  -- A queue is written back.
  put-IsValid :
      (q' : BusQueue)
      → IsValid b
      → IsGood b.next_object q'
      → IsValid (record b { heap = set b.heap r q' })
  put-IsValid q' v g = All-set _ b.heap r q' v g

bury-IsValid :
    (q : BusQueue) (m : Option BusMessage) (b : InMemoryBus) → IsValid b → IsValid (bury q m b)
unfolding dead_letter
bury-IsValid q none b v = v
bury-IsValid q (some m) b v = elim (Bool-cases q.dead_letter) [
  | inl on ↦ rw on (publish-IsValid _ m.body (some m.routing_key) no_publish_options b v)
  | inr off ↦ rw off v
]

settle_delivery-IsValid :
    (r : Resolution) (queue : ℕ) (m : IncomingMessage) (b : InMemoryBus)
    → IsValid b
    → IsValid (settle_delivery r queue m b)
unfolding settle_delivery
settle_delivery-IsValid r queue m b v = elim (Option-cases (get_elem? b.heap queue)) [
  | inl missing ↦ rw (missing, settle_delivery) v
  | inr (q, there) ↦ elim (Option-cases (settle m.object m.consumer r q)) [
    | inl stale ↦ rw (there, stale, settle_delivery) v
    | inr ((q', buried), settled) ↦
        let s = settle-IsSettled m.object m.consumer r q q' buried settled in
        let g = All-get _ b.heap queue v there in
        let g' =
          IsGood-of_holds b.next_object q q' g
            (λ o. omega (arith, settle-holds o m.object m.consumer r q q' buried s))
            (settle-IsSound m.object m.consumer r q q' buried s g.sound) in
        rw (there, settled, settle_delivery)
          (pumped-IsValid queue _ (bury-IsValid q buried _ (put-IsValid queue b q' v g')))
  ]
]

guarded-IsValid : (r : Resolution) (n : ℕ) (b : InMemoryBus) → IsValid b → IsValid (guarded r n b)
unfolding guarded
guarded-IsValid r n b v = elim (Option-cases (get_elem? b.deliveries n)) [
  | inl missing ↦ rw (missing, guarded) v
  | inr (d, there) ↦ rw (there, guarded) (settle_delivery-IsValid r d.queue d.incoming b v)
]

throws-IsValid : (n : ℕ) (b : InMemoryBus) → IsValid b → IsValid (handler_throws n b)
unfolding handler_throws
throws-IsValid n b v = elim (Option-cases (get_elem? b.deliveries n)) [
  | inl missing ↦ rw (missing, handler_throws) v
  | inr (d, there) ↦ elim (Bool-cases d.settled) [
    | inl done ↦ rw (there, done, handler_throws) v
    | inr open_yet ↦ rw (there, open_yet, handler_throws) (guarded-IsValid requeue n b v)
  ]
]

fire_retry-IsValid :
    (queue object : ℕ) (b : InMemoryBus) → IsValid b → IsValid (fire_retry queue object b)
unfolding fire_retry
fire_retry-IsValid queue object b v = elim (Option-cases (get_elem? b.heap queue)) [
  | inl missing ↦ rw (missing, fire_retry) v
  | inr (q, there) ↦ elim (Option-cases (redeliver object q)) [
    | inl unarmed ↦ rw (there, unarmed, fire_retry) v
    | inr (q', fired) ↦
        let g = All-get _ b.heap queue v there in
        let g' =
          IsGood-of_holds b.next_object q q' g
            (λ o. omega (arith, redeliver-holds o object q q' fired))
            (redeliver-IsSound object q q' fired g.sound) in
        rw (there, fired, fire_retry) (pumped-IsValid queue _ (put-IsValid queue b q' v g'))
  ]
]

publish_expired-IsValid :
    (q : BusQueue) (m : Option BusMessage) (b : InMemoryBus)
    → IsValid b
    → IsValid (publish_expired q m b)
publish_expired-IsValid q none b v = v
publish_expired-IsValid q (some m) b v =
    publish-IsValid _ m.body (some m.routing_key) no_publish_options b v

fire_ttl-IsValid :
    (queue object : ℕ) (b : InMemoryBus) → IsValid b → IsValid (fire_ttl queue object b)
unfolding fire_ttl
fire_ttl-IsValid queue object b v = elim (Option-cases (get_elem? b.heap queue)) [
  | inl missing ↦ rw (missing, fire_ttl) v
  | inr (q, there) ↦
      let g = All-get _ b.heap queue v there in
      let g' =
        IsGood-of_holds b.next_object q (expire object q).0 g
          (λ o. omega (arith, expire-holds o object q)) (expire-IsSound object q g.sound) in
      rw (there, fire_ttl)
        (publish_expired-IsValid q (expire object q).1 _
          (put-IsValid queue b (expire object q).0 v g'))
]

unsubscribe-IsValid : (queue h : ℕ) (b : InMemoryBus) → IsValid b → IsValid (unsubscribe queue h b)
unfolding unsubscribe
unsubscribe-IsValid queue h b v =
    pump_after-keeps (detach h) queue b.next_object b
      (λ q g.
        IsGood-of_holds b.next_object q (detach h q) g
          (λ o. omega (arith, detach-holds o h q g.unique)) (detach-IsSound h q g.unique g.sound))
      (omega arith) v

-- Every event keeps the invariant.
pub step-IsValid : (e : Event) (b : InMemoryBus) → IsValid b → IsValid (step e b)
unfolding step dispose
step-IsValid (publishes topic body key o) b v = publish-IsValid topic body key o b v
step-IsValid (subscribes topic h o) b v = subscribe-IsValid topic h o b v
step-IsValid (unsubscribes queue h) b v = unsubscribe-IsValid queue h b v
step-IsValid (acks n) b v = guarded-IsValid ack n b v
step-IsValid (nacks n again) b v = guarded-IsValid _ n b v
step-IsValid (throws n) b v = throws-IsValid n b v
step-IsValid (retry_timer queue object) b v = fire_retry-IsValid queue object b v
step-IsValid (ttl_timer queue object) b v = fire_ttl-IsValid queue object b v
step-IsValid disposes b v = v

pub run-IsValid : (es : List Event) (b : InMemoryBus) → IsValid b → IsValid (run es b)
unfolding run
run-IsValid [] b v = v
run-IsValid (e ∷ es) b v = run-IsValid es (step e b) (step-IsValid e b v)

-- In every state that a history of events reaches, a consumer of a queue holds one of its messages at
-- most and is attached; in a queue with a single active consumer that is not partitioned by group, one
-- message is out at most, with the first consumer; in a queue that is partitioned by group, a message in
-- flight is with the consumer that its group is pinned to; and no message object stands in two places
-- of a queue.
pub reached-IsValid : (es : List Event) → IsValid (run es new_bus)
reached-IsValid es = run-IsValid es new_bus tt
