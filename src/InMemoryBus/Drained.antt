-- ===== src/InMemoryBus/Drained.antt =====
-- No lost wakeup: after every event but the firing of a TTL timer, no queue has a message that could
-- be delivered.
use messaging_poc.Common.{
  get_elem?-set, get_elem?-concat, get_elem?-set_ne, All, ◌∙◌, ℕ, String, List, [], ◌∷◌, ◌++◌,
  Option, none, some, ◌≡◌, refl, ap, sym, subst, inl, inr, arith, get_elem?, set, Bool-cases,
  Option-cases, lookup, contains, string_eq,
}
use messaging_poc.Abstractions.{
  Destination, AckHandler, PublishOptions, SubscribeOptions, no_publish_options,
}
use messaging_poc.BusQueue.{BusMessage, BusQueue, matches}
use messaging_poc.Pump.{IncomingMessage, Resolution, ack, requeue, pump, settle, redeliver}
use messaging_poc.Pump.Drained.{IsDrained, pump-IsDrained}
use messaging_poc.InMemoryBus.{
  InMemoryBus, new_bus, pump_after, admit, log_publish, publish_to, publish_all, publish,
  create_queue, topic_queues, subscribe, subscriber, key, unsubscribe, dead_letter, settle_delivery,
  guarded, handler_throws, fire_retry, dispose, Event, publishes, subscribes, unsubscribes, acks,
  nacks, throws, retry_timer, ttl_timer, disposes, step, run, bury,
}

-- The queues at all places but those of `X` are drained.
abbrev pub DrainedBut : (ℕ → Type 0) → List BusQueue → Type 0
DrainedBut X heap = (i : ℕ) (q : BusQueue) → ¬ X i → get_elem? heap i ≡ some q → IsDrained q

abbrev pub AllDrained : InMemoryBus → Type 0
AllDrained b = DrainedBut (λ _. ⊥) b.heap

-- A pump drains its queue, and leaves the others alone.
module _ (X : ℕ → Type 0) (f : BusQueue → BusQueue) (r : ℕ) (b : InMemoryBus) where
  pump_after-DrainedBut : DrainedBut X b.heap → DrainedBut X (pump_after f r b).heap
  unfolding pump_after
  pump_after-DrainedBut d = elim (Option-cases (get_elem? b.heap r)) [
    | inl missing ↦ rw (missing, pump_after) d
    | inr (q, there) ↦
        rw (there, pump_after)
          (λ i x other e. elim (get_elem?-set b.heap r i (pump (f q)).0 x e) [
            | inl same ↦ rw same (pump-IsDrained (f q))
            | inr (apart, old) ↦ d i x other old
          ])
  ]

pump_after-drains :
    (f : BusQueue → BusQueue) (r : ℕ) (b : InMemoryBus)
    → DrainedBut (λ i. i ≡ r) b.heap
    → AllDrained (pump_after f r b)
unfolding pump_after
pump_after-drains f r b d = elim (Option-cases (get_elem? b.heap r)) [
  | inl missing ↦
      rw (missing, pump_after) (λ i x other e. d i x (λ here. ground (arith, missing, e, here)) e)
  | inr (q, there) ↦
      rw (there, pump_after)
        (λ i x other e. elim (get_elem?-set b.heap r i (pump (f q)).0 x e) [
          | inl same ↦ rw same (pump-IsDrained (f q))
          | inr (apart, old) ↦ d i x (λ here. apart (sym here)) old
        ])
]

module _ (X : ℕ → Type 0) (topic : Destination) (body : String) (o : PublishOptions) where
  publish_to-DrainedBut :
      (k : String) (r : ℕ) (b : InMemoryBus)
      → DrainedBut X b.heap
      → DrainedBut X (publish_to topic body k o r b).heap
  unfolding publish_to
  publish_to-DrainedBut k r b d = elim (Option-cases (get_elem? b.heap r)) [
    | inl missing ↦ rw (missing, publish_to) d
    | inr (q, there) ↦ elim (Bool-cases (matches q k)) [
      | inl fits ↦ rw (there, fits, publish_to) (pump_after-DrainedBut X _ r _ d)
      | inr other ↦ rw (there, other, publish_to) d
    ]
  ]

  publish_all-DrainedBut :
      (k : String) (rs : List ℕ) (b : InMemoryBus)
      → DrainedBut X b.heap
      → DrainedBut X (publish_all topic body k o rs b).heap
  unfolding publish_all
  publish_all-DrainedBut k [] b d = d
  publish_all-DrainedBut k (r ∷ rs) b d =
      publish_all-DrainedBut k rs (publish_to topic body k o r b) (publish_to-DrainedBut k r b d)

  admit-heap : (d : Option String) (b b' : InMemoryBus) → admit d b ≡ some b' → b'.heap ≡ b.heap
  unfolding admit
  admit-heap none b b' e = let same : b ≡ b' = cc in ap (λ x. x.heap) (sym same)
  admit-heap (some d) b b' e = elim (Bool-cases (contains b.seen_dedup_ids d)) [
    | inl seen ↦ absurd (ground arith)
    | inr fresh ↦
        let same : record b { seen_dedup_ids = b.seen_dedup_ids ++ d ∷ [] } ≡ b' = ground arith in
        ap (λ x. x.heap) (sym same)
  ]

  publish-DrainedBut :
      (k : Option String) (b : InMemoryBus)
      → DrainedBut X b.heap
      → DrainedBut X (publish topic body k o b).heap
  unfolding publish log_publish
  publish-DrainedBut k b d = elim (Option-cases (admit o.dedup_id b)) [
    | inl repeated ↦ rw (repeated, publish) d
    | inr (b', admitted) ↦
        rw (admitted, publish)
          (publish_all-DrainedBut _ (topic_queues b' topic) _
            (subst (DrainedBut X) (sym (admit-heap o.dedup_id b b' admitted)) d))
  ]

bury-DrainedBut :
    (X : ℕ → Type 0) (q : BusQueue) (m : Option BusMessage) (b : InMemoryBus)
    → DrainedBut X b.heap
    → DrainedBut X (bury q m b).heap
unfolding dead_letter
bury-DrainedBut X q none b d = d
bury-DrainedBut X q (some m) b d = elim (Bool-cases q.dead_letter) [
  | inl on ↦ rw on (publish-DrainedBut X _ m.body no_publish_options (some m.routing_key) b d)
  | inr off ↦ rw off d
]

put-DrainedBut :
    (r : ℕ) (q' : BusQueue) (b : InMemoryBus)
    → AllDrained b
    → DrainedBut (λ i. i ≡ r) (set b.heap r q')
put-DrainedBut r q' b d i x other e =
    d i x (λ h. h) (sym (get_elem?-set_ne b.heap r i q' (λ h. other (sym h))) ∙ e)

settle_delivery-AllDrained :
    (r : Resolution) (queue : ℕ) (m : IncomingMessage) (b : InMemoryBus)
    → AllDrained b
    → AllDrained (settle_delivery r queue m b)
unfolding settle_delivery
settle_delivery-AllDrained r queue m b d = elim (Option-cases (get_elem? b.heap queue)) [
  | inl missing ↦ rw (missing, settle_delivery) d
  | inr (q, there) ↦ elim (Option-cases (settle m.object m.consumer r q)) [
    | inl stale ↦ rw (there, stale, settle_delivery) d
    | inr ((q', buried), settled) ↦
        rw (there, settled, settle_delivery)
          (pump_after-drains (λ q. q) queue _
            (bury-DrainedBut (λ i. i ≡ queue) q buried _ (put-DrainedBut queue q' b d)))
  ]
]

guarded-AllDrained :
    (r : Resolution) (n : ℕ) (b : InMemoryBus) → AllDrained b → AllDrained (guarded r n b)
unfolding guarded
guarded-AllDrained r n b d = elim (Option-cases (get_elem? b.deliveries n)) [
  | inl missing ↦ rw (missing, guarded) d
  | inr (x, there) ↦ rw (there, guarded) (settle_delivery-AllDrained r x.queue x.incoming b d)
]

throws-AllDrained : (n : ℕ) (b : InMemoryBus) → AllDrained b → AllDrained (handler_throws n b)
unfolding handler_throws
throws-AllDrained n b d = elim (Option-cases (get_elem? b.deliveries n)) [
  | inl missing ↦ rw (missing, handler_throws) d
  | inr (x, there) ↦ elim (Bool-cases x.settled) [
    | inl done ↦ rw (there, done, handler_throws) d
    | inr open_yet ↦ rw (there, open_yet, handler_throws) (guarded-AllDrained requeue n b d)
  ]
]

fire_retry-AllDrained :
    (queue object : ℕ) (b : InMemoryBus) → AllDrained b → AllDrained (fire_retry queue object b)
unfolding fire_retry
fire_retry-AllDrained queue object b d = elim (Option-cases (get_elem? b.heap queue)) [
  | inl missing ↦ rw (missing, fire_retry) d
  | inr (q, there) ↦ elim (Option-cases (redeliver object q)) [
    | inl unarmed ↦ rw (there, unarmed, fire_retry) d
    | inr (q', fired) ↦
        rw (there, fired, fire_retry)
          (pump_after-drains (λ q. q) queue _ (put-DrainedBut queue q' b d))
  ]
]

-- A bus with everything drained stays so when a queue changes and is then pumped.
pump_after-AllDrained :
    (f : BusQueue → BusQueue) (r : ℕ) (b : InMemoryBus)
    → AllDrained b
    → AllDrained (pump_after f r b)
pump_after-AllDrained f r b d = pump_after-drains f r b (λ i q other. d i q (λ h. h))

create_queue-AllDrained :
    (topic : Destination) (k : String) (o : SubscribeOptions) (b : InMemoryBus)
    → AllDrained b
    → AllDrained (create_queue topic k o b)
unfolding create_queue
create_queue-AllDrained topic k o b d i q other e = elim (get_elem?-concat b.heap _ q i e) [
  | inl created ↦ rw created (inr (inl refl))
  | inr old ↦ d i q other old
]

subscriber-heap : (o : Option String) (b : InMemoryBus) → (subscriber o b).1.heap ≡ b.heap
subscriber-heap none b = refl
subscriber-heap (some id) b = refl

subscribe-AllDrained :
    (topic : Destination) (h : AckHandler) (o : SubscribeOptions) (b : InMemoryBus)
    → AllDrained b
    → AllDrained (subscribe topic h o b).0
unfolding subscribe
subscribe-AllDrained topic h o b d =
    let b' = (subscriber o.subscriber_id b).1 in
    let k = key topic (subscriber o.subscriber_id b).0 in
    let d' : AllDrained b' =
      subst (DrainedBut (λ _. ⊥)) (sym (subscriber-heap o.subscriber_id b)) d in
    elim (Option-cases (lookup b'.queues k)) [
      | inl fresh ↦
          rw (fresh, subscribe)
            (pump_after-AllDrained _ _ _ (create_queue-AllDrained topic k o b' d'))
      | inr (queue, there) ↦ rw (there, subscribe) (pump_after-AllDrained _ queue b' d')
    ]

-- The events but the firing of a TTL timer.
abbrev pub IsNoExpiry : Event → Type 0
IsNoExpiry (ttl_timer queue object) = ⊥
IsNoExpiry (publishes topic body k o) = Unit
IsNoExpiry (subscribes topic h o) = Unit
IsNoExpiry (unsubscribes queue h) = Unit
IsNoExpiry (acks n) = Unit
IsNoExpiry (nacks n again) = Unit
IsNoExpiry (throws n) = Unit
IsNoExpiry (retry_timer queue object) = Unit
IsNoExpiry disposes = Unit

step-AllDrained :
    (e : Event) (b : InMemoryBus) → IsNoExpiry e → AllDrained b → AllDrained (step e b)
unfolding step unsubscribe dispose
step-AllDrained (publishes topic body k o) b _ d = publish-DrainedBut (λ _. ⊥) topic body o k b d
step-AllDrained (subscribes topic h o) b _ d = subscribe-AllDrained topic h o b d
step-AllDrained (unsubscribes queue h) b _ d = pump_after-AllDrained _ queue b d
step-AllDrained (acks n) b _ d = guarded-AllDrained ack n b d
step-AllDrained (nacks n again) b _ d = guarded-AllDrained _ n b d
step-AllDrained (throws n) b _ d = throws-AllDrained n b d
step-AllDrained (retry_timer queue object) b _ d = fire_retry-AllDrained queue object b d
step-AllDrained (ttl_timer queue object) b never d = absurd never
step-AllDrained disposes b _ d = d

run-AllDrained :
    (es : List Event) (b : InMemoryBus) → All IsNoExpiry es → AllDrained b → AllDrained (run es b)
unfolding run
run-AllDrained [] b _ d = d
run-AllDrained (e ∷ es) b (here, there) d =
    run-AllDrained es (step e b) there (step-AllDrained e b here d)

-- No lost wakeup: after any history of events in which no TTL timer fires, no queue has a message that
-- it could hand to one of its consumers now.
pub reached-AllDrained : (es : List Event) → All IsNoExpiry es → AllDrained (run es new_bus)
reached-AllDrained es quiet = run-AllDrained es new_bus quiet (λ i q _ e. absurd (cc))
