-- ===== src/InMemoryBus/Dedup.antt =====
-- Producer dedup: an id that was published once is never published again.
use messaging_poc.Common.{
  ℕ, length, String, List, [], ◌∷◌, ◌++◌, true, Option, none, some, ◌≡◌, refl, ap, subst, ◌∙◌, inl,
  inr, arith, get_elem?, contains, contains-append, string_eq, ==_iff, lookup, Bool-cases,
  Option-cases,
}
use messaging_poc.Abstractions.{
  Destination, AckHandler, PublishOptions, SubscribeOptions, no_publish_options,
}
use messaging_poc.BusQueue.{BusMessage, BusQueue, matches}
use messaging_poc.Pump.{
  IncomingMessage, Resolution, ack, requeue, settle, redeliver, expire, attach,
}
use messaging_poc.InMemoryBus.{
  InMemoryBus, pump_after, admit, log_publish, publish_to, publish_all, publish, create_queue,
  topic_queues, subscribe, subscriber, key, unsubscribe, dead_letter, settle_delivery, guarded,
  handler_throws, fire_retry, fire_ttl, dispose, Event, publishes, subscribes, unsubscribes, acks,
  nacks, throws, retry_timer, ttl_timer, disposes, step, run, bury, publish_expired,
}

module _ (id : String) where
  -- The id was seen.
  abbrev pub IsSeen : InMemoryBus → Type 0
  IsSeen b = contains b.seen_dedup_ids id ≡ true

  pump_after-IsSeen :
      (f : BusQueue → BusQueue) (r : ℕ) (b : InMemoryBus) → IsSeen b → IsSeen (pump_after f r b)
  unfolding pump_after
  pump_after-IsSeen f r b s = elim (Option-cases (get_elem? b.heap r)) [
    | inl missing ↦ rw (missing, pump_after) s
    | inr (q, there) ↦ rw (there, pump_after) s
  ]

  module _ (topic : Destination) (body : String) (o : PublishOptions) where
    publish_to-IsSeen :
        (k : String) (r : ℕ) (b : InMemoryBus) → IsSeen b → IsSeen (publish_to topic body k o r b)
    unfolding publish_to
    publish_to-IsSeen k r b s = elim (Option-cases (get_elem? b.heap r)) [
      | inl missing ↦ rw (missing, publish_to) s
      | inr (q, there) ↦ elim (Bool-cases (matches q k)) [
        | inl fits ↦ rw (there, fits, publish_to) (pump_after-IsSeen _ r _ s)
        | inr other ↦ rw (there, other, publish_to) s
      ]
    ]

    publish_all-IsSeen :
        (k : String) (rs : List ℕ) (b : InMemoryBus)
        → IsSeen b
        → IsSeen (publish_all topic body k o rs b)
    unfolding publish_all
    publish_all-IsSeen k [] b s = s
    publish_all-IsSeen k (r ∷ rs) b s = publish_all-IsSeen k rs _ (publish_to-IsSeen k r b s)

    admit-IsSeen :
        (d : Option String) (b b' : InMemoryBus) → admit d b ≡ some b' → IsSeen b → IsSeen b'
    unfolding admit
    admit-IsSeen none b b' e s = let same : b ≡ b' = cc in subst IsSeen same s
    admit-IsSeen (some d) b b' e s = elim (Bool-cases (contains b.seen_dedup_ids d)) [
      | inl seen ↦ absurd (ground arith)
      | inr fresh ↦
          let same : record b { seen_dedup_ids = b.seen_dedup_ids ++ d ∷ [] } ≡ b' = ground arith in
          subst IsSeen same (contains-append b.seen_dedup_ids (d ∷ []) id ∙ rw s refl)
    ]

    publish-IsSeen :
        (k : Option String) (b : InMemoryBus) → IsSeen b → IsSeen (publish topic body k o b)
    unfolding publish log_publish
    publish-IsSeen k b s = elim (Option-cases (admit o.dedup_id b)) [
      | inl repeated ↦ rw (repeated, publish) s
      | inr (b', admitted) ↦
          rw (admitted, publish)
            (publish_all-IsSeen _ (topic_queues b' topic) _
              (admit-IsSeen o.dedup_id b b' admitted s))
    ]

    admit-marks : (b b' : InMemoryBus) → admit (some id) b ≡ some b' → IsSeen b'
    unfolding admit
    admit-marks b b' e = elim (Bool-cases (contains b.seen_dedup_ids id)) [
      | inl seen ↦ absurd (ground arith)
      | inr fresh ↦
          let same : record b { seen_dedup_ids = b.seen_dedup_ids ++ id ∷ [] } ≡ b' =
            ground arith in
          subst IsSeen same
            (contains-append b.seen_dedup_ids (id ∷ []) id ∙ rw (fresh, (==_iff id id).1 refl) refl)
    ]

    admit-none : (b : InMemoryBus) → admit (some id) b ≡ none → IsSeen b
    unfolding admit
    admit-none b e = elim (Bool-cases (contains b.seen_dedup_ids id)) [
      | inl seen ↦ seen
      | inr fresh ↦ absurd (ground arith)
    ]

    publish-marks :
        (k : Option String) (b : InMemoryBus)
        → o.dedup_id ≡ some id
        → IsSeen (publish topic body k o b)
    unfolding publish log_publish
    publish-marks k b e = elim (Option-cases (admit o.dedup_id b)) [
      | inl repeated ↦
          rw (repeated, publish) (admit-none b (subst (λ d. admit d b ≡ none) e repeated))
      | inr (b', admitted) ↦
          rw (admitted, publish)
            (publish_all-IsSeen _ (topic_queues b' topic) _
              (admit-marks b b' (subst (λ d. admit d b ≡ some b') e admitted)))
    ]

    publish-repeated :
        (k : Option String) (b : InMemoryBus)
        → o.dedup_id ≡ some id
        → IsSeen b
        → publish topic body k o b ≡ b
    unfolding publish admit
    publish-repeated k b e s = rw (e, s, publish) refl

  bury-IsSeen :
      (q : BusQueue) (m : Option BusMessage) (b : InMemoryBus) → IsSeen b → IsSeen (bury q m b)
  unfolding dead_letter
  bury-IsSeen q none b s = s
  bury-IsSeen q (some m) b s = elim (Bool-cases q.dead_letter) [
    | inl on ↦ rw on (publish-IsSeen _ m.body no_publish_options (some m.routing_key) b s)
    | inr off ↦ rw off s
  ]

  settle_delivery-IsSeen :
      (r : Resolution) (queue : ℕ) (m : IncomingMessage) (b : InMemoryBus)
      → IsSeen b
      → IsSeen (settle_delivery r queue m b)
  unfolding settle_delivery
  settle_delivery-IsSeen r queue m b s = elim (Option-cases (get_elem? b.heap queue)) [
    | inl missing ↦ rw (missing, settle_delivery) s
    | inr (q, there) ↦ elim (Option-cases (settle m.object m.consumer r q)) [
      | inl stale ↦ rw (there, stale, settle_delivery) s
      | inr ((q', buried), settled) ↦
          rw (there, settled, settle_delivery)
            (pump_after-IsSeen _ queue _ (bury-IsSeen q buried _ s))
    ]
  ]

  guarded-IsSeen : (r : Resolution) (n : ℕ) (b : InMemoryBus) → IsSeen b → IsSeen (guarded r n b)
  unfolding guarded
  guarded-IsSeen r n b s = elim (Option-cases (get_elem? b.deliveries n)) [
    | inl missing ↦ rw (missing, guarded) s
    | inr (d, there) ↦ rw (there, guarded) (settle_delivery-IsSeen r d.queue d.incoming b s)
  ]

  throws-IsSeen : (n : ℕ) (b : InMemoryBus) → IsSeen b → IsSeen (handler_throws n b)
  unfolding handler_throws
  throws-IsSeen n b s = elim (Option-cases (get_elem? b.deliveries n)) [
    | inl missing ↦ rw (missing, handler_throws) s
    | inr (d, there) ↦ elim (Bool-cases d.settled) [
      | inl done ↦ rw (there, done, handler_throws) s
      | inr open_yet ↦ rw (there, open_yet, handler_throws) (guarded-IsSeen requeue n b s)
    ]
  ]

  fire_retry-IsSeen :
      (queue object : ℕ) (b : InMemoryBus) → IsSeen b → IsSeen (fire_retry queue object b)
  unfolding fire_retry
  fire_retry-IsSeen queue object b s = elim (Option-cases (get_elem? b.heap queue)) [
    | inl missing ↦ rw (missing, fire_retry) s
    | inr (q, there) ↦ elim (Option-cases (redeliver object q)) [
      | inl unarmed ↦ rw (there, unarmed, fire_retry) s
      | inr (q', fired) ↦ rw (there, fired, fire_retry) (pump_after-IsSeen _ queue _ s)
    ]
  ]

  publish_expired-IsSeen :
      (q : BusQueue) (m : Option BusMessage) (b : InMemoryBus)
      → IsSeen b
      → IsSeen (publish_expired q m b)
  publish_expired-IsSeen q none b s = s
  publish_expired-IsSeen q (some m) b s =
      publish-IsSeen _ m.body no_publish_options (some m.routing_key) b s

  fire_ttl-IsSeen :
      (queue object : ℕ) (b : InMemoryBus) → IsSeen b → IsSeen (fire_ttl queue object b)
  unfolding fire_ttl
  fire_ttl-IsSeen queue object b s = elim (Option-cases (get_elem? b.heap queue)) [
    | inl missing ↦ rw (missing, fire_ttl) s
    | inr (q, there) ↦ rw (there, fire_ttl) (publish_expired-IsSeen q (expire object q).1 _ s)
  ]

  subscriber-dedup_ids :
      (o : Option String) (b : InMemoryBus) → (subscriber o b).1.seen_dedup_ids ≡ b.seen_dedup_ids
  subscriber-dedup_ids none b = refl
  subscriber-dedup_ids (some x) b = refl

  subscribe-IsSeen :
      (topic : Destination) (h : AckHandler) (o : SubscribeOptions) (b : InMemoryBus)
      → IsSeen b
      → IsSeen (subscribe topic h o b).0
  unfolding subscribe create_queue
  subscribe-IsSeen topic h o b s =
      let b' = (subscriber o.subscriber_id b).1 in
      let k = key topic (subscriber o.subscriber_id b).0 in
      let s' : IsSeen b' =
        ap (λ ids. contains ids id) (subscriber-dedup_ids o.subscriber_id b) ∙ s in
      elim (Option-cases (lookup b'.queues k)) [
        | inl fresh ↦
            rw (fresh, subscribe)
              (pump_after-IsSeen (attach h) (length b'.heap) (create_queue topic k o b') s')
        | inr (queue, there) ↦ rw (there, subscribe) (pump_after-IsSeen (attach h) queue b' s')
      ]

  step-IsSeen : (e : Event) (b : InMemoryBus) → IsSeen b → IsSeen (step e b)
  unfolding step unsubscribe dispose
  step-IsSeen (publishes topic body k o) b s = publish-IsSeen topic body o k b s
  step-IsSeen (subscribes topic h o) b s = subscribe-IsSeen topic h o b s
  step-IsSeen (unsubscribes queue h) b s = pump_after-IsSeen _ queue b s
  step-IsSeen (acks n) b s = guarded-IsSeen ack n b s
  step-IsSeen (nacks n again) b s = guarded-IsSeen _ n b s
  step-IsSeen (throws n) b s = throws-IsSeen n b s
  step-IsSeen (retry_timer queue object) b s = fire_retry-IsSeen queue object b s
  step-IsSeen (ttl_timer queue object) b s = fire_ttl-IsSeen queue object b s
  step-IsSeen disposes b s = s

  run-IsSeen : (es : List Event) (b : InMemoryBus) → IsSeen b → IsSeen (run es b)
  unfolding run
  run-IsSeen [] b s = s
  run-IsSeen (e ∷ es) b s = run-IsSeen es (step e b) (step-IsSeen e b s)

-- After a publish with a dedup id, and whatever happens then, a publish with the same dedup id changes
-- nothing, whatever its topic, text and other options are.
pub publish-dedup :
    (id : String) (topic topic' : Destination) (body body' : String) (k k' : Option String)
    (o o' : PublishOptions) (es : List Event) (b : InMemoryBus)
    → o.dedup_id ≡ some id
    → o'.dedup_id ≡ some id
    → publish topic' body' k' o' (run es (publish topic body k o b))
      ≡ run es (publish topic body k o b)
publish-dedup id topic topic' body body' k k' o o' es b e e' =
    publish-repeated id topic' body' o' k' _ e'
      (run-IsSeen id es _ (publish-marks id topic body o k b e))
