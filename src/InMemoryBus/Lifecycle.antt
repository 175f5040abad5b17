-- ===== src/InMemoryBus/Lifecycle.antt =====
-- The bus refines the state machine of Pump.Lifecycle: in every history, every message object goes
-- through moves of its queue's machine only.
use messaging_poc.Common.{
  ℕ, ◌+◌, ◌≤◌, ◌<◌, String, List, [], ◌∷◌, ◌++◌, true, false, Option, none, some, ◌≡◌, refl, ap,
  sym, subst, ◌∙◌, inl, inr, arith, get_elem?, get_elem?-set_here, get_elem?-set_ne,
  get_elem?-append, set, length, Bool-cases, Option-cases, or_else, lookup, if◌then◌else◌, contains,
  string_eq, ℕ_eq, ◌==◌, ==_iff, All-get,
}
use messaging_poc.Abstractions.{
  Destination, AckHandler, PublishOptions, SubscribeOptions, no_publish_options,
}
use messaging_poc.BusQueue.{BusMessage, BusQueue, matches, mem_bus}
use messaging_poc.Pump.{
  IncomingMessage, Resolution, ack, requeue, pump, settle, redeliver, expire, detach, attach,
  enqueue,
}
use messaging_poc.Pump.Custody.{one}
use messaging_poc.Pump.Lifecycle.{
  place, Course, stay, Course-trans, total, Course-total, pump-Course, settle-Course,
  redeliver-Course, expire-Course, detach-Course, enqueue-Course,
}
use messaging_poc.InMemoryBus.{
  InMemoryBus, new_bus, message, pump_after, admit, log_publish, publish_to, publish_all, publish,
  new_queue, create_queue, topic_queues, subscribe, subscriber, key, unsubscribe, dead_letter,
  settle_delivery, guarded, handler_throws, fire_retry, fire_ttl, dispose, Event, publishes,
  subscribes, unsubscribes, acks, nacks, throws, retry_timer, ttl_timer, disposes, step, run, bury,
  publish_expired,
}
use messaging_poc.InMemoryBus.Invariant.{IsGood, IsValid}
use messaging_poc.InMemoryBus.Invariant.Events.{step-IsValid, run-IsValid}
use messaging_poc.InMemoryBus.Invariant.Publish.{replay-IsFreshCopies}

-- The queue at `r` is still there, and the object took a course of moves in it.
pub record IsFollowed (o r : ℕ) (q : BusQueue) (heap : List BusQueue) : Type 0 where
  pub now : BusQueue
  pub there : get_elem? heap r ≡ some now
  pub course : Course (place o q) (place o now)

-- From one state to a later one, objects are made, and those that were made before follow the machine.
pub record IsRefined (b b' : InMemoryBus) : Type 0 where
  pub grows : b.next_object ≤ b'.next_object
  pub follows :
      (o r : ℕ) (q : BusQueue)
      → o < b.next_object
      → get_elem? b.heap r ≡ some q
      → IsFollowed o r q b'.heap

IsRefined-refl : (b : InMemoryBus) → IsRefined b b
IsRefined-refl b = record {
  grows = omega arith;
  follows = λ o r q h e. record { now = q; there = e; course = stay };
}

IsRefined-trans : (a b c : InMemoryBus) → IsRefined a b → IsRefined b c → IsRefined a c
IsRefined-trans a b c f g = record {
  grows = omega (arith, f.grows, g.grows);
  follows = λ o r q h e.
      let x = f.follows o r q h e in
      let y = g.follows o r x.now (omega (arith, f.grows, h)) x.there in
      record { now = y.now; there = y.there; course = Course-trans x.course y.course };
}

some-same {ℓ} : {A : Type ℓ} (x y : A) → some x ≡ some y → x ≡ y
some-same x y e = cc

not_new : (o n : ℕ) (m : BusMessage) → o < n → one o (record m { object = n }) ≡ 0
not_new o n m h = ground (arith, ==_iff n o)

-- A queue is written back.
put-IsFollowed :
    (o r i : ℕ) (q p p' : BusQueue) (heap : List BusQueue)
    → get_elem? heap i ≡ some p
    → Course (place o p) (place o p')
    → get_elem? heap r ≡ some q
    → IsFollowed o r q (set heap i p')
put-IsFollowed o r i q p p' heap there c e = elim (Bool-cases (i == r)) [
  | inl same ↦
      let here : i ≡ r = (==_iff i r).0 same in
      let now : p ≡ q = some-same p q (sym there ∙ ap (get_elem? heap) here ∙ e) in
      record {
        now = p';
        there =
            subst (λ j. get_elem? (set heap i p') j ≡ some p') here
              (get_elem?-set_here heap i p' p there);
        course = subst (λ x. Course (place o x) (place o p')) now c;
      }
  | inr apart ↦ record {
    now = q;
    there = get_elem?-set_ne heap i r p' (λ h. absurd (ground (arith, ==_iff i r))) ∙ e;
    course = stay;
  }
]

put-IsRefined :
    (i : ℕ) (p p' : BusQueue) (b : InMemoryBus)
    → get_elem? b.heap i ≡ some p
    → ((o : ℕ) → Course (place o p) (place o p'))
    → IsRefined b (record b { heap = set b.heap i p' })
put-IsRefined i p p' b there c = record {
  grows = omega arith;
  follows = λ o r q h e. put-IsFollowed o r i q p p' b.heap there (c o) e;
}

-- What leaves the heap alone and makes objects.
made-IsRefined :
    (b b' : InMemoryBus) → b'.heap ≡ b.heap → b.next_object ≤ b'.next_object → IsRefined b b'
made-IsRefined b b' e h = record {
  grows = h;
  follows = λ o r q _ there. record {
    now = q;
    there = ap (λ xs. get_elem? xs r) e ∙ there;
    course = stay;
  };
}

-- Objects are made, and a queue changes by `f` and is pumped.
module _ (f : BusQueue → BusQueue) (i : ℕ) (b : InMemoryBus)
    (c : (o : ℕ) (q : BusQueue)
      → o < b.next_object
      → get_elem? b.heap i ≡ some q
      → Course (place o q) (place o (f q))) where
  made_pump-IsRefined :
      (b1 : InMemoryBus)
      → b1.heap ≡ b.heap
      → b.next_object ≤ b1.next_object
      → IsRefined b (pump_after f i b1)
  unfolding pump_after
  made_pump-IsRefined b1 same le = elim (Option-cases (get_elem? b1.heap i)) [
    | inl missing ↦ rw (missing, pump_after) (made-IsRefined b b1 same le)
    | inr (p, there) ↦
        let there' : get_elem? b.heap i ≡ some p = ap (λ xs. get_elem? xs i) (sym same) ∙ there in
        rw (there, pump_after)
          (record {
            grows = le;
            follows = λ o r q h e. rw same (
                put-IsFollowed o r i q p (pump (f p)).0 b.heap there'
                  (Course-trans (c o p h there') (pump-Course o (f p))) e);
          })
  ]

  pump_after-IsRefined : IsRefined b (pump_after f i b)
  pump_after-IsRefined = made_pump-IsRefined b refl (omega arith)

pumped-IsRefined : (i : ℕ) (b : InMemoryBus) → IsRefined b (pump_after (λ q. q) i b)
pumped-IsRefined i b = pump_after-IsRefined (λ q. q) i b (λ o q h e. stay)

module _ (topic : Destination) (body : String) (o : PublishOptions) where
  publish_to-IsRefined :
      (k : String) (r : ℕ) (b : InMemoryBus) → IsRefined b (publish_to topic body k o r b)
  unfolding publish_to pump_after
  publish_to-IsRefined k r b = elim (Option-cases (get_elem? b.heap r)) [
    | inl missing ↦ rw (missing, publish_to) (IsRefined-refl b)
    | inr (q, there) ↦ elim (Bool-cases (matches q k)) [
      | inr other ↦ rw (there, other, publish_to) (IsRefined-refl b)
      | inl fits ↦
          let m = message b.next_object (mem_bus (b.seq + 1)) topic body k o in
          rw (there, fits, publish_to)
            (made_pump-IsRefined (enqueue m) r b
              (λ x p h _. enqueue-Course x m p (not_new x b.next_object m h))
              (record b { seq = b.seq + 1; next_object = b.next_object + 1 }) refl (omega arith))
    ]
  ]

  publish_all-IsRefined :
      (k : String) (rs : List ℕ) (b : InMemoryBus) → IsRefined b (publish_all topic body k o rs b)
  unfolding publish_all
  publish_all-IsRefined k [] b = IsRefined-refl b
  publish_all-IsRefined k (r ∷ rs) b =
      IsRefined-trans b (publish_to topic body k o r b) _ (publish_to-IsRefined k r b)
        (publish_all-IsRefined k rs (publish_to topic body k o r b))

  admit-frame :
      (d : Option String) (b b' : InMemoryBus)
      → admit d b ≡ some b'
      → (b'.heap ≡ b.heap) × (b'.next_object ≡ b.next_object)
  unfolding admit
  admit-frame none b b' e =
      let same : b ≡ b' = cc in (ap (λ x. x.heap) (sym same), ap (λ x. x.next_object) (sym same))
  admit-frame (some d) b b' e = elim (Bool-cases (contains b.seen_dedup_ids d)) [
    | inl seen ↦ absurd (ground arith)
    | inr fresh ↦
        let same : record b { seen_dedup_ids = b.seen_dedup_ids ++ d ∷ [] } ≡ b' = ground arith in
        (ap (λ x. x.heap) (sym same), ap (λ x. x.next_object) (sym same))
  ]

  publish-IsRefined : (k : Option String) (b : InMemoryBus) → IsRefined b (publish topic body k o b)
  unfolding publish log_publish
  publish-IsRefined k b = elim (Option-cases (admit o.dedup_id b)) [
    | inl repeated ↦ rw (repeated, publish) (IsRefined-refl b)
    | inr (b', admitted) ↦
        let (same, next) = admit-frame o.dedup_id b b' admitted in
        let logged = log_publish topic body (or_else k topic) o b' in
        rw (admitted, publish)
          (IsRefined-trans b logged _ (made-IsRefined b logged same (omega (arith, next)))
            (publish_all-IsRefined (or_else k topic) (topic_queues b' topic) logged))
  ]

bury-IsRefined : (q : BusQueue) (m : Option BusMessage) (b : InMemoryBus) → IsRefined b (bury q m b)
unfolding dead_letter
bury-IsRefined q none b = IsRefined-refl b
bury-IsRefined q (some m) b = elim (Bool-cases q.dead_letter) [
  | inl on ↦ rw on (publish-IsRefined _ m.body no_publish_options (some m.routing_key) b)
  | inr off ↦ rw off (IsRefined-refl b)
]

settle_delivery-IsRefined :
    (r : Resolution) (queue : ℕ) (m : IncomingMessage) (b : InMemoryBus)
    → IsRefined b (settle_delivery r queue m b)
unfolding settle_delivery
settle_delivery-IsRefined r queue m b = elim (Option-cases (get_elem? b.heap queue)) [
  | inl missing ↦ rw (missing, settle_delivery) (IsRefined-refl b)
  | inr (q, there) ↦ elim (Option-cases (settle m.object m.consumer r q)) [
    | inl stale ↦ rw (there, stale, settle_delivery) (IsRefined-refl b)
    | inr ((q', buried), settled) ↦
        let b1 : InMemoryBus = record b { heap = set b.heap queue q' } in
        let b2 = bury q buried b1 in
        rw (there, settled, settle_delivery)
          (IsRefined-trans b b2 _
            (IsRefined-trans b b1 b2
              (put-IsRefined queue q q' b there
                (λ o. settle-Course o m.object m.consumer r q q' buried settled))
              (bury-IsRefined q buried b1))
            (pumped-IsRefined queue b2))
  ]
]

guarded-IsRefined : (r : Resolution) (n : ℕ) (b : InMemoryBus) → IsRefined b (guarded r n b)
unfolding guarded
guarded-IsRefined r n b = elim (Option-cases (get_elem? b.deliveries n)) [
  | inl missing ↦ rw (missing, guarded) (IsRefined-refl b)
  | inr (d, there) ↦
      let b' = settle_delivery r d.queue d.incoming b in
      rw (there, guarded)
        (IsRefined-trans b b' _ (settle_delivery-IsRefined r d.queue d.incoming b) (
          made-IsRefined b'
            (record b' { deliveries = set b'.deliveries n (record d { settled = true }) }) refl
            (omega arith)))
]

throws-IsRefined : (n : ℕ) (b : InMemoryBus) → IsRefined b (handler_throws n b)
unfolding handler_throws
throws-IsRefined n b = elim (Option-cases (get_elem? b.deliveries n)) [
  | inl missing ↦ rw (missing, handler_throws) (IsRefined-refl b)
  | inr (d, there) ↦ elim (Bool-cases d.settled) [
    | inl done ↦ rw (there, done, handler_throws) (IsRefined-refl b)
    | inr open_yet ↦ rw (there, open_yet, handler_throws) (guarded-IsRefined requeue n b)
  ]
]

fire_retry-IsRefined :
    (queue object : ℕ) (b : InMemoryBus) → IsRefined b (fire_retry queue object b)
unfolding fire_retry
fire_retry-IsRefined queue object b = elim (Option-cases (get_elem? b.heap queue)) [
  | inl missing ↦ rw (missing, fire_retry) (IsRefined-refl b)
  | inr (q, there) ↦ elim (Option-cases (redeliver object q)) [
    | inl unarmed ↦ rw (there, unarmed, fire_retry) (IsRefined-refl b)
    | inr (q', fired) ↦
        let b1 : InMemoryBus = record b { heap = set b.heap queue q' } in
        rw (there, fired, fire_retry)
          (IsRefined-trans b b1 _
            (put-IsRefined queue q q' b there (λ o. redeliver-Course o object q q' fired))
            (pumped-IsRefined queue b1))
  ]
]

publish_expired-IsRefined :
    (q : BusQueue) (m : Option BusMessage) (b : InMemoryBus) → IsRefined b (publish_expired q m b)
publish_expired-IsRefined q none b = IsRefined-refl b
publish_expired-IsRefined q (some m) b =
    publish-IsRefined _ m.body no_publish_options (some m.routing_key) b

fire_ttl-IsRefined : (queue object : ℕ) (b : InMemoryBus) → IsRefined b (fire_ttl queue object b)
unfolding fire_ttl
fire_ttl-IsRefined queue object b = elim (Option-cases (get_elem? b.heap queue)) [
  | inl missing ↦ rw (missing, fire_ttl) (IsRefined-refl b)
  | inr (q, there) ↦
      let b1 : InMemoryBus = record b { heap = set b.heap queue (expire object q).0 } in
      rw (there, fire_ttl)
        (IsRefined-trans b b1 _
          (put-IsRefined queue q (expire object q).0 b there (λ o. expire-Course o object q))
          (publish_expired-IsRefined q (expire object q).1 b1))
]

unsubscribe-IsRefined :
    (queue h : ℕ) (b : InMemoryBus) → IsValid b → IsRefined b (unsubscribe queue h b)
unfolding unsubscribe
unsubscribe-IsRefined queue h b v =
    pump_after-IsRefined (detach h) queue b
      (λ o q _ e. detach-Course o h q (All-get (IsGood b.next_object) b.heap queue v e).unique)

create_queue-IsRefined :
    (topic : Destination) (k : String) (o : SubscribeOptions) (b : InMemoryBus)
    → IsRefined b (create_queue topic k o b)
unfolding create_queue
create_queue-IsRefined topic k o b =
    let log =
      if or_else o.stream_replay false then or_else (lookup b.stream_log topic) [] else [] in
    record {
      grows = (replay-IsFreshCopies (new_queue topic o) b.next_object log).grows;
      follows =
          λ x r q h e. record { now = q; there = get_elem?-append b.heap _ r q e; course = stay };
    }

subscriber-frame :
    (o : Option String) (b : InMemoryBus)
    → ((subscriber o b).1.heap ≡ b.heap) × ((subscriber o b).1.next_object ≡ b.next_object)
subscriber-frame none b = (refl, refl)
subscriber-frame (some id) b = (refl, refl)

subscribe-IsRefined :
    (topic : Destination) (h : AckHandler) (o : SubscribeOptions) (b : InMemoryBus)
    → IsRefined b (subscribe topic h o b).0
unfolding subscribe
subscribe-IsRefined topic h o b =
    let b' = (subscriber o.subscriber_id b).1 in
    let k = key topic (subscriber o.subscriber_id b).0 in
    let (same, next) = subscriber-frame o.subscriber_id b in
    let first = made-IsRefined b b' same (omega (arith, next)) in
    elim (Option-cases (lookup b'.queues k)) [
      | inl fresh ↦
          let b2 = create_queue topic k o b' in
          rw (fresh, subscribe)
            (IsRefined-trans b b2 _
              (IsRefined-trans b b' b2 first (create_queue-IsRefined topic k o b'))
              (pump_after-IsRefined (attach h) (length b'.heap) b2 (λ x q _ e. stay)))
      | inr (queue, there) ↦
          rw (there, subscribe)
            (IsRefined-trans b b' _ first
              (pump_after-IsRefined (attach h) queue b' (λ x q _ e. stay)))
    ]

step-IsRefined : (e : Event) (b : InMemoryBus) → IsValid b → IsRefined b (step e b)
unfolding step dispose
step-IsRefined (publishes topic body k o) b v = publish-IsRefined topic body o k b
step-IsRefined (subscribes topic h o) b v = subscribe-IsRefined topic h o b
step-IsRefined (unsubscribes queue h) b v = unsubscribe-IsRefined queue h b v
step-IsRefined (acks n) b v = guarded-IsRefined ack n b
step-IsRefined (nacks n again) b v = guarded-IsRefined _ n b
step-IsRefined (throws n) b v = throws-IsRefined n b
step-IsRefined (retry_timer queue object) b v = fire_retry-IsRefined queue object b
step-IsRefined (ttl_timer queue object) b v = fire_ttl-IsRefined queue object b
step-IsRefined disposes b v = made-IsRefined b _ refl (omega arith)

run-IsRefined : (es : List Event) (b : InMemoryBus) → IsValid b → IsRefined b (run es b)
unfolding run
run-IsRefined [] b v = IsRefined-refl b
run-IsRefined (e ∷ es) b v =
    IsRefined-trans b (step e b) _ (step-IsRefined e b v)
      (run-IsRefined es (step e b) (step-IsValid e b v))

run-append : (es fs : List Event) (b : InMemoryBus) → run (es ++ fs) b ≡ run fs (run es b)
unfolding run
run-append [] fs b = refl
run-append (e ∷ es) fs b = run-append es fs (step e b)

-- The bus refines the state machine of a message: between any two states of a history, an object that
-- was made by the first state has gone, in each queue that is there, through moves of the machine only
-- (waiting, out with a consumer, parked for a retry, and away for good).
pub run-refines : (es fs : List Event) → IsRefined (run es new_bus) (run (es ++ fs) new_bus)
run-refines es fs =
    subst (IsRefined (run es new_bus)) (sym (run-append es fs new_bus))
      (run-IsRefined fs (run es new_bus) (run-IsValid es new_bus tt))

-- A message object that a queue does not hold in one state of a history (it was acked, dead-lettered
-- or expired, or is another queue's) is not held by that queue in any later state: nothing that is
-- settled is delivered again.
pub settled-stays_away :
    (es fs : List Event) (o r : ℕ) (q : BusQueue)
    → o < (run es new_bus).next_object
    → get_elem? (run es new_bus).heap r ≡ some q
    → total (place o q) ≡ 0
    → (q' : BusQueue) × (get_elem? (run (es ++ fs) new_bus).heap r ≡ some q')
      × (total (place o q') ≡ 0)
settled-stays_away es fs o r q h e none_held =
    let f = (run-refines es fs).follows o r q h e in
    (f.now, f.there, omega (arith, Course-total (place o q) (place o f.now) f.course, none_held))
