-- ===== src/InMemoryBus/Invariant/Publish.antt =====
-- `publish` and `subscribe` keep the invariant of the bus.
use messaging_poc.Common.{
  ℕ, ◌+◌, ◌≤◌, ◌<◌, String, List, [], ◌∷◌, ◌++◌, false, Option, none, some, ◌≡◌, refl, subst, inl,
  inr, arith, length, All-map, All-append, Bool-cases, Option-cases, or_else, lookup, if◌then◌else◌,
  ℕ_eq, string_eq, contains,
}
use messaging_poc.Abstractions.{Destination, AckHandler, PublishOptions, SubscribeOptions}
use messaging_poc.BusQueue.{BusMessage, BusQueue, matches}
use messaging_poc.Pump.{attach}
use messaging_poc.Pump.Custody.{occurs}
use messaging_poc.Pump.Steps.{attach-IsSound}
use messaging_poc.InMemoryBus.{
  InMemoryBus, pump_after, admit, log_publish, publish_to, publish_all, publish, new_queue, replay,
  create_queue, topic_queues, subscribe, subscriber, key,
}
use messaging_poc.InMemoryBus.Invariant.{
  IsValid, IsGood-of_holds, IsGood-le, pump_after-keeps, publish_to-IsValid,
}

publish_all-IsValid :
    (topic : Destination) (body k : String) (o : PublishOptions) (rs : List ℕ) (b : InMemoryBus)
    → IsValid b
    → IsValid (publish_all topic body k o rs b)
unfolding publish_all
publish_all-IsValid topic body k o [] b v = v
publish_all-IsValid topic body k o (r ∷ rs) b v =
    publish_all-IsValid topic body k o rs (publish_to topic body k o r b)
      (publish_to-IsValid topic body k o r b v)

admit-IsValid :
    (d : Option String) (b b' : InMemoryBus) → admit d b ≡ some b' → IsValid b → IsValid b'
unfolding admit
admit-IsValid none b b' e v = let same : b ≡ b' = cc in rw (← same) v
admit-IsValid (some d) b b' e v = elim (Bool-cases (contains b.seen_dedup_ids d)) [
  | inl seen ↦ absurd (ground arith)
  | inr fresh ↦
      let same : record b { seen_dedup_ids = b.seen_dedup_ids ++ d ∷ [] } ≡ b' = ground arith in
      subst IsValid same v
]

log_publish-IsValid :
    (topic : Destination) (body k : String) (o : PublishOptions) (b : InMemoryBus)
    → IsValid b
    → IsValid (log_publish topic body k o b)
unfolding log_publish
log_publish-IsValid topic body k o b v =
    All-map _ _ (λ q. IsGood-le b.next_object (b.next_object + 1) (omega arith) q) b.heap v

pub publish-IsValid :
    (topic : Destination) (body : String) (key : Option String) (o : PublishOptions)
    (b : InMemoryBus)
    → IsValid b
    → IsValid (publish topic body key o b)
unfolding publish
publish-IsValid topic body key o b v = elim (Option-cases (admit o.dedup_id b)) [
  | inl repeated ↦ rw (repeated, publish) v
  | inr (b', admitted) ↦
      rw (admitted, publish)
        (publish_all-IsValid topic body (or_else key topic) o (topic_queues b' topic) _ (
          log_publish-IsValid topic body (or_else key topic) o b'
            (admit-IsValid o.dedup_id b b' admitted v)))
]

-- The copies of a replay are new objects, each made once.
pub record IsFreshCopies (object : ℕ) (copies : List BusMessage) (next : ℕ) : Type 0 where
  pub grows : object ≤ next
  once : (o : ℕ) → occurs o copies ≤ 1
  not_before : (o : ℕ) → o < object → occurs o copies ≡ 0
  not_after : (o : ℕ) → next ≤ o → occurs o copies ≡ 0

pub replay-IsFreshCopies :
    (q : BusQueue) (object : ℕ) (log : List BusMessage)
    → IsFreshCopies object (replay q object log).0 (replay q object log).1
unfolding replay
replay-IsFreshCopies q object [] = record {
  grows = omega arith;
  once = λ o. omega arith;
  not_before = λ o h. refl;
  not_after = λ o h. refl;
}
replay-IsFreshCopies q object (m ∷ log) = elim (Bool-cases (matches q m.routing_key)) [
  | inr other ↦ rw other (replay-IsFreshCopies q object log)
  | inl fits ↦
      let c = replay-IsFreshCopies q (object + 1) log in
      rw fits (record {
        grows = omega (arith, c.grows);
        once = λ o. ground (arith, c.once o, c.not_before o);
        not_before = λ o h. ground (arith, c.not_before o);
        not_after = λ o h. ground (arith, c.not_after o, c.grows);
      })
]

create_queue-IsValid :
    (topic : Destination) (k : String) (o : SubscribeOptions) (b : InMemoryBus)
    → IsValid b
    → IsValid (create_queue topic k o b)
unfolding create_queue
create_queue-IsValid topic k o b v =
    let log : List BusMessage =
      if or_else o.stream_replay false then or_else (lookup b.stream_log topic) [] else [] in
    let c = replay-IsFreshCopies (new_queue topic o) b.next_object log in
    All-append _ b.heap _ (All-map _ _ (λ q. IsGood-le b.next_object _ c.grows q) b.heap v) (
      record {
        sound = record {
          one_each = tt;
          attached = tt;
          single = λ _ _. inl refl;
          owned = λ _. tt;
          delivered = tt;
        };
        unique = λ o. omega (arith, c.once o);
        fresh = λ o le. omega (arith, c.not_after o le);
      },
      tt,
    )

attached-IsValid :
    (h : AckHandler) (r : ℕ) (b : InMemoryBus) → IsValid b → IsValid (pump_after (attach h) r b)
attached-IsValid h r b v =
    pump_after-keeps (attach h) r b.next_object b
      (λ q g.
        IsGood-of_holds b.next_object q (attach h q) g (λ o. omega arith)
          (attach-IsSound h q g.sound))
      (omega arith) v

subscriber-IsValid : (o : Option String) (b : InMemoryBus) → IsValid b → IsValid (subscriber o b).1
subscriber-IsValid none b v = v
subscriber-IsValid (some id) b v = v

pub subscribe-IsValid :
    (topic : Destination) (h : AckHandler) (o : SubscribeOptions) (b : InMemoryBus)
    → IsValid b
    → IsValid (subscribe topic h o b).0
unfolding subscribe
subscribe-IsValid topic h o b v =
    let (id, b') = subscriber o.subscriber_id b in
    let v' = subscriber-IsValid o.subscriber_id b v in
    elim (Option-cases (lookup b'.queues (key topic id))) [
      | inr (r, there) ↦ rw (there, subscribe) (attached-IsValid h r b' v')
      | inl missing ↦
          rw (missing, subscribe)
            (attached-IsValid h (length b'.heap) _
              (create_queue-IsValid topic (key topic id) o b' v'))
    ]
