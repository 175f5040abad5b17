-- ===== src/Kafka/Topics.antt =====
-- The topics that the Kafka adapter creates, and where a settlement leaves the consumer's offset.
use messaging_poc.Common.{
  ℕ, ◌+◌, ◌≤◌, String, List, [], ◌∷◌, ◌++◌, Bool, ◌&&◌, ℕ_eq, true, false, Option, none, some, ◌≡◌,
  refl, ap, if◌then◌else◌, ◌==◌, ==_iff, string_eq, contains, arith, subst, Bool-cases, inl, inr,
  contains-append, ◌∙◌,
}
use messaging_poc.Abstractions.{Destination, PublishOptions}
use messaging_poc.Kafka.{
  KafkaRecord, KafkaCall, creates_topic, produces, commits, seeks, joins, KafkaTopics, ensure_topic,
  kafka_publish, kafka_settle, kafka_deliver,
}
use messaging_poc.Settlement.{Settlement, acked, nacked, settle_all-effective, effective, calls_of}

-- A number of publishes with their texts and options.
unfoldable pub kafka_publishes :
    List (Destination × String × PublishOptions) → KafkaTopics → KafkaTopics × List KafkaCall
unfolding kafka_publish
kafka_publishes [] topics = (topics, [])
kafka_publishes ((topic, payload, o) ∷ ps) topics =
    let (topics', calls) = kafka_publish topic payload o topics in
    let (topics'', later) = kafka_publishes ps topics' in (topics'', calls ++ later)

-- How often the calls create a topic.
unfoldable pub creations : Destination → List KafkaCall → ℕ
creations t [] = 0
creations t (creates_topic topic n ∷ cs) = if topic == t then creations t cs + 1 else creations t cs
creations t (produces topic v k hs ∷ cs) = creations t cs
creations t (commits topic p o ∷ cs) = creations t cs
creations t (seeks topic p o ∷ cs) = creations t cs
creations t (joins topic g ∷ cs) = creations t cs

creations-append :
    (t : Destination) (cs ds : List KafkaCall)
    → creations t (cs ++ ds) ≡ creations t cs + creations t ds
unfolding creations
creations-append t [] ds = omega arith
creations-append t (creates_topic topic n ∷ cs) ds = elim (Bool-cases (topic == t)) [
  | inl h ↦ rw h (omega (arith, creations-append t cs ds))
  | inr h ↦ rw h (creations-append t cs ds)
]
creations-append t (produces topic v k hs ∷ cs) ds = creations-append t cs ds
creations-append t (commits topic p o ∷ cs) ds = creations-append t cs ds
creations-append t (seeks topic p o ∷ cs) ds = creations-append t cs ds
creations-append t (joins topic g ∷ cs) ds = creations-append t cs ds

-- How often a topic is created from here on, at most: once, unless it is known.
abbrev budget : Destination → KafkaTopics → ℕ
budget t topics = if contains topics t then 0 else 1

publish-creations :
    (t topic : Destination) (payload : String) (o : PublishOptions) (topics : KafkaTopics)
    → creations t (kafka_publish topic payload o topics).1
        + budget t (kafka_publish topic payload o topics).0
      ≤ budget t topics
unfolding kafka_publish ensure_topic creations
publish-creations t topic payload o topics = elim (Bool-cases (contains topics topic)) [
  | inl known ↦ rw (known, kafka_publish) (omega arith)
  | inr fresh ↦ elim (Bool-cases (topic == t)) [
    | inl same ↦
        let alike : topic ≡ t = (==_iff topic t).0 same in
        let e : contains topics t ≡ false = subst (λ x. contains topics x ≡ false) alike fresh in
        rw (fresh, kafka_publish) (ground (arith, contains-append topics (topic ∷ []) t, same, e))
    | inr apart ↦
        rw (fresh, kafka_publish) (ground (arith, contains-append topics (topic ∷ []) t, apart))
  ]
]

publishes-creations :
    (t : Destination) (ps : List (Destination × String × PublishOptions)) (topics : KafkaTopics)
    → creations t (kafka_publishes ps topics).1 ≤ budget t topics
unfolding kafka_publishes creations
publishes-creations t [] topics = omega arith
publishes-creations t ((topic, payload, o) ∷ ps) topics =
    let (topics', calls) = kafka_publish topic payload o topics in
    let later = publishes-creations t ps topics' in
    rw (creations-append t calls (kafka_publishes ps topics').1)
      (omega (arith, publish-creations t topic payload o topics, later))

-- However many messages are published to a topic, the adapter creates it once at most.
pub kafka_publishes-creates_once :
    (t : Destination) (ps : List (Destination × String × PublishOptions))
    → creations t (kafka_publishes ps []).1 ≤ 1
kafka_publishes-creates_once t ps = publishes-creations t ps []

-- What the calls on a consumer leave for a partition of a topic: the offset that its group has committed,
-- and the one that `seek` has set it to read next; `at` and `to` are those from before.
unfoldable pub committed : Destination → ℕ → List KafkaCall → ℕ → ℕ
committed t n [] at = at
committed t n (commits topic p o ∷ cs) at =
    committed t n cs (if topic == t && p == n then o else at)
committed t n (seeks topic p o ∷ cs) at = committed t n cs at
committed t n (creates_topic topic k ∷ cs) at = committed t n cs at
committed t n (produces topic v k hs ∷ cs) at = committed t n cs at
committed t n (joins topic g ∷ cs) at = committed t n cs at

unfoldable pub sought : Destination → ℕ → List KafkaCall → Option ℕ → Option ℕ
sought t n [] to = to
sought t n (seeks topic p o ∷ cs) to = sought t n cs (if topic == t && p == n then some o else to)
sought t n (commits topic p o ∷ cs) to = sought t n cs to
sought t n (creates_topic topic k ∷ cs) to = sought t n cs to
sought t n (produces topic v k hs ∷ cs) to = sought t n cs to
sought t n (joins topic g ∷ cs) to = sought t n cs to

abbrev pub next_committed : KafkaRecord → Option Settlement → ℕ → ℕ
next_committed p none at = at
next_committed p (some acked) at = p.offset + 1
next_committed p (some (nacked true)) at = at
next_committed p (some (nacked false)) at = p.offset + 1

abbrev pub next_sought : KafkaRecord → Option Settlement → Option ℕ → Option ℕ
next_sought p (some (nacked true)) to = some p.offset
next_sought p _ to = to

settled-committed :
    (t : Destination) (n : ℕ) (p : KafkaRecord) (s : Option Settlement) (at : ℕ)
    → committed t n (calls_of (kafka_settle p) s) at
      ≡ (if p.topic == t && p.partition == n then next_committed p s at else at)
unfolding kafka_settle committed
settled-committed t n p none at = ground arith
settled-committed t n p (some acked) at = refl
settled-committed t n p (some (nacked true)) at = ground arith
settled-committed t n p (some (nacked false)) at = refl

settled-sought :
    (t : Destination) (n : ℕ) (p : KafkaRecord) (s : Option Settlement) (to : Option ℕ)
    → sought t n (calls_of (kafka_settle p) s) to
      ≡ (if p.topic == t && p.partition == n then next_sought p s to else to)
unfolding kafka_settle sought
settled-sought t n p none to = ground arith
settled-sought t n p (some acked) to = ground arith
settled-sought t n p (some (nacked true)) to = refl
settled-sought t n p (some (nacked false)) to = ground arith

-- A delivery concerns the partition of its record and no other one. There, if the handler's first call is
-- an ack or a nack without requeue, the offset after the record is committed and the position of the
-- consumer stays; if it is a nack with requeue, or the handler throws without a call, the consumer goes
-- back to the record and nothing is committed; and if the handler does nothing, nothing changes. Later
-- calls on the message change nothing.
pub kafka_deliver-position :
    (p : KafkaRecord) (ss : List Settlement) (threw : Bool) (t : Destination) (n at : ℕ)
    (to : Option ℕ)
    → (committed t n (kafka_deliver p ss threw) at ≡ (
        if p.topic == t && p.partition == n then next_committed p (effective ss threw) at else at))
      × (sought t n (kafka_deliver p ss threw) to ≡ (
          if p.topic == t && p.partition == n then next_sought p (effective ss threw) to else to))
unfolding kafka_deliver
kafka_deliver-position p ss threw t n at to =
    let same = settle_all-effective (kafka_settle p) ss threw in
    (
      ap (λ cs. committed t n cs at) same ∙ settled-committed t n p (effective ss threw) at,
      ap (λ cs. sought t n cs to) same ∙ settled-sought t n p (effective ss threw) to,
    )
