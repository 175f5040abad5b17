-- ===== src/Kafka/Published.antt =====
-- What a subscriber gets of a record that the adapter published.
use messaging_poc.Common.{
  ℕ, ◌+◌, String, List, [], ◌∷◌, map, contains, Option, none, some, ◌≡◌, refl, if◌then◌else◌, ◌==◌,
  string_eq, or_else, lookup, lookup-insert, Bool-cases, inl, inr, ◌∙◌, ap,
}
use messaging_poc.Abstractions.{Destination, Headers, PublishOptions, truthy}
use messaging_poc.Kafka.{
  KafkaRecord, KafkaCall, creates_topic, produces, commits, seeks, joins, KafkaTopics,
  KafkaIncoming, ensure_topic, kafka_publish, normalize_headers, kafka_incoming, publish_headers,
  set_header,
}

-- The records that the broker keeps of the calls, in the partition and from the offset that it gives.
unfoldable pub records_of : ℕ → ℕ → List KafkaCall → List KafkaRecord
records_of partition offset [] = []
records_of partition offset (produces topic value key headers ∷ cs) =
    record {
      topic = topic;
      partition = partition;
      offset = offset;
      key = key;
      value = some value;
      headers = map (λ h. (h.0, some h.1)) headers;
    }
    ∷ records_of partition (offset + 1) cs
records_of partition offset (creates_topic topic n ∷ cs) = records_of partition offset cs
records_of partition offset (commits topic p o ∷ cs) = records_of partition offset cs
records_of partition offset (seeks topic p o ∷ cs) = records_of partition offset cs
records_of partition offset (joins topic g ∷ cs) = records_of partition offset cs

-- Creating the topic keeps no record.
published-records :
    (topic : Destination) (payload : String) (o : PublishOptions) (topics : KafkaTopics)
    (partition offset : ℕ)
    → records_of partition offset (kafka_publish topic payload o topics).1
      ≡ records_of partition offset (produces topic payload o.group_id (publish_headers o) ∷ [])
unfolding kafka_publish ensure_topic records_of
published-records topic payload o topics partition offset =
    elim (Bool-cases (contains topics topic)) [
      | inl known ↦ rw (known, kafka_publish) refl
      | inr fresh ↦ rw (fresh, kafka_publish) refl
    ]

lookup-normalize_headers :
    (hs : Headers) (k : String)
    → lookup (normalize_headers (map (λ h. (h.0, some h.1)) hs)) k ≡ lookup hs k
unfolding normalize_headers
lookup-normalize_headers [] k = refl
lookup-normalize_headers ((j, v) ∷ hs) k = elim (Bool-cases (j == k)) [
  | inl h ↦ rw h
  | inr h ↦ rw h (lookup-normalize_headers hs k)
]

-- The option, or the header of the name that the caller sets.
abbrev pub option_or_header : Option String → Option String → Option String
option_or_header none header = header
option_or_header (some value) header = some value

lookup-set_header :
    (name k : String) (v : Option String) (hs : Headers)
    → lookup (set_header name v hs) k
      ≡ (if name == k then option_or_header v (lookup hs k) else lookup hs k)
lookup-set_header name k none hs = elim (Bool-cases (name == k)) [
  | inl h ↦ rw h refl
  | inr h ↦ rw h refl
]
lookup-set_header name k (some v) hs = lookup-insert hs name k v

-- A message as it was published with these options.
abbrev pub IsPublished : Destination → String → PublishOptions → KafkaIncoming → Type 0
IsPublished topic payload o m =
    (m.destination ≡ topic)
    × (m.body ≡ payload)
    × (m.group_id ≡ o.group_id)
    × (m.reply_to ≡ option_or_header (truthy o.reply_to) (lookup (or_else o.headers []) "replyTo"))
    × (m.correlation_id
        ≡ option_or_header (truthy o.correlation_id)
            (lookup (or_else o.headers []) "correlationId"))

-- A publish leaves exactly one record, in its topic, and a subscriber gets of it the text, the group and the
-- reply address and correlation id of the publish, those as the options give them or, where they do
-- not or give the empty text, as the caller's headers do.
pub kafka_incoming-IsPublished :
    (topic : Destination) (payload : String) (o : PublishOptions) (topics : KafkaTopics)
    (partition offset : ℕ)
    → (r : KafkaRecord) × (records_of partition offset (kafka_publish topic payload o topics).1
        ≡ r ∷ [])
      × (r.topic ≡ topic)
      × IsPublished topic payload o (kafka_incoming r.topic r)
unfolding kafka_incoming publish_headers records_of
kafka_incoming-IsPublished topic payload o topics partition offset =
    let user = or_else o.headers [] in
    let inner = set_header "correlationId" (truthy o.correlation_id) user in
    (
      _,
      published-records topic payload o topics partition offset,
      refl,
      (
        refl,
        refl,
        refl,
        lookup-normalize_headers (publish_headers o) "replyTo"
            ∙ lookup-set_header "replyTo" "replyTo" (truthy o.reply_to) inner
            ∙ ap (option_or_header (truthy o.reply_to))
                (lookup-set_header "correlationId" "replyTo" (truthy o.correlation_id) user),
        lookup-normalize_headers (publish_headers o) "correlationId"
            ∙ lookup-set_header "replyTo" "correlationId" (truthy o.reply_to) inner
            ∙ lookup-set_header "correlationId" "correlationId" (truthy o.correlation_id) user,
      ),
    )
