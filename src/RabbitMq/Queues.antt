-- ===== src/RabbitMq/Queues.antt =====
-- The topology of the RabbitMQ adapter: a published message reaches every queue once, and where a
-- queue sends its dead letters.
use messaging_poc.Common.{
  String, List, [], ◌∷◌, ◌++◌, Bool, true, false, Option, none, some, ◌≡◌, refl, ap, if◌then◌else◌,
  ◌==◌, string_eq, or_else, contains, Bool-cases, inl, inr, ◌∙◌, ==_iff,
}
use messaging_poc.Abstractions.{Destination, PublishOptions, truthy}
use messaging_poc.RabbitMq.{
  Exchange, topic_exchange, fanout_exchange, hash_exchange, Queue, Properties, RabbitCall,
  asserts_exchange, asserts_queue, binds, sends, consumes, acks, nacks, Topologies,
  ensure_bus_exchanges, ensure_hash_exchange, publish_props, send_hashed, rabbit_publish,
}

-- The exchange is one of those that a subscription may be bound to.
abbrev same_exchange : Exchange → Exchange → Bool
same_exchange (topic_exchange a) (topic_exchange b) = a == b
same_exchange (fanout_exchange a) (fanout_exchange b) = a == b
same_exchange (hash_exchange a) (hash_exchange b) = a == b
same_exchange _ _ = false

-- The messages that the calls send to the exchange.
unfoldable pub sent_to : Exchange → List RabbitCall → List String
sent_to x [] = []
sent_to x (sends y key body props ∷ cs) =
    if same_exchange y x then body ∷ sent_to x cs else sent_to x cs
sent_to x (asserts_exchange y kind ∷ cs) = sent_to x cs
sent_to x (asserts_queue q transient args ∷ cs) = sent_to x cs
sent_to x (binds q y key ∷ cs) = sent_to x cs
sent_to x (consumes q ∷ cs) = sent_to x cs
sent_to x (acks ∷ cs) = sent_to x cs
sent_to x (nacks requeue ∷ cs) = sent_to x cs

sent_to-append :
    (x : Exchange) (cs ds : List RabbitCall) → sent_to x (cs ++ ds) ≡ sent_to x cs ++ sent_to x ds
unfolding sent_to
sent_to-append x [] ds = refl
sent_to-append x (sends y key body props ∷ cs) ds = elim (Bool-cases (same_exchange y x)) [
  | inl h ↦ rw h (ap (λ t. body ∷ t) (sent_to-append x cs ds))
  | inr h ↦ rw h (sent_to-append x cs ds)
]
sent_to-append x (asserts_exchange y kind ∷ cs) ds = sent_to-append x cs ds
sent_to-append x (asserts_queue q transient args ∷ cs) ds = sent_to-append x cs ds
sent_to-append x (binds q y key ∷ cs) ds = sent_to-append x cs ds
sent_to-append x (consumes q ∷ cs) ds = sent_to-append x cs ds
sent_to-append x (acks ∷ cs) ds = sent_to-append x cs ds
sent_to-append x (nacks requeue ∷ cs) ds = sent_to-append x cs ds

bus_exchanges-sent :
    (x : Exchange) (topic : Destination) (t : Topologies)
    → sent_to x (ensure_bus_exchanges topic t).1 ≡ []
unfolding ensure_bus_exchanges sent_to
bus_exchanges-sent x topic t = elim (Bool-cases (contains t.bus topic)) [
  | inl known ↦ rw (known, ensure_bus_exchanges) refl
  | inr fresh ↦ rw (fresh, ensure_bus_exchanges) refl
]

hash_exchange-sent :
    (x : Exchange) (topic : Destination) (t : Topologies)
    → sent_to x (ensure_hash_exchange topic t).1 ≡ []
unfolding ensure_hash_exchange sent_to
hash_exchange-sent x topic t = elim (Bool-cases (contains t.hash topic)) [
  | inl known ↦ rw (known, ensure_hash_exchange) refl
  | inr fresh ↦ rw (fresh, ensure_hash_exchange) refl
]

-- The copies for a queue that is bound to the consistent-hash exchange.
abbrev pub hashed_copies : Option String → String → List String
hashed_copies none payload = []
hashed_copies (some group) payload = payload ∷ []

hashed-sent :
    (x : Exchange) (topic : Destination) (payload : String) (props : Properties)
    (group : Option String) (t : Topologies)
    → sent_to x (send_hashed topic payload props group t).1
      ≡ (if same_exchange (hash_exchange topic) x then hashed_copies group payload else [])
unfolding send_hashed sent_to
hashed-sent x topic payload props none t =
    elim (Bool-cases (same_exchange (hash_exchange topic) x)) [
      | inl h ↦ rw h refl
      | inr h ↦ rw h refl
    ]
hashed-sent x topic payload props (some group) t =
    sent_to-append x (ensure_hash_exchange topic t).1 _ ∙ rw (hash_exchange-sent x topic t) refl

same_topic : (topic : Destination) → (topic == topic) ≡ true
same_topic topic = (==_iff topic topic).1 refl

publish-sent :
    (x : Exchange) (topic : Destination) (payload : String) (k : Option String) (o : PublishOptions)
    (t : Topologies)
    → sent_to x (rabbit_publish topic payload k o t).1
      ≡ (if same_exchange (topic_exchange topic) x then payload ∷ [] else [])
        ++ (if same_exchange (fanout_exchange topic) x then payload ∷ [] else [])
        ++ (if same_exchange (hash_exchange topic) x
            then hashed_copies (truthy o.group_id) payload
            else [])
unfolding rabbit_publish sent_to
publish-sent x topic payload k o t =
    let t' = (ensure_bus_exchanges topic t).0 in
    let hashed = hashed-sent x topic payload (publish_props o) (truthy o.group_id) t' in
    let props = publish_props o in
    let sends_both =
      sends (topic_exchange topic) (or_else k topic) payload props
      ∷ sends (fanout_exchange topic) "" payload props
      ∷ [] in
    sent_to-append x (ensure_bus_exchanges topic t).1
      (sends_both ++ (send_hashed topic payload props (truthy o.group_id) t').1)
    ∙ rw (bus_exchanges-sent x topic t)
        (elim (Bool-cases (same_exchange (topic_exchange topic) x)) [
          | inl a ↦ elim (Bool-cases (same_exchange (fanout_exchange topic) x)) [
            | inl b ↦ rw (a, b) (ap (λ r. payload ∷ payload ∷ r) hashed)
            | inr b ↦ rw (a, b) (ap (λ r. payload ∷ r) hashed)
          ]
          | inr a ↦ elim (Bool-cases (same_exchange (fanout_exchange topic) x)) [
            | inl b ↦ rw (a, b) (ap (λ r. payload ∷ r) hashed)
            | inr b ↦ rw (a, b) hashed
          ]
        ])

-- A publish sends one copy of its text to the topic exchange and one to the fanout exchange of its
-- topic, and one to the consistent-hash exchange exactly if it has a group that is not the empty text.
pub rabbit_publish-one_copy :
    (topic : Destination) (payload : String) (k : Option String) (o : PublishOptions)
    (t : Topologies)
    → let calls = (rabbit_publish topic payload k o t).1 in
      (sent_to (topic_exchange topic) calls ≡ payload ∷ [])
      × (sent_to (fanout_exchange topic) calls ≡ payload ∷ [])
      × (sent_to (hash_exchange topic) calls ≡ hashed_copies (truthy o.group_id) payload)
unfolding rabbit_publish
rabbit_publish-one_copy topic payload k o t = (
  publish-sent (topic_exchange topic) topic payload k o t ∙ rw (same_topic topic) refl,
  publish-sent (fanout_exchange topic) topic payload k o t ∙ rw (same_topic topic) refl,
  publish-sent (hash_exchange topic) topic payload k o t ∙ rw (same_topic topic) refl,
)

-- The bindings that the calls make.
unfoldable pub bindings : List RabbitCall → List (Queue × Exchange × String)
bindings [] = []
bindings (sends y key body props ∷ cs) = bindings cs
bindings (asserts_exchange y kind ∷ cs) = bindings cs
bindings (asserts_queue q transient args ∷ cs) = bindings cs
bindings (binds q y key ∷ cs) = (q, y, key) ∷ bindings cs
bindings (consumes q ∷ cs) = bindings cs
bindings (acks ∷ cs) = bindings cs
bindings (nacks requeue ∷ cs) = bindings cs

bindings-append : (cs ds : List RabbitCall) → bindings (cs ++ ds) ≡ bindings cs ++ bindings ds
unfolding bindings
bindings-append [] ds = refl
bindings-append (sends y key body props ∷ cs) ds = bindings-append cs ds
bindings-append (asserts_exchange y kind ∷ cs) ds = bindings-append cs ds
bindings-append (asserts_queue q transient args ∷ cs) ds = bindings-append cs ds
bindings-append (binds q y key ∷ cs) ds = ap (λ t. (q, y, key) ∷ t) (bindings-append cs ds)
bindings-append (consumes q ∷ cs) ds = bindings-append cs ds
bindings-append (acks ∷ cs) ds = bindings-append cs ds
bindings-append (nacks requeue ∷ cs) ds = bindings-append cs ds
