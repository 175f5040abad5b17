-- ===== src/RabbitMq/DeadLetters.antt =====
-- Where a durable queue of the RabbitMQ adapter sends its dead letters.
use mathlib.Core.List.{append-nil}
use messaging_poc.Common.{
  String, List, [], ◌∷◌, ◌++◌, false, Bool, arith, Option, none, some, ◌≡◌, refl, ap, ◌∙◌,
  if◌then◌else◌, or_else, contains, string_eq, ℤ, Bool-cases, inl, inr,
}
use messaging_poc.Abstractions.{Destination, SubscribeOptions, dead_letter_address, expiry_address}
use messaging_poc.RabbitMq.{
  Exchange, default, fanout_exchange, Queue, queue_of, retry_queue, QueueArguments, no_arguments,
  RabbitCall, asserts_exchange, asserts_queue, binds, sends, consumes, acks, nacks, Topologies,
  is_retry_enabled, ensure_bus_exchanges, ensure_hash_exchange, dead_letter_arguments,
  dispatch_arguments, expiry_arguments, bind_queue, subscribe_durable, rabbit_subscribe,
}

-- The queues that the calls declare, with the transient flag and the arguments.
unfoldable pub declared_queues : List RabbitCall → List (Queue × Bool × QueueArguments)
declared_queues [] = []
declared_queues (asserts_queue q transient args ∷ cs) = (q, transient, args) ∷ declared_queues cs
declared_queues (asserts_exchange x kind ∷ cs) = declared_queues cs
declared_queues (binds q x key ∷ cs) = declared_queues cs
declared_queues (sends x key body o ∷ cs) = declared_queues cs
declared_queues (consumes q ∷ cs) = declared_queues cs
declared_queues (acks ∷ cs) = declared_queues cs
declared_queues (nacks again ∷ cs) = declared_queues cs

declared_queues-append :
    (cs ds : List RabbitCall)
    → declared_queues (cs ++ ds) ≡ declared_queues cs ++ declared_queues ds
unfolding declared_queues
declared_queues-append [] ds = refl
declared_queues-append (asserts_queue q transient args ∷ cs) ds =
    ap (λ r. (q, transient, args) ∷ r) (declared_queues-append cs ds)
declared_queues-append (asserts_exchange x kind ∷ cs) ds = declared_queues-append cs ds
declared_queues-append (binds q x key ∷ cs) ds = declared_queues-append cs ds
declared_queues-append (sends x key body o ∷ cs) ds = declared_queues-append cs ds
declared_queues-append (consumes q ∷ cs) ds = declared_queues-append cs ds
declared_queues-append (acks ∷ cs) ds = declared_queues-append cs ds
declared_queues-append (nacks again ∷ cs) ds = declared_queues-append cs ds

after_nothing :
    (cs ds : List RabbitCall)
    → declared_queues cs ≡ []
    → declared_queues (cs ++ ds) ≡ declared_queues ds
after_nothing cs ds e = declared_queues-append cs ds ∙ ap (λ r. r ++ declared_queues ds) e

before_nothing :
    (cs ds : List RabbitCall)
    → declared_queues ds ≡ []
    → declared_queues (cs ++ ds) ≡ declared_queues cs
before_nothing cs ds e =
    declared_queues-append cs ds
    ∙ ap (λ r. declared_queues cs ++ r) e
    ∙ append-nil (declared_queues cs)

bus_exchanges-no_queues :
    (topic : Destination) (t : Topologies) → declared_queues (ensure_bus_exchanges topic t).1 ≡ []
unfolding ensure_bus_exchanges declared_queues
bus_exchanges-no_queues topic t = elim (Bool-cases (contains t.bus topic)) [
  | inl known ↦ rw (known, ensure_bus_exchanges) refl
  | inr fresh ↦ rw (fresh, ensure_bus_exchanges) refl
]

hash_exchange-no_queues :
    (topic : Destination) (t : Topologies) → declared_queues (ensure_hash_exchange topic t).1 ≡ []
unfolding ensure_hash_exchange declared_queues
hash_exchange-no_queues topic t = elim (Bool-cases (contains t.hash topic)) [
  | inl known ↦ rw (known, ensure_hash_exchange) refl
  | inr fresh ↦ rw (fresh, ensure_hash_exchange) refl
]

bind_queue-no_queues :
    (topic : Destination) (queue : Queue) (o : SubscribeOptions) (t : Topologies)
    → declared_queues (bind_queue topic queue o t).1 ≡ []
unfolding bind_queue declared_queues
bind_queue-no_queues topic queue o t = elim (Bool-cases (or_else o.partition_by_group false)) [
  | inl part ↦
      rw (part, bind_queue)
        (declared_queues-append (ensure_hash_exchange topic t).1 _
          ∙ ap (λ r. r ++ []) (hash_exchange-no_queues topic t))
  | inr whole ↦ rw (whole, bind_queue) (ground arith)
]

-- The dead-letter exchange without a TTL: the default exchange, which leads to the queue of the routing
-- key, or the fanout exchange of the dead-letter address.
abbrev pub failure_exchange : Destination → SubscribeOptions → Option Exchange
failure_exchange topic o =
    if is_retry_enabled o
    then some default
    else if or_else o.dead_letter false
    then some (fanout_exchange (dead_letter_address topic))
    else none

-- The fanout exchange of the expiry address takes the place of the other one.
abbrev pub expected_exchange : Option ℤ → Destination → Option Exchange → Option Exchange
expected_exchange none topic failure = failure
expected_exchange (some ttl) topic failure = some (fanout_exchange (expiry_address topic))

abbrev pub expected_key : Queue → SubscribeOptions → Option Queue
expected_key queue o = if is_retry_enabled o then some (retry_queue queue) else none

-- The retry queue holds a message for the delay and sends it back to the main queue.
abbrev pub retry_queues : Queue → SubscribeOptions → List (Queue × Bool × QueueArguments)
retry_queues queue o =
    if is_retry_enabled o
    then (
      retry_queue queue,
      false,
      record no_arguments {
        message_ttl = o.retry_delay_ms;
        dead_letter_exchange = some default;
        dead_letter_routing_key = some queue;
      },
    )
      ∷ []
    else []

-- What the preparation of the dead letters declares, and the arguments it leaves.
failure_arguments :
    (topic : Destination) (queue : Queue) (o : SubscribeOptions) (t : Topologies)
    → ((dead_letter_arguments topic queue o t).0.dead_letter_exchange ≡ failure_exchange topic o)
      × ((dead_letter_arguments topic queue o t).0.dead_letter_routing_key ≡ expected_key queue o)
      × (declared_queues (dead_letter_arguments topic queue o t).2 ≡ retry_queues queue o)
unfolding dead_letter_arguments declared_queues
failure_arguments topic queue o t =
    let none_first = bus_exchanges-no_queues (dead_letter_address topic) t in
    elim (Bool-cases (is_retry_enabled o)) [
      | inl on ↦
          rw (on, dead_letter_arguments)
            (
              refl,
              refl,
              after_nothing (ensure_bus_exchanges (dead_letter_address topic) t).1 _ none_first,
            )
      | inr off ↦ elim (Bool-cases (or_else o.dead_letter false)) [
        | inl dead ↦ rw (off, dead, dead_letter_arguments) (refl, refl, none_first)
        | inr alive ↦ rw (off, alive, dead_letter_arguments) (refl, refl, refl)
      ]
    ]

expiry_lem :
    (topic : Destination) (ttl : Option ℤ) (args : QueueArguments) (t : Topologies)
    → ((expiry_arguments topic ttl args t).0.dead_letter_exchange
        ≡ expected_exchange ttl topic args.dead_letter_exchange)
      × ((expiry_arguments topic ttl args t).0.dead_letter_routing_key
          ≡ args.dead_letter_routing_key)
      × (declared_queues (expiry_arguments topic ttl args t).2 ≡ [])
unfolding expiry_arguments declared_queues
expiry_lem topic none args t = (refl, refl, refl)
expiry_lem topic (some ttl) args t = (refl, refl, bus_exchanges-no_queues (expiry_address topic) t)

-- What `subscribe` declares after the preparation: the main queue.
durable-declares :
    (topic : Destination) (queue : Queue) (o : SubscribeOptions) (args : QueueArguments)
    (t : Topologies)
    → declared_queues (subscribe_durable topic queue o args t).1
      ≡ (queue, false, (expiry_arguments topic o.ttl_ms args t).0) ∷ []
unfolding subscribe_durable declared_queues
durable-declares topic queue o args t =
    let (args', t', expiring) = expiry_arguments topic o.ttl_ms args t in
    let bound = (bind_queue topic queue o t').1 in
    let main = asserts_queue queue false args' ∷ [] in
    before_nothing (expiring ++ main ++ bound) (consumes queue ∷ []) refl
    ∙ before_nothing (expiring ++ main) bound (bind_queue-no_queues topic queue o t')
    ∙ after_nothing expiring main (expiry_lem topic o.ttl_ms args t).2

-- A durable subscription declares its queue and, if retries are enabled, the retry queue before it, which
-- sends a message back to the queue when the delay is over. With a TTL, the dead letters of the queue go to
-- the expiry address, those of messages that failed too, though dead letters or the retry queue are asked
-- for. Without a TTL, they go to the retry queue by the default exchange and its name, if retries are
-- enabled, else to the dead-letter address if dead letters are asked for, and else nowhere. The routing key
-- of the dead letters is the retry queue's name exactly if retries are enabled, with a TTL too.
pub rabbit_subscribe-dead_letters :
    (topic : Destination) (o : SubscribeOptions) (id suffix : String) (t : Topologies)
    → or_else o.stream_replay false ≡ false
    → or_else o.transient false ≡ false
    → let queue =
        queue_of topic (or_else o.subscriber_id id) (or_else o.partition_by_group false) suffix in
      (args : QueueArguments) × (declared_queues (rabbit_subscribe topic o id suffix t).1
        ≡ retry_queues queue o ++ (queue, false, args) ∷ [])
      × (args.dead_letter_exchange ≡ expected_exchange o.ttl_ms topic (failure_exchange topic o))
      × (args.dead_letter_routing_key ≡ expected_key queue o)
unfolding rabbit_subscribe
rabbit_subscribe-dead_letters topic o id suffix t no_stream durable =
    let (t0, declared) = ensure_bus_exchanges topic t in
    let queue =
      queue_of topic (or_else o.subscriber_id id) (or_else o.partition_by_group false) suffix in
    let (args, t1, prepared) = dead_letter_arguments topic queue o t0 in
    let (exchange, routing_key, retries) = failure_arguments topic queue o t0 in
    let args' = dispatch_arguments o args in
    let calls = (subscribe_durable topic queue o args' t1).1 in
    let (exchange', routing_key', nothing) = expiry_lem topic o.ttl_ms args' t1 in
    (
      (expiry_arguments topic o.ttl_ms args' t1).0,
      rw (no_stream, durable)
          (declared_queues-append (declared ++ prepared) calls
            ∙ ap (λ r. r ++ declared_queues calls)
                (after_nothing declared prepared (bus_exchanges-no_queues topic t) ∙ retries)
            ∙ ap (λ r. retry_queues queue o ++ r) (durable-declares topic queue o args' t1)),
      exchange' ∙ ap (expected_exchange o.ttl_ms topic) exchange,
      routing_key' ∙ routing_key,
    )
