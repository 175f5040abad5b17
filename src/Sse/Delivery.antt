-- ===== src/Sse/Delivery.antt =====
-- The hub over the in-memory bus: which connections a published message does not reach.
use messaging_poc.Common.{
  ℕ, String, false, some, ◌≡◌, ◌≢◌, sym, ap, ◌∙◌, ◌==◌, ==_iff, string_eq, get_elem?, Bool-cases,
  inl, inr, ◌⊎◌,
}
use messaging_poc.Abstractions.{TopologyKind, no_publish_options}
use messaging_poc.TopicMatch.{topic_match}
use messaging_poc.TopicMatch.Words.{split_dots, IsDotFree}
use messaging_poc.BusQueue.{BusQueue, matches}
use messaging_poc.InMemoryBus.{InMemoryBus}
use messaging_poc.InMemoryBus.Unmatched.{IsUntouched, publish-IsUntouched}
use messaging_poc.Sse.{
  Scope, scope_name, PublishTarget, SseEnvelope, PublishIntent, routing_key_for, port_publish,
  hub_publish, sse_channel,
}
use messaging_poc.Sse.Isolation.{
  routing_key_for-isolated, routing_key_for-words, scope_name-IsDotFree,
}

-- No routing key is the empty text.
routing_key_for-not_empty :
    (s : Scope) (id : String)
    → IsDotFree id
    → (routing_key_for (record { scope = scope_name s; id = id }) == "") ≡ false
unfolding split_dots
routing_key_for-not_empty s id hi =
    elim (Bool-cases (routing_key_for (record { scope = scope_name s; id = id }) == "")) [
      | inr full ↦ full
      | inl empty ↦
          let words = routing_key_for-words (scope_name s) id (scope_name-IsDotFree s) hi in
          let e =
            (==_iff (routing_key_for (record { scope = scope_name s; id = id })) "").0 empty in
          let none_left = sym words ∙ ap split_dots e in absurd (cc)
    ]

-- The queue of a connection's subscription for a scope does not match the message.
queue-unmatched :
    (s : Scope) (id : String) (target : PublishTarget) (q : BusQueue)
    → q.kind ≡ TopologyKind.topic
    → q.routing_key ≡ some (routing_key_for (record { scope = scope_name s; id = id }))
    → IsDotFree id
    → topic_match
        (routing_key_for (record { scope = scope_name s; id = id }))
        (routing_key_for target)
      ≡ false
    → matches q (routing_key_for target) ≡ false
unfolding matches
queue-unmatched s id target q kind bound hi no_match =
    rw (kind, bound, routing_key_for-not_empty s id hi, matches) no_match

not_matched :
    (s : Scope) (id : String) (target : PublishTarget)
    → IsDotFree id
    → id ≢ "#"
    → id ≢ "*"
    → IsDotFree target.scope
    → IsDotFree target.id
    → (scope_name s ≢ target.scope) ⊎ (id ≢ target.id)
    → topic_match
        (routing_key_for (record { scope = scope_name s; id = id }))
        (routing_key_for target)
      ≡ false
not_matched s id target hi hash star ht hti differs =
    elim (Bool-cases (
      topic_match (routing_key_for (record { scope = scope_name s; id = id }))
        (routing_key_for target))) [
          | inr no_match ↦ no_match
          | inl matched ↦
              let (scopes, ids) =
                (routing_key_for-isolated s id target hi hash star ht hti).0 matched in
              elim differs [ inl other ↦ absurd (other scopes) | inr other ↦ absurd (other ids) ]
        ]

-- A message that the hub publishes to another id, or to the same id in another scope, leaves the queue of a
-- connection's subscription as it is, and the connection gets nothing, in whatever state the bus is, if no
-- type or id has a dot and the connection's id is not '*' or '#'.
pub hub_publish-IsUntouched :
    (stringify : SseEnvelope → String) (instance_id at : String) (intent : PublishIntent)
    (s : Scope) (id : String) (r : ℕ) (q : BusQueue) (b : InMemoryBus)
    → get_elem? b.heap r ≡ some q
    → q.kind ≡ TopologyKind.topic
    → q.routing_key ≡ some (routing_key_for (record { scope = scope_name s; id = id }))
    → IsDotFree id
    → id ≢ "#"
    → id ≢ "*"
    → IsDotFree intent.to.scope
    → IsDotFree intent.to.id
    → (scope_name s ≢ intent.to.scope) ⊎ (id ≢ intent.to.id)
    → IsUntouched r q b (hub_publish stringify instance_id at intent b).0
unfolding hub_publish port_publish
hub_publish-IsUntouched stringify instance_id at intent s id r q b there kind bound hi hash star ht
      hti differs =
    let k = routing_key_for intent.to in
    let no_match = not_matched s id intent.to hi hash star ht hti differs in
    publish-IsUntouched sse_channel _ (some k) no_publish_options r q b there
      (queue-unmatched s id intent.to q kind bound hi no_match)
