-- ===== src/Artemis/Published.antt =====
-- What a subscriber gets of a message that the Artemis adapter published.
use messaging_poc.Common.{
  ℕ, ◌+◌, String, [], ◌∷◌, Option, none, some, ◌≡◌, refl, if◌then◌else◌, ◌==◌, string_eq, or_else,
  lookup, lookup-insert, insert, Bool-cases, Option-cases, inl, inr, ◌∙◌, ap,
}
use messaging_poc.Abstractions.{Destination, Headers, PublishOptions, truthy}
use messaging_poc.Artemis.{
  AmqpMessage, artemis_message, application_properties, spread, set_property, or_also,
  artemis_incoming,
}

-- The message after it failed `n` times.
abbrev pub redelivered : AmqpMessage → ℕ → AmqpMessage
redelivered m n = record m { delivery_count = some n }

-- The header of the name that the caller sets, the last one if there are several.
abbrev pub last_of : Headers → String → Option String
last_of [] k = none
last_of ((j, v) ∷ hs) k = or_also (last_of hs k) (if j == k then some v else none)

lookup-spread :
    (props hs : Headers) (k : String)
    → lookup (spread props hs) k ≡ or_also (last_of hs k) (lookup props k)
lookup-spread props [] k = refl
lookup-spread props ((j, v) ∷ hs) k =
    lookup-spread (insert props j v) hs k
    ∙ ap (or_also (last_of hs k)) (lookup-insert props j k v)
    ∙ elim (Option-cases (last_of hs k)) [
      | inl e ↦ elim (Bool-cases (j == k)) [ inl h ↦ rw (e, h) refl | inr h ↦ rw (e, h) refl ]
      | inr (w, e) ↦ rw e refl
    ]

lookup-set_property :
    (name k : String) (v : Option String) (hs : Headers)
    → lookup (set_property name v hs) k
      ≡ (if name == k then or_also v (lookup hs k) else lookup hs k)
lookup-set_property name k none hs = elim (Bool-cases (name == k)) [
  | inl h ↦ rw h refl
  | inr h ↦ rw h refl
]
lookup-set_property name k (some v) hs = lookup-insert hs name k v

or_also-same : (a b : Option String) → or_also a (or_also a b) ≡ or_also a b
or_also-same none b = refl
or_also-same (some a) b = refl

or_also-none : (a : Option String) → or_also a none ≡ a
or_also-none none = refl
or_also-none (some a) = refl

abbrev user : PublishOptions → Headers
user o = or_else o.headers []

group_of :
    (topic : Destination) (k : Option String) (o : PublishOptions)
    → lookup (application_properties topic k o) "_AMQ_GROUP_ID"
      ≡ or_also (truthy o.group_id) (last_of (user o) "_AMQ_GROUP_ID")
unfolding application_properties
group_of topic k o =
    let start = spread (("routingKey", or_else k topic) ∷ []) (user o) in
    lookup-set_property "_AMQ_GROUP_ID" "_AMQ_GROUP_ID" (truthy o.group_id)
      (set_property "_AMQ_DUPL_ID" (truthy o.dedup_id) start)
    ∙ ap (or_also (truthy o.group_id)) (
        lookup-set_property "_AMQ_DUPL_ID" "_AMQ_GROUP_ID" (truthy o.dedup_id) start
        ∙ lookup-spread (("routingKey", or_else k topic) ∷ []) (user o) "_AMQ_GROUP_ID"
        ∙ or_also-none (last_of (user o) "_AMQ_GROUP_ID"))

routing_key_of :
    (topic : Destination) (k : Option String) (o : PublishOptions)
    → lookup (application_properties topic k o) "routingKey"
      ≡ or_also (last_of (user o) "routingKey") (some (or_else k topic))
unfolding application_properties
routing_key_of topic k o =
    let start = spread (("routingKey", or_else k topic) ∷ []) (user o) in
    lookup-set_property "_AMQ_GROUP_ID" "routingKey" (truthy o.group_id)
      (set_property "_AMQ_DUPL_ID" (truthy o.dedup_id) start)
    ∙ lookup-set_property "_AMQ_DUPL_ID" "routingKey" (truthy o.dedup_id) start
    ∙ lookup-spread (("routingKey", or_else k topic) ∷ []) (user o) "routingKey"

-- A subscriber gets the text of a publish and one more than the failures as its delivery count. The
-- group and the routing key are those of the publish, but a header of the caller named `routingKey`
-- takes the routing key's place, and one named `_AMQ_GROUP_ID` is the group where the options give none.
pub artemis_incoming-published :
    (topic : Destination) (payload : String) (k : Option String) (o : PublishOptions) (n : ℕ)
    → let m = artemis_incoming topic (redelivered (artemis_message topic payload k o) n) in
      (m.body ≡ payload)
      × (m.delivery_count ≡ n + 1)
      × (m.group_id ≡ or_also (truthy o.group_id) (last_of (or_else o.headers []) "_AMQ_GROUP_ID"))
      × (lookup m.headers "routingKey"
          ≡ or_also (last_of (or_else o.headers []) "routingKey") (some (or_else k topic)))
unfolding artemis_incoming artemis_message
artemis_incoming-published topic payload k o n = (
  refl,
  refl,
  ap (or_also (truthy o.group_id)) (group_of topic k o) ∙ or_also-same (truthy o.group_id) _,
  routing_key_of topic k o,
)
