-- ===== src/Sse/Isolation.antt =====
-- Which connections a message reaches: the binding of a connection against the routing key of a publish.
use messaging_poc.Common.{
  String, [], ◌∷◌, true, false, ◌&&◌, ◌≡◌, ◌≢◌, refl, ap, ◌∙◌, ◌==◌, ==_iff, string_eq, ◌↔◌, arith,
  Bool-cases, inl, inr,
}
use messaging_poc.TopicMatch.{match, topic_match, one_word}
use messaging_poc.TopicMatch.Words.{split_dots, IsDotFree, split_dots-one_word, split_dots-append}
use messaging_poc.Sse.{Scope, user, org, scope_name, PublishTarget, routing_key_for}

-- The words of a routing key.
pub routing_key_for-words :
    (scope id : String)
    → IsDotFree scope
    → IsDotFree id
    → split_dots (routing_key_for (record { scope = scope; id = id })) ≡ scope ∷ id ∷ []
unfolding routing_key_for
routing_key_for-words scope id hs hi =
    split_dots-append scope id hs ∙ ap (λ ws. scope ∷ ws) (split_dots-one_word id hi)

pub scope_name-IsDotFree : (s : Scope) → IsDotFree (scope_name s)
scope_name-IsDotFree user = (refl, (refl, (refl, (refl, tt))))
scope_name-IsDotFree org = (refl, (refl, (refl, tt)))

-- Two words against two, where the first is no wildcard.
match_two :
    (s : Scope) (id scope' id' : String)
    → (id == "#") ≡ false
    → (id == "*") ≡ false
    → match (scope_name s ∷ id ∷ []) (scope' ∷ id' ∷ []) ≡ (scope_name s == scope' && id == id')
unfolding match one_word
match_two user id scope' id' hash star = elim (Bool-cases ("user" == scope')) [
  | inl a ↦ elim (Bool-cases (id == id')) [
    | inl b ↦ rw (a, hash, star, b) refl
    | inr b ↦ rw (a, hash, star, b) refl
  ]
  | inr a ↦ rw a refl
]
match_two org id scope' id' hash star = elim (Bool-cases ("org" == scope')) [
  | inl a ↦ elim (Bool-cases (id == id')) [
    | inl b ↦ rw (a, hash, star, b) refl
    | inr b ↦ rw (a, hash, star, b) refl
  ]
  | inr a ↦ rw a refl
]

-- A connection whose id has no dot and is not '*' or '#' gets, by its subscription for a scope, exactly
-- the messages to that scope and that id, among those to targets with no dot in their type or id.
pub routing_key_for-isolated :
    (s : Scope) (id : String) (target : PublishTarget)
    → IsDotFree id
    → id ≢ "#"
    → id ≢ "*"
    → IsDotFree target.scope
    → IsDotFree target.id
    → (topic_match
          (routing_key_for (record { scope = scope_name s; id = id }))
          (routing_key_for target)
        ≡ true)
      ↔ ((scope_name s ≡ target.scope) × (id ≡ target.id))
unfolding topic_match
routing_key_for-isolated s id target hi hash star ht hti =
    let no_hash : (id == "#") ≡ false = ground (arith, ==_iff id "#") in
    let no_star : (id == "*") ≡ false = ground (arith, ==_iff id "*") in
    rw
      (
        routing_key_for-words (scope_name s) id (scope_name-IsDotFree s) hi,
        routing_key_for-words target.scope target.id ht hti,
        match_two s id target.scope target.id no_hash no_star,
      )
      (ground (arith, ==_iff (scope_name s) target.scope, ==_iff id target.id))

-- A connection for the user '*' gets the messages to every user whose id has no dot.
pub routing_key_for-wildcard :
    (id : String)
    → IsDotFree id
    → topic_match
        (routing_key_for (record { scope = "user"; id = "*" }))
        (routing_key_for (record { scope = "user"; id = id }))
      ≡ true
unfolding topic_match match one_word
routing_key_for-wildcard id h =
    rw
      (
        routing_key_for-words "user" "*" (scope_name-IsDotFree user) (refl, tt),
        routing_key_for-words "user" id (scope_name-IsDotFree user) h,
      )
      refl
