-- ===== src/Sse/Http.antt =====
-- The answers of the HTTP adapter to a publish.
use messaging_poc.Common.{
  String, Option, none, some, ◌≡◌, refl, inl, inr, string_eq, or_else, Option-cases,
}
use messaging_poc.Abstractions.{truthy}
use messaging_poc.Sse.{
  PublishIntent, routing_key_for, PublishBody, Request, Response, accepted, bad_request, handle,
  handle_publish, parsed_response, publish_response,
}

-- The body names a type and an id that are not empty.
abbrev IsComplete : PublishBody → String → String → Type 0
IsComplete body t id = (truthy body.to_type ≡ some t) × (truthy body.to_id ≡ some id)

abbrev intent_of : PublishBody → String → String → PublishIntent
intent_of body t id = record {
  to = record { scope = t; id = id };
  from = or_else body.from "anon";
  text = or_else body.text "";
}

-- Why a publish is answered as it is.
data IsAnswered (parsed : Option PublishBody) : Response → Type 0 where
  no_json : parsed ≡ none → IsAnswered parsed bad_request
  no_type :
      (body : PublishBody)
      → parsed ≡ some body
      → truthy body.to_type ≡ none
      → IsAnswered parsed bad_request
  no_id :
      (body : PublishBody)
      → parsed ≡ some body
      → truthy body.to_id ≡ none
      → IsAnswered parsed bad_request
  complete :
      (body : PublishBody) (t id : String)
      → parsed ≡ some body
      → IsComplete body t id
      → IsAnswered parsed
          (accepted (intent_of body t id) (routing_key_for (record { scope = t; id = id })))

body-IsAnswered :
    (parsed : Option PublishBody) (body : PublishBody)
    → parsed ≡ some body
    → IsAnswered parsed (publish_response (truthy body.to_type) (truthy body.to_id) body)
unfolding publish_response
body-IsAnswered parsed body e = elim (Option-cases (truthy body.to_type)) [
  | inl missing ↦ rw missing (no_type body e missing)
  | inr (t, typed) ↦ elim (Option-cases (truthy body.to_id)) [
    | inl missing ↦ rw (typed, missing) (no_id body e missing)
    | inr (id, named) ↦ rw (typed, named) (complete body t id e (typed, named))
  ]
]

parsed-IsAnswered : (parsed : Option PublishBody) → IsAnswered parsed (parsed_response parsed)
unfolding parsed_response
parsed-IsAnswered none = no_json refl
parsed-IsAnswered (some body) = body-IsAnswered (some body) body refl

-- A POST to /publish is accepted, with the routing key of its target, if the body is JSON that names a
-- type and an id that are not empty, and is a bad request for one of the three reasons otherwise.
handle-IsAnswered :
    (parse : String → Option PublishBody) (r : Request)
    → r.verb ≡ "POST"
    → r.path ≡ "/publish"
    → IsAnswered (parse r.body) (handle parse r)
unfolding handle handle_publish
handle-IsAnswered parse r post path = rw (post, path) (parsed-IsAnswered (parse r.body))
