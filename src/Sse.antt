-- ===== src/Sse.antt =====
-- typescript/src/sse: the contract, `SseHub`, `BusMessagePort` over the in-memory bus, and the routes of
-- the HTTP adapter. `JSON.stringify`, `JSON.parse` and the clock are parameters. The type of a publish
-- target is any text, since the request body is not checked against the declared type.
pub mod Isolation
pub mod Delivery
pub mod Http
pub mod Stream
pub mod Yaml
pub mod Docs
use Prim.Native.String
use messaging_poc.Common.{
  ℕ, ◌+◌, String, List, [], ◌∷◌, Bool, true, false, ◌||◌, Option, none, some, if◌then◌else◌, ◌==◌,
  string_eq, or_else, decimal,
}
use messaging_poc.Abstractions.{
  Destination, AckHandler, TopologyKind, SubscribeOptions, no_subscribe_options, no_publish_options,
  truthy,
}
use messaging_poc.InMemoryBus.{InMemoryBus, publish, subscribe, unsubscribe}

abbrev pub sse_channel : Destination
sse_channel = "mbc.sse"

pub data Scope : Type 0 where
  user org : Scope

abbrev pub scope_name : Scope → String
scope_name user = "user"
scope_name org = "org"

pub record PublishTarget : Type 0 where
  pub scope : String
  pub id : String

-- `${target.type}.${target.id}`
unfoldable pub routing_key_for : PublishTarget → String
routing_key_for target = String.◌++◌ target.scope (String.◌++◌ "." target.id)

pub record SseEnvelope : Type 0 where
  pub from : String
  pub text : String
  pub to : PublishTarget
  pub via : String
  pub at : String

pub record SseFrame : Type 0 where
  pub scope : Scope
  pub instance_id : String
  pub message : SseEnvelope

pub record ConnectionIdentity : Type 0 where
  pub user_id : String
  pub org_id : String

pub record PublishIntent : Type 0 where
  pub to : PublishTarget
  pub from : String
  pub text : String

-- `BusMessagePort.subscribe`: `now` is the time and `seq` the counter of the port.
unfoldable pub port_subscribe : String → ℕ → ℕ → String → AckHandler → InMemoryBus → InMemoryBus × ℕ
unfolding decimal
port_subscribe instance_id now seq routing_key handler b =
    let id = String.◌++◌ instance_id (
      String.◌++◌ "." (
        String.◌++◌ routing_key
          (String.◌++◌ "." (String.◌++◌ (decimal now) (String.◌++◌ "." (decimal seq)))))) in
    subscribe sse_channel handler
      (record no_subscribe_options {
        kind = some TopologyKind.topic;
        routing_key = some routing_key;
        subscriber_id = some id;
        transient = some true;
      })
      b

unfoldable pub port_publish : String → String → InMemoryBus → InMemoryBus
port_publish routing_key payload b =
    publish sse_channel payload (some routing_key) no_publish_options b

-- `hub.publish`: the envelope.
unfoldable pub envelope : String → String → PublishIntent → SseEnvelope
envelope instance_id at intent = record {
  from = or_else (truthy (some intent.from)) "anon";
  text = intent.text;
  to = intent.to;
  via = instance_id;
  at = at;
}

-- The bus after `hub.publish`, and the routing key that it returns.
unfoldable pub hub_publish :
    (SseEnvelope → String) → String → String → PublishIntent → InMemoryBus → InMemoryBus × String
unfolding routing_key_for port_publish envelope
hub_publish stringify instance_id at intent b =
    let routing_key = routing_key_for intent.to in
    (port_publish routing_key (stringify (envelope instance_id at intent)) b, routing_key)

-- `hub.connect`: the two subscriptions, by a handler of each scope, and the queues that the teardown
-- leaves.
unfoldable pub hub_connect :
    String
    → ℕ
    → ℕ
    → ConnectionIdentity
    → AckHandler
    → AckHandler
    → InMemoryBus
    → InMemoryBus × ℕ × ℕ
unfolding routing_key_for port_subscribe
hub_connect instance_id now seq identity user_handler org_handler b =
    let user_key = routing_key_for (record { scope = "user"; id = identity.user_id }) in
    let org_key = routing_key_for (record { scope = "org"; id = identity.org_id }) in
    let (b', user_queue) = port_subscribe instance_id now seq user_key user_handler b in
    let (b'', org_queue) = port_subscribe instance_id now (seq + 1) org_key org_handler b' in
    (b'', user_queue, org_queue)

unfoldable pub hub_teardown : ℕ → ℕ → AckHandler → AckHandler → InMemoryBus → InMemoryBus
hub_teardown user_queue org_queue user_handler org_handler b =
    unsubscribe org_queue org_handler (unsubscribe user_queue user_handler b)

-- `parse`: a body that is no JSON is the text of an anonymous envelope.
unfoldable pub parse_body : (String → Option SseEnvelope) → String → String → SseEnvelope
parse_body parse instance_id body = or_else (parse body) (record {
  from = "anon";
  text = body;
  to = record { scope = "user"; id = "" };
  via = instance_id;
  at = "";
})

-- The frame that the sink of a connection gets for a body.
unfoldable pub frame : (String → Option SseEnvelope) → String → Scope → String → SseFrame
unfolding parse_body
frame parse instance_id scope body = record {
  scope = scope;
  instance_id = instance_id;
  message = parse_body parse instance_id body;
}

-- What `handle` reads of a request. `query` gives the parameters of the URL.
pub record Request : Type 0 where
  pub verb : String
  pub path : String
  pub query : String → Option String
  pub body : String

-- `PublishBody`, as the JSON may leave its fields out.
pub record PublishBody : Type 0 where
  pub to_type : Option String
  pub to_id : Option String
  pub from : Option String
  pub text : Option String

pub data Response : Type 0 where
  no_content health page not_found bad_request : Response
  stream : ConnectionIdentity → Response
  accepted : PublishIntent → String → Response

-- `!userId || !orgId`
abbrev pub events_response : Option String → Option String → Response
events_response none o = bad_request
events_response (some u) none = bad_request
events_response (some u) (some o) = stream (record { user_id = u; org_id = o })

unfoldable pub handle_events : Request → Response
handle_events r = events_response (truthy (r.query "userId")) (truthy (r.query "orgId"))

abbrev pub publish_response : Option String → Option String → PublishBody → Response
unfolding routing_key_for
publish_response none id body = bad_request
publish_response (some t) none body = bad_request
publish_response (some t) (some id) body =
    let to : PublishTarget = record { scope = t; id = id } in
    accepted (record { to = to; from = or_else body.from "anon"; text = or_else body.text "" })
      (routing_key_for to)

abbrev pub parsed_response : Option PublishBody → Response
unfolding publish_response
parsed_response none = bad_request
parsed_response (some body) = publish_response (truthy body.to_type) (truthy body.to_id) body

unfoldable pub handle_publish : (String → Option PublishBody) → Request → Response
unfolding parsed_response
handle_publish parse r = parsed_response (parse r.body)

-- `handle`
unfoldable pub handle : (String → Option PublishBody) → Request → Response
unfolding handle_events handle_publish
handle parse r =
    if r.verb == "OPTIONS"
    then no_content
    else if r.verb == "GET"
    then (if r.path == "/healthz"
        then health
        else if r.path == "/"
        then page
        else if r.path == "/events"
        then handle_events r
        else not_found)
    else if r.verb == "POST"
    then (if r.path == "/publish" then handle_publish parse r else not_found)
    else not_found
