-- ===== src/Tests/Cluster.antt =====
-- The SSE hub over the in-memory bus at a concrete connection.
use messaging_poc.Common.{
  String, List, [], ◌∷◌, false, none, some, ◌≡◌, ◌≢◌, refl, inr, ==_iff, string_eq, arith,
}
use messaging_poc.Abstractions.{TopologyKind}
use messaging_poc.BusQueue.{BusQueue}
use messaging_poc.Pump.{pump}
use messaging_poc.InMemoryBus.{InMemoryBus, new_bus, subscribe}
use messaging_poc.InMemoryBus.Unmatched.{IsUntouched}
use messaging_poc.Sse.{
  Scope, user, org, scope_name, ConnectionIdentity, SseFrame, PublishIntent, routing_key_for,
  hub_connect, hub_publish, port_subscribe,
}
use messaging_poc.Sse.Stream.{
  StreamEvent, binds, closes, sends, beats, bind, stream_step, run_stream, serve_stream,
  open_stream,
}
use messaging_poc.Sse.Stream.Reader.{read_stream}
use messaging_poc.Sse.Stream.Teardown.{IsLeft, serve_stream-IsLeft}
use messaging_poc.Sse.Stream.Sent.{sent, serve_stream-sent}
use messaging_poc.Sse.Yaml.{IsOneLine}
use messaging_poc.Sse.Delivery.{hub_publish-IsUntouched}

abbrev connected : InMemoryBus
unfolding hub_connect
connected = (hub_connect "i1" 0 0 (record { user_id = "u1"; org_id = "o1" }) 1 2 new_bus).0

abbrev user_queue : BusQueue
user_queue = record {
  topic = "mbc.sse";
  kind = TopologyKind.topic;
  routing_key = some "user.u1";
  max_deliveries = 3;
  dead_letter = false;
  retry_delay_ms = none;
  partition_by_group = false;
  single_active_consumer = false;
  pending = [];
  inflight = [];
  consumers = 1 ∷ [];
  rr = 0;
  group_affinity = [];
  parked = [];
  expiring = [];
}

abbrev to_another : PublishIntent
to_another = record { to = record { scope = "user"; id = "u2" }; from = "me"; text = "hi" }

differ : (a b : String) → string_eq.test a b ≡ false → a ≢ b
differ a b h e = ground (arith, ==_iff a b, h, e)

hub_publish-IsUntouched_example :
    IsUntouched 0 user_queue connected (hub_publish (λ e. e.text) "i1" "now" to_another connected).0
unfolding connected hub_connect port_subscribe subscribe pump routing_key_for
hub_publish-IsUntouched_example =
    hub_publish-IsUntouched (λ e. e.text) "i1" "now" to_another user "u1" 0 user_queue connected
      refl refl refl (refl, (refl, tt)) (differ "u1" "#" refl) (differ "u1" "*" refl)
      (refl, (refl, (refl, (refl, tt)))) (refl, (refl, tt)) (inr (differ "u1" "u2" refl))

abbrev identity : ConnectionIdentity
identity = record { user_id = "u1"; org_id = "o1" }

abbrev greeting : String → ConnectionIdentity → String
greeting instance_id c = "{}"

abbrev scope_json : SseFrame → String
scope_json f = scope_name f.scope

-- The client leaves while the second subscription is waited for.
serve_stream-IsLeft_example :
    IsLeft
      (serve_stream greeting scope_json "i1" identity (binds ∷ [])).stage
      (serve_stream greeting scope_json "i1" identity (binds ∷ closes ∷ binds ∷ []))
unfolding serve_stream open_stream run_stream stream_step bind
serve_stream-IsLeft_example =
    serve_stream-IsLeft greeting scope_json "i1" identity (binds ∷ []) (binds ∷ []) refl

abbrev a_frame : SseFrame
a_frame = record {
  scope = user;
  instance_id = "i2";
  message = record {
    from = "me";
    text = "hi";
    to = record { scope = "user"; id = "u1" };
    via = "i2";
    at = "now";
  };
}

abbrev a_connection : List StreamEvent
a_connection = binds ∷ beats 15000 ∷ sends a_frame ∷ binds ∷ sends a_frame ∷ closes ∷ []

scope_name-IsOneLine : (s : Scope) → IsOneLine (scope_name s)
scope_name-IsOneLine user = (refl, (refl, (refl, (refl, tt))))
scope_name-IsOneLine org = (refl, (refl, (refl, tt)))

serve_stream-sent_example :
    read_stream (serve_stream greeting scope_json "i1" identity a_connection).written
    ≡ record { type = "hello"; body = "{}" } ∷ sent scope_json a_connection
serve_stream-sent_example =
    serve_stream-sent greeting scope_json (λ f. scope_name-IsOneLine f.scope)
      (λ i c. (refl, (refl, tt))) "i1" identity a_connection (tt, (tt, (tt, (tt, (tt, (tt, tt))))))
