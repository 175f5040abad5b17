-- ===== src/Sse/Stream.antt =====
-- typescript/src/sse/adapters/http-server.ts: `openSseSink` and `handleEvents`, with the waits of
-- `SseHub.connect`. `JSON.stringify` of the greeting and of a frame are parameters. What the broker holds of
-- the connection is the list of its subscriptions; an `unsubscribe` that fails is not modelled.
pub mod Reader
pub mod Sent
pub mod Teardown
use messaging_poc.Common.{
  ℕ, String, List, [], ◌∷◌, ◌++◌, Bool, true, false, if◌then◌else◌, text_of, decimal,
}
use messaging_poc.Sse.{Scope, user, org, ConnectionIdentity, SseFrame}

-- How far `handleEvents` is: it waits for the first or for the second subscription of `connect`, it has
-- assigned `teardown`, or a subscription threw.
pub data Stage : Type 0 where
  binding_user binding_org bound refused : Stage

pub record EventStream : Type 0 where
  pub written : String  -- by `res.write` and `res.end`
  pub ended : Bool  -- `res.end` was called
  pub heartbeat : Bool  -- the interval is set
  pub closed : Bool
  pub stage : Stage
  pub held : List Scope  -- the subscriptions that the broker has

-- What happens to a stream: the subscription that is waited for is made or throws, the hub sends, the
-- interval fires, and the request or the response emits 'close'.
pub data StreamEvent : Type 0 where
  binds closes : StreamEvent
  refuses : String → StreamEvent
  sends : SseFrame → StreamEvent
  beats : ℕ → StreamEvent

abbrev pub hello_text : String → String
hello_text greeting = text_of ("event: hello\ndata: " ∷ greeting ∷ "\n\n" ∷ [])

abbrev pub beat_text : ℕ → String
beat_text now = text_of (": keep-alive " ∷ decimal now ∷ "\n\n" ∷ [])

abbrev pub frame_text : String → String
frame_text frame = text_of ("data: " ∷ frame ∷ "\n\n" ∷ [])

-- `res.write`. After `res.end` nothing more is written.
abbrev pub write : String → EventStream → EventStream
write text s = record s { written = if s.ended then s.written else text_of (s.written ∷ text ∷ []) }

-- `teardown`, which does nothing until `connect` has returned.
abbrev pub run_teardown : EventStream → EventStream
run_teardown s = elim s.stage [ bound ↦ record s { held = [] } | _ ↦ s ]

unfoldable pub cleanup : EventStream → EventStream
cleanup s = if s.closed then s else run_teardown (record s { closed = true; heartbeat = false })

-- A subscription of `connect` is made.
unfoldable pub bind : EventStream → EventStream
bind s = elim s.stage [
  | binding_user ↦ record s { stage = binding_org; held = s.held ++ user ∷ [] }
  | binding_org ↦ record s { stage = bound; held = s.held ++ org ∷ [] }
  | _ ↦ s
]

-- It throws, and the `catch` of `handle` ends the response.
abbrev fail_stream : String → EventStream → EventStream
fail_stream message s = record (write (text_of ("error: " ∷ message ∷ [])) s) {
  ended = true;
  stage = refused;
}

unfoldable pub refuse : String → EventStream → EventStream
refuse message s = elim s.stage [
  | binding_user ↦ fail_stream message s
  | binding_org ↦ fail_stream message s
  | _ ↦ s
]

module _ (stringify_hello : String → ConnectionIdentity → String)
    (stringify : SseFrame → String) where
  -- `openSseSink`
  unfoldable pub open_stream : String → ConnectionIdentity → EventStream
  open_stream instance_id identity = record {
    written = hello_text (stringify_hello instance_id identity);
    ended = false;
    heartbeat = true;
    closed = false;
    stage = binding_user;
    held = [];
  }

  unfoldable pub stream_step : EventStream → StreamEvent → EventStream
  unfolding bind refuse cleanup
  stream_step s binds = bind s
  stream_step s closes = cleanup s
  stream_step s (refuses message) = refuse message s
  stream_step s (sends f) = write (frame_text (stringify f)) s
  stream_step s (beats now) = if s.heartbeat then write (beat_text now) s else s

  unfoldable pub run_stream : EventStream → List StreamEvent → EventStream
  unfolding stream_step
  run_stream s [] = s
  run_stream s (e ∷ es) = run_stream (stream_step s e) es

  -- `handleEvents` for an identity, up to some moment.
  unfoldable pub serve_stream : String → ConnectionIdentity → List StreamEvent → EventStream
  unfolding open_stream run_stream
  serve_stream instance_id identity es = run_stream (open_stream instance_id identity) es
