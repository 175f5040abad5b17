-- ===== src/Sse/Stream/Sent.antt =====
-- What the client of an event stream reads of it.
use Prim.Native.String
use mathlib.Core.List
use text.Mathlib.TextLemmas.{append_assoc, append-nil}
use messaging_poc.Common.{
  String, List, [], ◌∷◌, ◌++◌, false, All, ◌≡◌, refl, sym, ap, ◌∙◌, subst, arith, Bool-cases, inl,
  inr,
}
use messaging_poc.Sse.{ConnectionIdentity, SseFrame}
use messaging_poc.Sse.Yaml.{IsOneLine}
use messaging_poc.Sse.Stream.{
  EventStream, StreamEvent, binds, closes, refuses, sends, beats, bind, cleanup, stream_step,
  run_stream, serve_stream, open_stream, frame_text, beat_text,
}
use messaging_poc.Sse.Stream.Reader.{
  ClientEvent, read_stream, read_stream-hello, read_stream-frame, read_stream-beat,
}

-- No subscription throws.
abbrev pub IsAccepted : StreamEvent → Type 0
IsAccepted (refuses message) = ⊥
IsAccepted _ = Unit

-- The frames that the hub sent, as the client's events.
abbrev pub sent : (SseFrame → String) → List StreamEvent → List ClientEvent
sent stringify [] = []
sent stringify (sends f ∷ es) =
    (record { type = "message"; body = stringify f }) ∷ sent stringify es
sent stringify (_ ∷ es) = sent stringify es

module _ (stringify_hello : String → ConnectionIdentity → String)
    (stringify : SseFrame → String) where
  sent-cons :
      (e : StreamEvent) (es : List StreamEvent)
      → sent stringify (e ∷ []) ++ sent stringify es ≡ sent stringify (e ∷ es)
  sent-cons binds es = refl
  sent-cons closes es = refl
  sent-cons (refuses m) es = refl
  sent-cons (sends f) es = refl
  sent-cons (beats now) es = refl

  -- A text is read as events, whatever follows it.
  IsRead : String → List ClientEvent → Type 0
  IsRead text seen =
      (more : String) → read_stream (String.◌++◌ text more) ≡ seen ++ read_stream more

  -- A part is written.
  IsRead-append :
      (text part : String) (seen new : List ClientEvent)
      → IsRead text seen
      → IsRead part new
      → IsRead (String.◌++◌ text part) (seen ++ new)
  unfolding IsRead
  IsRead-append text part seen new h k more =
      ap read_stream (append_assoc text part more)
      ∙ h (String.◌++◌ part more)
      ∙ ap (λ es. seen ++ es) (k more)
      ∙ sym (List.append_assoc seen new (read_stream more))

  bind-written : (s : EventStream) → ((bind s).written ≡ s.written) × ((bind s).ended ≡ s.ended)
  unfolding bind
  bind-written s = ground arith

  cleanup-written :
      (s : EventStream) → ((cleanup s).written ≡ s.written) × ((cleanup s).ended ≡ s.ended)
  unfolding cleanup
  cleanup-written s = ground arith

  step-ended :
      (s : EventStream) (e : StreamEvent)
      → s.ended ≡ false
      → IsAccepted e
      → (stream_step stringify_hello stringify s e).ended ≡ false
  unfolding stream_step bind cleanup
  step-ended s (refuses m) h ok = elim ok [ ]
  step-ended s binds h ok = ground arith
  step-ended s closes h ok = ground arith
  step-ended s (sends f) h ok = h
  step-ended s (beats now) h ok = ground arith

  module _ (one_line : (f : SseFrame) → IsOneLine (stringify f)) where
    step-IsRead :
        (s : EventStream) (e : StreamEvent) (seen : List ClientEvent)
        → s.ended ≡ false
        → IsAccepted e
        → IsRead s.written seen
        → IsRead
            (stream_step stringify_hello stringify s e).written
            (seen ++ sent stringify (e ∷ []))
    unfolding stream_step IsRead
    step-IsRead s (refuses m) seen h ok k = elim ok [ ]
    step-IsRead s binds seen h ok k = rw ((bind-written s).0, List.append-nil seen) k
    step-IsRead s closes seen h ok k = rw ((cleanup-written s).0, List.append-nil seen) k
    step-IsRead s (sends f) seen h ok k = rw h (
        IsRead-append s.written (frame_text (stringify f)) seen (sent stringify (sends f ∷ [])) k
          (λ more. read_stream-frame (stringify f) more (one_line f)))
    step-IsRead s (beats now) seen h ok k = elim (Bool-cases s.heartbeat) [
      | inl set ↦
          rw (set, h)
            (IsRead-append s.written (beat_text now) seen [] k (λ more. read_stream-beat now more))
      | inr cleared ↦ rw (cleared, List.append-nil seen) k
    ]

    run-IsRead :
        (es : List StreamEvent) (s : EventStream) (seen : List ClientEvent)
        → s.ended ≡ false
        → All IsAccepted es
        → IsRead s.written seen
        → IsRead (run_stream stringify_hello stringify s es).written (seen ++ sent stringify es)
    unfolding run_stream
    run-IsRead [] s seen h ok k = rw (List.append-nil seen) k
    run-IsRead (e ∷ es) s seen h ok k =
        let s' = stream_step stringify_hello stringify s e in
        let now = step-IsRead s e seen h ok.0 k in
        let later =
          run-IsRead es s' (seen ++ sent stringify (e ∷ [])) (step-ended s e h ok.0) ok.1 now in
        subst (IsRead (run_stream stringify_hello stringify s' es).written)
          (List.append_assoc seen (sent stringify (e ∷ [])) (sent stringify es)
            ∙ ap (λ l. seen ++ l) (sent-cons e es))
          later

    -- If no subscription throws and the JSON is of one line, what is written to a stream reads as the
    -- greeting and then every frame that was sent, each once and in order, whatever heartbeats are between them.
    pub serve_stream-sent :
        ((i : String) (c : ConnectionIdentity) → IsOneLine (stringify_hello i c))
        → (instance_id : String) (identity : ConnectionIdentity) (es : List StreamEvent)
        → All IsAccepted es
        → read_stream (serve_stream stringify_hello stringify instance_id identity es).written
          ≡ record { type = "hello"; body = stringify_hello instance_id identity }
            ∷ sent stringify es
    unfolding serve_stream open_stream IsRead read_stream
    serve_stream-sent greeting instance_id identity es ok =
        let s0 = open_stream stringify_hello stringify instance_id identity in
        let hello : ClientEvent = record {
          type = "hello";
          body = stringify_hello instance_id identity;
        } in
        let read = run-IsRead es s0 (hello ∷ []) refl ok (λ more.
          read_stream-hello (stringify_hello instance_id identity) more
            (greeting instance_id identity)) in
        ap read_stream (sym (append-nil (run_stream stringify_hello stringify s0 es).written))
        ∙ read ""
        ∙ List.append-nil (hello ∷ sent stringify es)
