-- ===== src/Sse/Stream/Teardown.antt =====
-- Whether the subscriptions of a connection are ended when its client leaves.
use messaging_poc.Common.{
  String, List, [], ◌∷◌, ◌++◌, true, false, ◌≡◌, ◌≢◌, refl, sym, subst, ◌⊎◌, inl, inr, arith,
}
use messaging_poc.Sse.{Scope, user, org, ConnectionIdentity, SseFrame}
use messaging_poc.Sse.Stream.{
  Stage, binding_user, binding_org, bound, refused, EventStream, StreamEvent, closes, bind, refuse,
  cleanup, stream_step, run_stream, serve_stream, open_stream,
}

-- What was subscribed before `connect` returned or threw.
abbrev IsHeld : Stage → List Scope → Type 0
IsHeld binding_user held = held ≡ []
IsHeld binding_org held = held ≡ user ∷ []
IsHeld bound held = held ≡ user ∷ org ∷ []
IsHeld refused held = (held ≡ []) ⊎ (held ≡ user ∷ [])

-- What is left of a connection after its client left.
abbrev pub IsLeft : Stage → EventStream → Type 0
IsLeft stage s =
    (s.heartbeat ≡ false)
    × (stage ≡ bound → s.held ≡ [])
    × (stage ≢ bound → s.stage ≡ bound → s.held ≡ user ∷ org ∷ [])

module _ (stringify_hello : String → ConnectionIdentity → String)
    (stringify : SseFrame → String) where
  abbrev step : EventStream → StreamEvent → EventStream
  step = stream_step stringify_hello stringify

  abbrev run : EventStream → List StreamEvent → EventStream
  run = run_stream stringify_hello stringify

  -- A stream whose client has not left has what it subscribed.
  abbrev IsOpen : EventStream → Type 0
  IsOpen s = s.closed ≡ false → IsHeld s.stage s.held

  -- A stream whose client left before `connect` returned keeps what it subscribes.
  abbrev IsOrphaned : EventStream → Type 0
  IsOrphaned s = (s.closed ≡ true) × (s.heartbeat ≡ false) × IsHeld s.stage s.held

  -- One whose client left later has nothing.
  abbrev IsEnded : EventStream → Type 0
  IsEnded s = (s.closed ≡ true) × (s.heartbeat ≡ false) × (s.stage ≡ bound) × (s.held ≡ [])

  step-IsOpen : (s : EventStream) (e : StreamEvent) → IsOpen s → IsOpen (step s e)
  unfolding stream_step bind refuse cleanup
  step-IsOpen s e h = ground arith

  step-IsOrphaned : (s : EventStream) (e : StreamEvent) → IsOrphaned s → IsOrphaned (step s e)
  unfolding stream_step bind refuse cleanup
  step-IsOrphaned s e h = ground arith

  step-IsEnded : (s : EventStream) (e : StreamEvent) → IsEnded s → IsEnded (step s e)
  unfolding stream_step bind refuse cleanup
  step-IsEnded s e h = ground arith

  run-keeps :
      (P : EventStream → Type 0)
      → ((s : EventStream) (e : StreamEvent) → P s → P (step s e))
      → (es : List StreamEvent) (s : EventStream) → P s
      → P (run s es)
  unfolding run_stream
  run-keeps P keeps [] s h = h
  run-keeps P keeps (e ∷ es) s h = run-keeps P keeps es (step s e) (keeps s e h)

  run-append : (es fs : List StreamEvent) (s : EventStream) → run s (es ++ fs) ≡ run (run s es) fs
  unfolding run_stream
  run-append [] fs s = refl
  run-append (e ∷ es) fs s = run-append es fs (step s e)

  -- What the client's leaving does to an open stream.
  closes-cases :
      (s : EventStream)
      → s.closed ≡ false
      → IsHeld s.stage s.held
      → ((s.stage ≡ bound) × IsEnded (step s closes))
        ⊎ ((s.stage ≢ bound) × IsOrphaned (step s closes))
  unfolding stream_step cleanup
  closes-cases s h held = ground arith

  -- When the client of a connection leaves after `connect` has returned, no subscription is left, and when
  -- it leaves before, and `connect` returns later, both subscriptions stay, whatever else happens. The
  -- heartbeat is stopped in both cases.
  pub serve_stream-IsLeft :
      (instance_id : String) (identity : ConnectionIdentity) (es fs : List StreamEvent)
      → (serve_stream stringify_hello stringify instance_id identity es).closed ≡ false
      → IsLeft
          (serve_stream stringify_hello stringify instance_id identity es).stage
          (serve_stream stringify_hello stringify instance_id identity (es ++ closes ∷ fs))
  unfolding serve_stream open_stream
  serve_stream-IsLeft instance_id identity es fs h =
      let s0 = open_stream stringify_hello stringify instance_id identity in
      let s = run s0 es in
      let held = run-keeps IsOpen step-IsOpen es s0 (λ e. refl) h in
      subst (IsLeft s.stage) (sym (run-append es (closes ∷ fs) s0)) (elim (closes-cases s h held) [
        | inl (late, ended) ↦
            let e = run-keeps IsEnded step-IsEnded fs (step s closes) ended in ground arith
        | inr (early, orphaned) ↦
            let o = run-keeps IsOrphaned step-IsOrphaned fs (step s closes) orphaned in ground arith
      ])
