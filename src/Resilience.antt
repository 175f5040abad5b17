-- ===== src/Resilience.antt =====
-- typescript/src/resilience/resilient-scheduler.ts: `ResilientScheduler` over any adapter. The policies of
-- the cockatiel package are parameters (`Policies`), and `Documented` says what the decorator relies on.
-- The listener of the lifecycle events is known by the events that it gets.
pub mod Pipeline
use messaging_poc.Common.{
  ℕ, suc, ◌+◌, ◌<◌, String, List, [], ◌∷◌, ◌++◌, Bool, true, false, Option, none, some, not,
  or_else, ◌≡◌,
}
use messaging_poc.Abstractions.{BusCapabilities, Capabilities}
use messaging_poc.Port.{
  Failure, is_not_supported, Outcome, returned, threw, Op, Port, Scheduling, scheduling_of,
}
use Prim.Native.String

pub record ResilienceOptions : Type 0 where
  pub max_retry_attempts : ℕ
  pub initial_delay_ms : ℕ
  pub max_delay_ms : ℕ
  pub consecutive_failures : ℕ
  pub half_open_after_ms : ℕ

abbrev pub default_resilience : ResilienceOptions
default_resilience = record {
  max_retry_attempts = 3;
  initial_delay_ms = 200;
  max_delay_ms = 3000;
  consecutive_failures = 5;
  half_open_after_ms = 5000;
}

pub data ResilienceEvent : Type 0 where
  retried : ℕ → String → ResilienceEvent
  breaker_open breaker_half_open breaker_close : ResilienceEvent

abbrev pub all_bus_false : BusCapabilities
all_bus_false = record {
  supports_topic = false;
  supports_fanout = false;
  supports_manual_ack = false;
  supports_dead_letter = false;
  reports_delivery_count = false;
  supports_dedup = false;
  supports_stream_replay = false;
  supports_message_groups = none;
}

-- The closures of the constructor: the count `attempt` and what `onEvent` was called with, and the
-- state of the inner adapter.
pub record Decorated (S : Type 0) : Type 0 where
  pub attempt : ℕ
  pub events : List ResilienceEvent
  pub inner : S

-- The callbacks of a circuit breaker.
pub record Listeners (S : Type 0) : Type 0 where
  pub on_break : S → S
  pub on_half_open : S → S
  pub on_reset : S → S

-- `retry` (the errors that it handles, the attempts, the first and the longest wait, the listener) and
-- `circuitBreaker` (the errors, the time until it tries again, `ConsecutiveBreaker`'s threshold, the
-- listeners) of cockatiel, and the text of the field `reason` of the data that `onRetry` gets.
pub record Policies (Circuit : Type 0) : Type 1 where
  pub retry : {S A : Type 0} → (Failure → Bool) → ℕ → ℕ → ℕ → (Failure → S → S) → Op S A → Op S A
  pub breaker :
      {S A : Type 0} → (Failure → Bool) → ℕ → ℕ → Listeners S → Op S A → Op (Circuit × S) A
  pub retry_reason : Failure → Option String

-- What cockatiel documents: a retry runs the call again after an error that it handles while attempts
-- are left, and returns or throws else. A closed breaker passes results and errors on. It counts the
-- errors that it handles in a row and stays closed below its threshold.
pub record Documented {Circuit : Type 0} (p : Policies Circuit) : Type 1 where
  pub closed : ℕ → Circuit
  pub retry_returns :
      {S A : Type 0} (handles : Failure → Bool) (m i x : ℕ) (l : Failure → S → S) (op : Op S A)
      (s s' : S) (a : A)
      → op s ≡ (returned a, s')
      → p.retry handles m i x l op s ≡ (returned a, s')
  pub retry_passes :
      {S A : Type 0} (handles : Failure → Bool) (m i x : ℕ) (l : Failure → S → S) (op : Op S A)
      (s s' : S) (e : Failure)
      → op s ≡ (threw e, s')
      → handles e ≡ false
      → p.retry handles m i x l op s ≡ (threw e, s')
  pub retry_again :
      {S A : Type 0} (handles : Failure → Bool) (m i x : ℕ) (l : Failure → S → S) (op : Op S A)
      (s s' : S) (e : Failure)
      → op s ≡ (threw e, s')
      → handles e ≡ true
      → p.retry handles (suc m) i x l op s ≡ p.retry handles m i x l op (l e s')
  pub retry_gives_up :
      {S A : Type 0} (handles : Failure → Bool) (i x : ℕ) (l : Failure → S → S) (op : Op S A)
      (s s' : S) (e : Failure)
      → op s ≡ (threw e, s')
      → p.retry handles 0 i x l op s ≡ (threw e, s')
  pub breaker_returns :
      {S A : Type 0} (handles : Failure → Bool) (h n : ℕ) (l : Listeners S) (op : Op S A) (k : ℕ)
      (s s' : S) (a : A)
      → op s ≡ (returned a, s')
      → p.breaker handles h n l op (closed k, s) ≡ (returned a, (closed 0, s'))
  pub breaker_passes :
      {S A : Type 0} (handles : Failure → Bool) (h n : ℕ) (l : Listeners S) (op : Op S A) (k : ℕ)
      (s s' : S) (e : Failure)
      → op s ≡ (threw e, s')
      → handles e ≡ false
      → p.breaker handles h n l op (closed k, s) ≡ (threw e, (closed k, s'))
  pub breaker_counts :
      {S A : Type 0} (handles : Failure → Bool) (h n : ℕ) (l : Listeners S) (op : Op S A) (k : ℕ)
      (s s' : S) (e : Failure)
      → op s ≡ (threw e, s')
      → handles e ≡ true
      → k + 1 < n
      → p.breaker handles h n l op (closed k, s) ≡ (threw e, (closed (k + 1), s'))

-- `handleWhen((err) => !(err instanceof NotSupportedError))`
abbrev pub is_transient : Failure → Bool
is_transient e = not (is_not_supported e)

-- A call of the inner adapter, in the state of the decorator.
abbrev pub inner_call : {S A : Type 0} → Op S A → Op (Decorated S) A
inner_call op d = let (outcome, s) = op d.inner in (outcome, record d { inner = s })

abbrev pub emit : {S : Type 0} → ResilienceEvent → Decorated S → Decorated S
emit event d = record d { events = d.events ++ event ∷ [] }

-- The callback of `onRetry`: `attempt` is never set back.
abbrev pub on_retry :
    {Circuit S : Type 0}
    → Policies Circuit
    → Failure
    → Circuit × Decorated S
    → Circuit × Decorated S
on_retry p e (c, d) = (
  c,
  emit (retried (d.attempt + 1) (or_else (p.retry_reason e) "transient"))
      (record d { attempt = d.attempt + 1 }),
)

abbrev pub breaker_listeners : {S : Type 0} → Listeners (Decorated S)
breaker_listeners = record {
  on_break = emit breaker_open;
  on_half_open = emit breaker_half_open;
  on_reset = emit breaker_close;
}

-- `wrap(retryPolicy, breaker).execute(op)`
unfoldable pub run :
    {Circuit S A : Type 0}
    → Policies Circuit
    → ResilienceOptions
    → Op S A
    → Op (Circuit × Decorated S) A
run p o op =
    p.retry is_transient o.max_retry_attempts o.initial_delay_ms o.max_delay_ms (on_retry p) (
      p.breaker is_transient o.half_open_after_ms o.consecutive_failures breaker_listeners
        (inner_call op))

-- `name`, `capabilities`, `cancel` and `listScheduled`.
unfoldable pub resilient_scheduling :
    {Circuit S H I : Type 0}
    → Policies Circuit
    → ResilienceOptions
    → Scheduling S H I
    → Scheduling (Circuit × Decorated S) H I
unfolding run
resilient_scheduling p o inner = record {
  name = String.◌++◌ inner.name " + Cockatiel";
  capabilities = inner.capabilities;
  cancel = λ h. run p o (inner.cancel h);
  list_scheduled = λ d. run p o (inner.list_scheduled d);
}

-- `asyncDispose` goes to the inner adapter without the policies.
unfoldable pub resilient :
    {Circuit S H I T : Type 0}
    → Policies Circuit
    → ResilienceOptions
    → Port S H I T
    → Port (Circuit × Decorated S) H I T
unfolding run resilient_scheduling
resilient p o inner = record {
  name = (resilient_scheduling p o (scheduling_of inner)).name;
  capabilities = (resilient_scheduling p o (scheduling_of inner)).capabilities;
  connect = run p o inner.connect;
  send_now = λ d payload. run p o (inner.send_now d payload);
  schedule = λ d payload at. run p o (inner.schedule d payload at);
  cancel = (resilient_scheduling p o (scheduling_of inner)).cancel;
  list_scheduled = (resilient_scheduling p o (scheduling_of inner)).list_scheduled;
  consume = λ d h. run p o (inner.consume d h);
  connect_bus = run p o inner.connect_bus;
  publish = λ topic payload k options. run p o (inner.publish topic payload k options);
  subscribe = λ topic h options. run p o (inner.subscribe topic h options);
  dispose = λ s. let (outcome, d) = inner_call inner.dispose s.1 in (outcome, (s.0, d));
}

-- The getter `busCapabilities`.
abbrev pub bus_capabilities : {S H I T : Type 0} → Port S H I T → BusCapabilities
bus_capabilities inner = or_else inner.capabilities.bus all_bus_false
