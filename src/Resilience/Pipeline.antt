-- ===== src/Resilience/Pipeline.antt =====
-- What the decorator does with refusals and with failures that go away.
use mathlib.Core.List.{append-nil, append_assoc}
use messaging_poc.Common.{
  ℕ, zero, suc, ◌+◌, ◌≤◌, ◌<◌, String, List, [], ◌∷◌, ◌++◌, false, none, Option, or_else, ◌≡◌, refl,
  sym, ◌∙◌, subst, arith,
}
use messaging_poc.Abstractions.{Destination, PublishOptions}
use messaging_poc.Port.{
  Failure, not_supported, Outcome, returned, threw, Op, Port, Scheduling, IsRefused, IsHonest,
}
use messaging_poc.Resilience.{
  ResilienceOptions, ResilienceEvent, retried, Decorated, Policies, Documented, is_transient,
  inner_call, on_retry, breaker_listeners, run, resilient, resilient_scheduling,
}
use messaging_poc.Fault.{maybe_fail}
use messaging_poc.Fault.Decorator.{transient_fault, inject_failures, fallible, fault_injecting}

-- The circuit is closed and the inner adapter is in one of the states.
abbrev pub IsClosed :
    {Circuit S : Type 0} {p : Policies Circuit}
    → Documented p
    → (S → Type 0)
    → Circuit × Decorated S
    → Type 0
IsClosed d Ready (c, s) = (k : ℕ) × (c ≡ d.closed k) × Ready s.inner

module _ {Circuit S : Type 0} (p : Policies Circuit) (d : Documented p)
    (o : ResilienceOptions) where
  -- The operation as the policies run it.
  abbrev guarded : {A : Type 0} → Op S A → Op (Circuit × Decorated S) A
  guarded op =
      p.breaker is_transient o.half_open_after_ms o.consecutive_failures breaker_listeners
        (inner_call op)

  run-passes :
      {A : Type 0} (op : Op S A) (k : ℕ) (w : Decorated S) (s' : S) (e : Failure)
      → op w.inner ≡ (threw e, s')
      → is_transient e ≡ false
      → run p o op (d.closed k, w) ≡ (threw e, (d.closed k, record w { inner = s' }))
  unfolding run
  run-passes op k w s' e h refused =
      d.retry_passes _ _ _ _ _ (guarded op) _ _ e
        (d.breaker_passes _ _ _ _ (inner_call op) k w _ e (rw h refl) refused) refused

  run-returns :
      {A : Type 0} (op : Op S A) (m : ℕ) (k : ℕ) (w : Decorated S) (s' : S) (a : A)
      → op w.inner ≡ (returned a, s')
      → p.retry is_transient m o.initial_delay_ms o.max_delay_ms
          (on_retry p)
          (guarded op)
          (d.closed k, w)
        ≡ (returned a, (d.closed 0, record w { inner = s' }))
  run-returns op m k w s' a h =
      d.retry_returns _ _ _ _ _ (guarded op) _ _ a
        (d.breaker_returns _ _ _ _ (inner_call op) k w _ a (rw h refl))

  run-IsRefused :
      {A : Type 0} (operation : String) (Ready : S → Type 0) (op : Op S A)
      → IsRefused operation Ready op
      → IsRefused operation (IsClosed d Ready) (run p o op)
  run-IsRefused operation Ready op r = record {
    broker = r.broker;
    reason = r.reason;
    refuses = λ s h.
        subst
          (λ c. run p o op (c, s.1) ≡ (threw (not_supported operation r.broker r.reason), (c, s.1)))
          (sym h.1)
          (run-passes op h.0 s.1 s.1.inner (not_supported operation r.broker r.reason)
            (r.refuses s.1.inner h.2) refl);
  }

  -- The decorator keeps the contract of the scheduler port: while its circuit is closed, `cancel` and
  -- `listScheduled` throw the `NotSupportedError` of an inner adapter that must not support them, without
  -- another attempt, without an event and with the breaker's count as it was.
  pub resilient_scheduling-IsHonest :
      {H I : Type 0} (Ready : S → Type 0) (inner : Scheduling S H I)
      → IsHonest Ready inner
      → IsHonest (IsClosed d Ready) (resilient_scheduling p o inner)
  unfolding resilient_scheduling
  resilient_scheduling-IsHonest Ready inner h = record {
    cancel_refused = λ off handle.
        run-IsRefused "cancel" Ready (inner.cancel handle) (h.cancel_refused off handle);
    list_refused = λ off dest.
        run-IsRefused "listScheduled" Ready (inner.list_scheduled dest) (h.list_refused off dest);
  }

-- The events of `n` retries after an error, counted on from `a`.
abbrev pub retries : {Circuit : Type 0} → Policies Circuit → Failure → ℕ → ℕ → List ResilienceEvent
retries p e a zero = []
retries p e a (suc n) =
    retried (a + 1) (or_else (p.retry_reason e) "transient") ∷ retries p e (a + 1) n

module _ {Circuit S A : Type 0} (p : Policies Circuit) (d : Documented p) (o : ResilienceOptions)
    (op : Op S A) (s s' : S) (a : A) (works : op s ≡ (returned a, s')) where
  abbrev healed : ℕ → List ResilienceEvent → Outcome A × (Circuit × Decorated (ℕ × S))
  healed at es = (returned a, (d.closed 0, record { attempt = at; events = es; inner = (0, s') }))

  healed-eq : (x y : ℕ) (es fs : List ResilienceEvent) → x ≡ y → es ≡ fs → healed x es ≡ healed y fs
  healed-eq x y es fs g h = rw (g, h) refl

  -- `m` attempts are left and `n` failures are to come.
  retry-fallible :
      (n m k : ℕ) (at : ℕ) (es : List ResilienceEvent)
      → n ≤ m
      → k + n < o.consecutive_failures
      → p.retry is_transient m o.initial_delay_ms o.max_delay_ms
          (on_retry p)
          (guarded p d o (fallible op))
          (d.closed k, record { attempt = at; events = es; inner = (n, s) })
        ≡ healed (at + n) (es ++ retries p transient_fault at n)
  unfolding maybe_fail
  retry-fallible zero m k at es h below =
      run-returns p d o (fallible op) m k _ (0, s') a (rw works refl)
      ∙ healed-eq at (at + 0) es (es ++ []) (omega arith) (sym (append-nil es))
  retry-fallible (suc n) zero k at es h below = absurd (omega (arith, h))
  retry-fallible (suc n) (suc m) k at es h below =
      let event = retried (at + 1) (or_else (p.retry_reason transient_fault) "transient") in
      let later =
        retry-fallible n m (k + 1) (at + 1) (es ++ event ∷ []) (omega (arith, h))
          (omega (arith, below)) in
      d.retry_again _ m _ _ _ (guarded p d o (fallible op)) _ _ transient_fault
        (d.breaker_counts _ _ _ _ (inner_call (fallible op)) k
          (record { attempt = at; events = es; inner = (suc n, s) })
          (record { attempt = at; events = es; inner = (n, s) }) transient_fault refl refl
          (omega (arith, below)))
        refl
      ∙ (later
          ∙ healed-eq (at + 1 + n) (at + suc n) _ _ (omega arith)
              (append_assoc es (event ∷ []) (retries p transient_fault (at + 1) n)))

-- An outage of `n` failures that the policies have attempts for, and that stays below the breaker's
-- threshold, is not seen by the caller of `publish`: the inner adapter gets the publish as if there had
-- been none, but without its options, the breaker's count starts again, and the listener gets one event
-- for each failure, numbered on from the retries of earlier calls.
pub publish-survives :
    {Circuit S H I T : Type 0} (p : Policies Circuit) (d : Documented p) (o : ResilienceOptions)
    (inner : Port S H I T) (topic : Destination) (body : String) (key : Option String)
    (options : Option PublishOptions) (n k left at : ℕ) (es : List ResilienceEvent) (s s' : S)
    → inner.publish topic body key none s ≡ (returned tt, s')
    → n ≤ o.max_retry_attempts
    → k + n < o.consecutive_failures
    → (resilient p o (fault_injecting inner)).publish topic body key options
        (d.closed k, record { attempt = at; events = es; inner = inject_failures n (left, s) })
      ≡ (
        returned tt,
        (
          d.closed 0,
          record {
            attempt = at + n;
            events = es ++ retries p transient_fault at n;
            inner = (0, s');
          },
        ),
      )
unfolding resilient run fault_injecting
publish-survives p d o inner topic body key options n k left at es s s' works h below =
    retry-fallible p d o (inner.publish topic body key none) s s' tt works n o.max_retry_attempts k
      at es h below
