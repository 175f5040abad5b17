-- ===== src/Tests/Resilience.antt =====
-- The decorators over a small adapter at concrete inputs, with policies that count as cockatiel's do.
use messaging_poc.Common.{
  ℕ, zero, suc, ◌+◌, ◌<◌, String, List, [], ◌∷◌, ◌++◌, Bool, true, false, Option, none, some, ◌⊎◌,
  inl, string_eq, ◌==◌, if◌then◌else◌, ltb, ◌≡◌, refl, arith,
}
use messaging_poc.Port.{
  Failure, not_supported, Outcome, returned, threw, Op, Port, scheduling_of, IsHonest,
}
use messaging_poc.Resilience.{
  Listeners, Policies, Documented, default_resilience, resilient, resilient_scheduling, retried,
}
use messaging_poc.Resilience.Pipeline.{IsClosed, resilient_scheduling-IsHonest, publish-survives}
use messaging_poc.Fault.Decorator.{fault_injecting, inject_failures}
use messaging_poc.Kafka.{kafka_capabilities}
use messaging_poc.Artemis.Jolokia.{JolokiaRequest, HttpReply}
use messaging_poc.Registry.{Adapter, create_scheduler}
use messaging_poc.Registry.Contract.{IsCreated, create_scheduler-IsCreated}

data Circuit : Type 0 where
  shut : ℕ → Circuit
  tripped : Circuit

module _ {S A : Type 0} where
  abbrev continue : (Failure → Bool) → (Failure → Op S A) → Outcome A × S → Outcome A × S
  continue handles again (returned a, s) = (returned a, s)
  continue handles again (threw e, s) = if handles e then again e s else (threw e, s)

  abbrev retry_sample : (Failure → Bool) → ℕ → ℕ → ℕ → (Failure → S → S) → Op S A → Op S A
  retry_sample handles zero i x l op s = op s
  retry_sample handles (suc m) i x l op s =
      continue handles (λ e s'. retry_sample handles m i x l op (l e s')) (op s)

  retry_sample-returns :
      (handles : Failure → Bool) (m i x : ℕ) (l : Failure → S → S) (op : Op S A) (s s' : S) (a : A)
      → op s ≡ (returned a, s')
      → retry_sample handles m i x l op s ≡ (returned a, s')
  retry_sample-returns handles zero i x l op s s' a h = h
  retry_sample-returns handles (suc m) i x l op s s' a h = rw h refl

  retry_sample-passes :
      (handles : Failure → Bool) (m i x : ℕ) (l : Failure → S → S) (op : Op S A) (s s' : S)
      (e : Failure)
      → op s ≡ (threw e, s')
      → handles e ≡ false
      → retry_sample handles m i x l op s ≡ (threw e, s')
  retry_sample-passes handles zero i x l op s s' e h stops = h
  retry_sample-passes handles (suc m) i x l op s s' e h stops = rw (h, stops) refl

  abbrev counted :
      (Failure → Bool) → ℕ → Listeners S → ℕ → Outcome A × S → Outcome A × (Circuit × S)
  counted handles n l k (returned a, s) = (returned a, (shut 0, s))
  counted handles n l k (threw e, s) =
      if handles e
      then (threw e, (if ltb (k + 1) n then (shut (k + 1), s) else (tripped, l.on_break s)))
      else (threw e, (shut k, s))

  abbrev breaker_sample : (Failure → Bool) → ℕ → ℕ → Listeners S → Op S A → Op (Circuit × S) A
  breaker_sample handles h n l op (shut k, s) = counted handles n l k (op s)
  breaker_sample handles h n l op (tripped, s) = (threw (Failure.error "open"), (tripped, s))

abbrev sample : Policies Circuit
sample = record { retry = retry_sample; breaker = breaker_sample; retry_reason = λ e. none }

below_threshold : (k n : ℕ) → k < n → ltb k n ≡ true
below_threshold k n h = ground arith

documented : Documented sample
documented = record {
  closed = shut;
  retry_returns = retry_sample-returns;
  retry_passes = retry_sample-passes;
  retry_again = λ handles m i x l op s s' e h goes. rw (h, goes) refl;
  retry_gives_up = λ handles i x l op s s' e h. h;
  breaker_returns = λ handles h n l op k s s' a e. rw e refl;
  breaker_passes = λ handles h n l op k s s' e f stops. rw (f, stops) refl;
  breaker_counts =
      λ handles h n l op k s s' e f goes below. rw (f, goes, below_threshold (k + 1) n below) refl;
}

-- An adapter that keeps the texts published, and must not support `cancel` and `listScheduled`.
abbrev logging : Port (List String) ℕ ℕ ℕ
logging = record {
  name = "log";
  capabilities = kafka_capabilities;
  connect = λ s. (returned tt, s);
  send_now = λ d payload s. (returned tt, s ++ payload ∷ []);
  schedule = λ d payload at s. (returned 0, s ++ payload ∷ []);
  cancel = λ h s. (threw (not_supported "cancel" "log" none), s);
  list_scheduled = λ d s. (threw (not_supported "listScheduled" "log" none), s);
  consume = λ d h s. (returned 0, s);
  connect_bus = λ s. (returned tt, s);
  publish = λ topic payload k options s. (returned tt, s ++ payload ∷ []);
  subscribe = λ topic h options s. (returned 0, s);
  dispose = λ s. (returned tt, s);
}

logging-IsHonest : IsHonest (λ s. Unit) (scheduling_of logging)
logging-IsHonest = record {
  cancel_refused = λ off h. record { broker = "log"; reason = none; refuses = λ s r. refl };
  list_refused = λ off d. record { broker = "log"; reason = none; refuses = λ s r. refl };
}

resilient_scheduling-IsHonest_example :
    IsHonest
      (IsClosed documented (λ s. Unit))
      (resilient_scheduling sample default_resilience (scheduling_of logging))
resilient_scheduling-IsHonest_example =
    resilient_scheduling-IsHonest sample documented default_resilience (λ s. Unit)
      (scheduling_of logging) logging-IsHonest

publish-survives_example :
    (resilient sample default_resilience (fault_injecting logging)).publish "t" "hi" none none
      (shut 1, record { attempt = 4; events = []; inner = inject_failures 2 (0, []) })
    ≡ (
      returned tt,
      (
        shut 0,
        record {
          attempt = 6;
          events = retried 5 "transient" ∷ retried 6 "transient" ∷ [];
          inner = (0, "hi" ∷ []);
        },
      ),
    )
unfolding documented resilient fault_injecting
publish-survives_example =
    publish-survives sample documented default_resilience logging "t" "hi" none none 2 1 0 4 [] []
      ("hi" ∷ []) refl (omega arith) (omega arith)

-- A management endpoint that does not answer.
abbrev offline : JolokiaRequest → Op ℕ HttpReply
offline request s = (threw (Failure.error "fetch failed"), s)

-- `Object.prototype.hasOwnProperty` throws where it is called as a plain function.
abbrev of_object : String → Option (Failure ⊎ Adapter Circuit)
of_object id =
    if id == "hasOwnProperty"
    then some (inl (Failure.error "Cannot convert undefined or null to object"))
    else none

create_scheduler-IsCreated_example :
    IsCreated sample documented offline of_object "kafka" true
      (create_scheduler sample offline of_object "kafka" true)
create_scheduler-IsCreated_example =
    create_scheduler-IsCreated sample documented offline of_object "kafka" true
