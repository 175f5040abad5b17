-- ===== src/Fault/Decorator.antt =====
-- typescript/src/fault/fault-injecting-bus.ts: the class as a decorator of the two ports. The state is the
-- number of failures that remain and the state of the inner adapter.
use messaging_poc.Common.{ℕ, none, if◌then◌else◌}
use messaging_poc.Port.{Failure, error, threw, Op, Port}
use messaging_poc.Fault.{maybe_fail}
use Prim.Native.String

abbrev pub transient_fault : Failure
transient_fault = error "simulated broker disconnect"

abbrev pub inject_failures : {S : Type 0} → ℕ → ℕ × S → ℕ × S
inject_failures count (n, s) = (count, s)

abbrev pub passed : {S A : Type 0} → Op S A → Op (ℕ × S) A
passed op (n, s) = let (outcome, s') = op s in (outcome, (n, s'))

-- `this.maybeFail()` before the call.
abbrev pub fallible : {S A : Type 0} → Op S A → Op (ℕ × S) A
unfolding maybe_fail
fallible op (n, s) =
    let (fails, n') = maybe_fail n in
    if fails then (threw transient_fault, (n', s)) else passed op (n', s)

unfoldable pub fault_injecting : {S H I T : Type 0} → Port S H I T → Port (ℕ × S) H I T
fault_injecting inner = record {
  name = String.◌++◌ inner.name " (fault-injectable)";
  capabilities = inner.capabilities;
  connect = passed inner.connect;
  send_now = λ d payload. fallible (inner.send_now d payload);
  schedule = λ d payload at. passed (inner.schedule d payload at);
  cancel = λ h. passed (inner.cancel h);
  list_scheduled = λ d. passed (inner.list_scheduled d);
  consume = λ d h. passed (inner.consume d h);
  connect_bus = passed inner.connect_bus;
  publish = λ topic payload k options. fallible (inner.publish topic payload k none);
  subscribe = λ topic h options. passed (inner.subscribe topic h options);
  dispose = passed inner.dispose;
}
