-- ===== src/Fault.antt =====
-- typescript/src/fault/fault-injecting-bus.ts: `FaultInjectingBus`. The inner adapter is known by the
-- calls that it gets.
pub mod Failures
pub mod Decorator
use messaging_poc.Common.{
  ℕ, zero, suc, ◌-◌, String, List, [], ◌∷◌, ◌++◌, Bool, true, false, Option, none, some,
  if◌then◌else◌,
}
use messaging_poc.Abstractions.{Destination, PublishOptions, AckHandler, SubscribeOptions}

-- The calls of the two ports.
pub data PortCall : Type 0 where
  publish_call : Destination → String → Option String → Option PublishOptions → PortCall
  send_call : Destination → String → PortCall
  schedule_call : Destination → String → ℕ → PortCall
  cancel_call : String → PortCall
  list_call : Destination → PortCall
  consume_call : Destination → ℕ → PortCall
  subscribe_call : Destination → AckHandler → Option SubscribeOptions → PortCall
  connect_call connect_bus_call dispose_call : PortCall

-- `maybeFail`: whether it throws, and the failures that remain.
unfoldable pub maybe_fail : ℕ → Bool × ℕ
maybe_fail zero = (false, zero)
maybe_fail (suc n) = (true, n)

-- What a call does to the failures that remain, and the call of the inner adapter, none if it throws.
unfoldable pub forward : PortCall → ℕ → ℕ × Option PortCall
unfolding maybe_fail
forward (publish_call topic payload key o) n =
    let (fails, n') = maybe_fail n in
    (n', if fails then none else some (publish_call topic payload key none))
forward (send_call destination payload) n =
    let (fails, n') = maybe_fail n in
    (n', if fails then none else some (send_call destination payload))
forward (schedule_call d p at) n = (n, some (schedule_call d p at))
forward (cancel_call h) n = (n, some (cancel_call h))
forward (list_call d) n = (n, some (list_call d))
forward (consume_call d h) n = (n, some (consume_call d h))
forward (subscribe_call d h o) n = (n, some (subscribe_call d h o))
forward connect_call n = (n, some connect_call)
forward connect_bus_call n = (n, some connect_bus_call)
forward dispose_call n = (n, some dispose_call)

abbrev pub kept : Option PortCall → List PortCall → List PortCall
kept none cs = cs
kept (some c) cs = c ∷ cs

-- The calls that reach the inner adapter after `injectFailures(n)`.
unfoldable pub forwarded : ℕ → List PortCall → List PortCall
unfolding forward
forwarded n [] = []
forwarded n (c ∷ cs) = let (n', inner) = forward c n in kept inner (forwarded n' cs)
