-- ===== src/Fault/Failures.antt =====
-- How many calls an injection fails, and what the others lose.
use messaging_poc.Common.{
  ℕ, zero, suc, List, [], ◌∷◌, Bool, true, false, none, if◌then◌else◌, ◌≡◌, refl, ap,
}
use messaging_poc.Fault.{
  PortCall, publish_call, send_call, schedule_call, cancel_call, list_call, consume_call,
  subscribe_call, connect_call, connect_bus_call, dispose_call, maybe_fail, forward, forwarded,
}

-- The calls that may fail.
abbrev pub is_fallible : PortCall → Bool
is_fallible (publish_call topic payload key o) = true
is_fallible (send_call d p) = true
is_fallible _ = false

-- The call without the options of a publish.
abbrev stripped : PortCall → PortCall
stripped (publish_call topic payload key o) = publish_call topic payload key none
stripped c = c

-- The calls without the first `n` of those that may fail.
unfoldable without_first : ℕ → List PortCall → List PortCall
without_first n [] = []
without_first zero (c ∷ cs) = stripped c ∷ without_first zero cs
without_first (suc n) (c ∷ cs) =
    let less = without_first n cs in
    let more = without_first (suc n) cs in if is_fallible c then less else stripped c ∷ more

-- After an injection of n failures, the first n publishes and sends fail, and every other call reaches
-- the inner adapter in order, the publishes without their options.
forwarded-without_first : (n : ℕ) (cs : List PortCall) → forwarded n cs ≡ without_first n cs
unfolding forwarded forward maybe_fail without_first
forwarded-without_first zero [] = refl
forwarded-without_first (suc n) [] = refl
forwarded-without_first zero (publish_call t p k o ∷ cs) =
    ap (λ r. publish_call t p k none ∷ r) (forwarded-without_first zero cs)
forwarded-without_first zero (send_call d p ∷ cs) =
    ap (λ r. send_call d p ∷ r) (forwarded-without_first zero cs)
forwarded-without_first zero (schedule_call d p at ∷ cs) =
    ap (λ r. schedule_call d p at ∷ r) (forwarded-without_first zero cs)
forwarded-without_first zero (cancel_call h ∷ cs) =
    ap (λ r. cancel_call h ∷ r) (forwarded-without_first zero cs)
forwarded-without_first zero (list_call d ∷ cs) =
    ap (λ r. list_call d ∷ r) (forwarded-without_first zero cs)
forwarded-without_first zero (consume_call d h ∷ cs) =
    ap (λ r. consume_call d h ∷ r) (forwarded-without_first zero cs)
forwarded-without_first zero (subscribe_call d h o ∷ cs) =
    ap (λ r. subscribe_call d h o ∷ r) (forwarded-without_first zero cs)
forwarded-without_first zero (connect_call ∷ cs) =
    ap (λ r. connect_call ∷ r) (forwarded-without_first zero cs)
forwarded-without_first zero (connect_bus_call ∷ cs) =
    ap (λ r. connect_bus_call ∷ r) (forwarded-without_first zero cs)
forwarded-without_first zero (dispose_call ∷ cs) =
    ap (λ r. dispose_call ∷ r) (forwarded-without_first zero cs)
forwarded-without_first (suc n) (publish_call t p k o ∷ cs) = forwarded-without_first n cs
forwarded-without_first (suc n) (send_call d p ∷ cs) = forwarded-without_first n cs
forwarded-without_first (suc n) (schedule_call d p at ∷ cs) =
    ap (λ r. schedule_call d p at ∷ r) (forwarded-without_first (suc n) cs)
forwarded-without_first (suc n) (cancel_call h ∷ cs) =
    ap (λ r. cancel_call h ∷ r) (forwarded-without_first (suc n) cs)
forwarded-without_first (suc n) (list_call d ∷ cs) =
    ap (λ r. list_call d ∷ r) (forwarded-without_first (suc n) cs)
forwarded-without_first (suc n) (consume_call d h ∷ cs) =
    ap (λ r. consume_call d h ∷ r) (forwarded-without_first (suc n) cs)
forwarded-without_first (suc n) (subscribe_call d h o ∷ cs) =
    ap (λ r. subscribe_call d h o ∷ r) (forwarded-without_first (suc n) cs)
forwarded-without_first (suc n) (connect_call ∷ cs) =
    ap (λ r. connect_call ∷ r) (forwarded-without_first (suc n) cs)
forwarded-without_first (suc n) (connect_bus_call ∷ cs) =
    ap (λ r. connect_bus_call ∷ r) (forwarded-without_first (suc n) cs)
forwarded-without_first (suc n) (dispose_call ∷ cs) =
    ap (λ r. dispose_call ∷ r) (forwarded-without_first (suc n) cs)
