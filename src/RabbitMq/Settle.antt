-- ===== src/RabbitMq/Settle.antt =====
-- The retry budget of the RabbitMQ adapter.
use messaging_poc.Common.{
  ℕ, zero, suc, ◌+◌, ◌-◌, ◌≤◌, ◌<◌, String, List, [], ◌∷◌, Bool, true, false, none, some, ◌≡◌, refl,
  ap, subst, if◌then◌else◌, leb, arith,
}
use messaging_poc.Settlement.{nacked}
use messaging_poc.RabbitMq.{
  Retry, Past, RabbitCall, sends, acks, nacks, x_death_count, rabbit_delivery_count, rabbit_settle,
  persistent_only,
}

-- A message that was rejected from the main queue `deaths` times.
abbrev pub past_of : ℕ → Past
past_of zero = record { deaths = []; delivery_count = none; redelivered = false }
past_of (suc n) = record {
  deaths = (false, some 7) ∷ (true, some (suc n)) ∷ [];
  delivery_count = none;
  redelivered = false;
}

-- Whether the calls of a settlement park the message in the retry queue, as a nack without requeue does.
abbrev pub is_parked : List RabbitCall → Bool
is_parked (nacks false ∷ []) = true
is_parked _ = false

-- The number of deliveries of a message whose every delivery is nacked with requeue, from `deaths`
-- rejections on, in `fuel` of them at most, and the calls that the last one makes.
unfoldable pub journey : ℕ → Retry → String → ℕ → ℕ × List RabbitCall
journey zero retry body deaths = (0, [])
journey (suc fuel) retry body deaths =
    let (deliveries, last) = journey fuel retry body (deaths + 1) in
    let count = rabbit_delivery_count (some retry) (past_of deaths) in
    let calls = rabbit_settle (some retry) body count (nacked true) in
    if is_parked calls then (deliveries + 1, last) else (1, calls)

delivery_count_of :
    (retry : Retry) (n : ℕ) → rabbit_delivery_count (some retry) (past_of n) ≡ some (n + 1)
unfolding rabbit_delivery_count x_death_count
delivery_count_of retry zero = refl
delivery_count_of retry (suc n) = refl

abbrev buried : Retry → String → List RabbitCall
buried retry body = sends retry.dla_exchange "" body persistent_only ∷ acks ∷ []

budget_left :
    (fuel : ℕ) (retry : Retry) (body : String) (deaths left : ℕ)
    → deaths + 1 + left ≡ retry.max_deliveries
    → left < fuel
    → journey fuel retry body deaths ≡ (left + 1, buried retry body)
unfolding journey rabbit_settle
budget_left zero retry body deaths left e h = absurd (omega arith)
budget_left (suc fuel) retry body deaths zero e h =
    let spent : leb retry.max_deliveries (deaths + 1) ≡ true = ground arith in
    rw (delivery_count_of retry deaths, spent) refl
budget_left (suc fuel) retry body deaths (suc left) e h =
    let more : leb retry.max_deliveries (deaths + 1) ≡ false = ground arith in
    let rest = budget_left fuel retry body (deaths + 1) left (omega arith) (omega arith) in
    rw (delivery_count_of retry deaths, more, rest) (ap (λ n. (n, buried retry body)) (omega arith))

-- With the retry topology, a message whose every delivery is nacked with requeue is delivered exactly
-- as often as the limit says, if that is at least once. The last nack publishes its text to the
-- dead-letter exchange and acks it.
pub rabbit_settle-budget :
    (retry : Retry) (body : String)
    → 1 ≤ retry.max_deliveries
    → journey retry.max_deliveries retry body 0
      ≡ (retry.max_deliveries, sends retry.dla_exchange "" body persistent_only ∷ acks ∷ [])
rabbit_settle-budget retry body h =
    let left =
      budget_left retry.max_deliveries retry body 0 (retry.max_deliveries - 1) (omega arith)
        (omega arith) in
    subst (λ n. journey retry.max_deliveries retry body 0 ≡ (n, buried retry body)) (omega arith)
      left
