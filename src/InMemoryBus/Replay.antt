-- ===== src/InMemoryBus/Replay.antt =====
-- Stream replay: what a new subscription gets of the log.
use messaging_poc.Common.{ℕ, ◌+◌, List, [], ◌∷◌, map, ◌≡◌, refl, ap, keep, Bool-cases, inl, inr}
use messaging_poc.BusQueue.{BusMessage, BusQueue, matches}
use messaging_poc.InMemoryBus.{replay}

-- A message as it was published: without its identity, and not delivered yet.
abbrev pub published : BusMessage → BusMessage
published m = record m { object = 0; delivery_count = 0 }

-- A replay copies exactly the log entries whose routing key the queue matches, in their order, each as
-- it was published, and not delivered yet.
pub replay-log :
    (q : BusQueue) (object : ℕ) (log : List BusMessage)
    → (map published (replay q object log).0
        ≡ map published (keep (λ m. matches q m.routing_key) log))
      × (map (λ (m : BusMessage). m.delivery_count) (replay q object log).0
          ≡ map (λ m. 0) (keep (λ m. matches q m.routing_key) log))
unfolding replay
replay-log q object [] = (refl, refl)
replay-log q object (m ∷ log) = elim (Bool-cases (matches q m.routing_key)) [
  | inl fits ↦
      let (same, fresh) = replay-log q (object + 1) log in
      rw fits (ap (λ r. published m ∷ r) same, ap (λ r. 0 ∷ r) fresh)
  | inr other ↦ rw other (replay-log q object log)
]
