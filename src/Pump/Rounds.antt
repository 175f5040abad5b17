-- ===== src/Pump/Rounds.antt =====
-- The loop of `pump`, one round at a time.
use messaging_poc.Common.{ℕ, zero, suc, none, some, ◌≡◌, inl, inr, length, Option-cases}
use messaging_poc.Abstractions.{AckHandler}
use messaging_poc.BusQueue.{BusMessage, BusQueue}
use messaging_poc.Pump.{hand_over, pull, pump_rounds, pump}

-- A round of `pump` at a time: what every hand-over and every last look keep, the loop keeps.
module _ (P : BusQueue → Type 0)
    (hands : (q : BusQueue) (m : BusMessage) (c : AckHandler)
      → (pull q).0 ≡ some (m, c)
      → P q
      → P (hand_over m c (pull q).1))
    (looks : (q : BusQueue) → (pull q).0 ≡ none → P q → P (pull q).1) where
  pub pump_rounds-keeps : (rounds : ℕ) (q : BusQueue) → P q → P (pump_rounds rounds q).0
  unfolding pump_rounds
  pump_rounds-keeps zero q h = h
  pump_rounds-keeps (suc rounds) q h = elim (Option-cases (pull q).0) [
    | inl nothing ↦ rw (nothing, pump_rounds) (looks q nothing h)
    | inr ((m, c), found) ↦
        rw (found, pump_rounds)
          (pump_rounds-keeps rounds (hand_over m c (pull q).1) (hands q m c found h))
  ]

  pub pump-keeps : (q : BusQueue) → P q → P (pump q).0
  unfolding pump
  pump-keeps q h = pump_rounds-keeps (length q.pending) q h
