-- ===== src/Runner/Waiting.antt =====
-- typescript/src/scenarios/scenario.ts: `waitUntil` and the collectors. The world around the loop (the
-- clock, the timers of the event loop and what the predicate reads) is a state of any type.
use messaging_poc.Common.{
  ℕ, zero, suc, ◌+◌, ◌≤◌, ◌<◌, Bool, true, false, Option, none, some, if◌then◌else◌, ltb, ◌≡◌, refl,
  arith, Bool-cases, inl, inr, subst, List, [], ◌∷◌, ◌++◌, map, length, String, or_else,
}

module _ {S : Type 0} (now : S → ℕ) (delay : ℕ → S → S) (predicate : S → Bool) where
  -- The loop; `none` when the fuel runs out.
  unfoldable pub wait_rounds : ℕ → ℕ → ℕ → S → Option (Bool × S)
  wait_rounds zero deadline interval s = none
  wait_rounds (suc fuel) deadline interval s =
      let later = wait_rounds fuel deadline interval (delay interval s) in
      if ltb (now s) deadline
      then if predicate s then some (true, s) else later
      else some (predicate s, s)

  -- A round takes time, so that no more rounds run than there are milliseconds to wait, and the last
  -- look at the clock.
  unfoldable pub wait_until : ℕ → ℕ → S → Option (Bool × S)
  unfolding wait_rounds
  wait_until timeout interval s = wait_rounds (timeout + 1) (now s + timeout) interval s

  -- The result is what the predicate says in the last state, and `false` only after the deadline.
  pub record IsWaited (deadline : ℕ) (r : Option (Bool × S)) : Type 0 where
    pub holds : Bool
    pub last : S
    pub returns : r ≡ some (holds, last)
    pub looked : predicate last ≡ holds
    pub late : holds ≡ false → deadline ≤ now last

  module _ (moves : (ms : ℕ) (s : S) → 0 < ms → now s < now (delay ms s)) where
    -- The round that stops.
    stops : (deadline : ℕ) (s : S) → deadline ≤ now s → IsWaited deadline (some (predicate s, s))
    stops deadline s past = record {
      holds = predicate s;
      last = s;
      returns = refl;
      looked = refl;
      late = λ off. past;
    }

    wait_rounds-IsWaited :
        (n deadline interval : ℕ) (s : S)
        → 0 < interval
        → deadline ≤ now s + n
        → IsWaited deadline (wait_rounds (suc n) deadline interval s)
    unfolding wait_rounds
    wait_rounds-IsWaited zero deadline interval s step enough =
        elim (Bool-cases (ltb (now s) deadline)) [
          | inr past ↦ rw (past, wait_rounds) (stops deadline s (ground (arith, past)))
          | inl early ↦ absurd (ground (arith, early, enough))
        ]
    wait_rounds-IsWaited (suc n) deadline interval s step enough =
        elim (Bool-cases (ltb (now s) deadline)) [
          | inr past ↦ rw (past, wait_rounds) (stops deadline s (ground (arith, past)))
          | inl early ↦ elim (Bool-cases (predicate s)) [
            | inl found ↦
                rw (early, wait_rounds)
                  (rw (found, wait_rounds)
                    (record {
                      holds = true;
                      last = s;
                      returns = refl;
                      looked = found;
                      late = λ off. absurd (cc);
                    }))
            | inr not_yet ↦
                rw (early, wait_rounds)
                  (rw (not_yet, wait_rounds)
                    (wait_rounds-IsWaited n deadline interval (delay interval s) step
                      (omega (arith, moves interval s step, enough))))
          ]
        ]

    -- If every wait of the event loop moves the clock on, the loop ends: it returns what the predicate says
    -- in the state in which it ends, and returns `false` only when the time is over.
    pub wait_until-IsWaited :
        (timeout interval : ℕ) (s : S)
        → 0 < interval
        → IsWaited (now s + timeout) (wait_until timeout interval s)
    unfolding wait_until
    wait_until-IsWaited timeout interval s step =
        let one_more : suc timeout ≡ timeout + 1 = omega arith in
        subst (λ f. IsWaited (now s + timeout) (wait_rounds f (now s + timeout) interval s))
          one_more (wait_rounds-IsWaited timeout (now s + timeout) interval s step (omega arith))

-- `MessageCollector` and `AckCollector`: what the handler does with a message. With a hook, the hook is
-- called; without one, the message is acked unless `autoAck` is false.
pub data Reaction : Type 0 where
  hooked acked left : Reaction

abbrev pub react : Bool → Option Bool → Reaction
react has_hook auto_ack = if has_hook then hooked else if or_else auto_ack true then acked else left

abbrev pub collect : {Message : Type 0} → Message → List Message → List Message
collect m received = received ++ m ∷ []

abbrev pub bodies : {Message : Type 0} → (Message → String) → List Message → List String
bodies body received = map body received

abbrev pub count : {Message : Type 0} → List Message → ℕ
count received = length received
