-- ===== src/Scenarios/Verdict.antt =====
-- What a scenario concludes from its variables after the last `await`, without the clock.
use messaging_poc.Common.{ℕ, String, Bool, true, false}
use messaging_poc.Port.{Op}
use messaging_poc.Runner.{ScenarioResult}
use messaging_poc.Scenarios.Program.{pass, fail}

-- The verdict with its detail.
pub data Verdict : Type 0 where
  passes fails : String → Verdict

-- `pass` or `fail`, by a verdict.
unfoldable pub conclude : {W : Type 0} → (W → ℕ) → String → ℕ → Verdict → Op W ScenarioResult
unfolding pass fail
conclude clock name t0 (passes detail) = pass clock name detail t0
conclude clock name t0 (fails detail) = fail clock name detail t0

abbrev pub accepts : Verdict → Bool
accepts (passes detail) = true
accepts (fails detail) = false
