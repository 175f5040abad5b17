-- ===== src/Scenarios/Program.antt =====
-- `async` functions over an adapter: awaits in order, `try … finally`, `try … catch`, loops that await,
-- `Promise.all`, and the results of a scenario by the clock.
use messaging_poc.Common.{ℕ, ◌-◌, String, List, [], ◌∷◌, ◌⊎◌, inl, inr}
use messaging_poc.Port.{Failure, Outcome, returned, threw, Op, after}
use messaging_poc.Runner.{ScenarioResult, passed_result, failed_result, unsupported_result}

abbrev pub gathered : {A : Type 0} → Outcome A → Outcome (List A) → Outcome (List A)
gathered (returned a) (returned rest) = returned (a ∷ rest)
gathered (returned a) (threw e) = threw e
gathered (threw e) others = threw e

module _ {W : Type 0} where
  infixl 5 ◌>>=◌ ◌>>◌
  infixl 6 ◌finally◌ ◌catch◌
  unfoldable pub ◌>>=◌ : {A B : Type 0} → Op W A → (A → Op W B) → Op W B
  ◌>>=◌ m f w = after f (m w)

  unfoldable pub ◌>>◌ : {A B : Type 0} → Op W A → Op W B → Op W B
  ◌>>◌ m k w = after (λ _. k) (m w)

  abbrev pub pure : {A : Type 0} → A → Op W A
  pure a w = (returned a, w)

  abbrev pub observe : {A : Type 0} → (W → A) → Op W A
  observe f w = (returned (f w), w)

  -- An operation that does not throw.
  unfoldable pub total : {A : Type 0} → (W → A × W) → Op W A
  total f w = let (a, w') = f w in (returned a, w')

  abbrev pub done : Op W Unit
  done = pure tt

  -- What the clean-up throws takes the place of the outcome.
  abbrev pub finished : {A : Type 0} → Outcome A → Outcome Unit × W → Outcome A × W
  finished outcome (returned u, w) = (outcome, w)
  finished outcome (threw e, w) = (threw e, w)

  unfoldable pub ◌finally◌ : {A : Type 0} → Op W A → Op W Unit → Op W A
  ◌finally◌ body cleanup w = let (outcome, w') = body w in finished outcome (cleanup w')

  abbrev pub recovered : {A : Type 0} → (Failure → Op W A) → Outcome A × W → Outcome A × W
  recovered handler (returned a, w) = (returned a, w)
  recovered handler (threw e, w) = handler e w

  unfoldable pub ◌catch◌ : {A : Type 0} → Op W A → (Failure → Op W A) → Op W A
  ◌catch◌ body handler w = recovered handler (body w)

  abbrev pub rethrow : {A : Type 0} → Failure → Op W A
  rethrow e w = (threw e, w)

  -- `for (const x of xs) await f(x)`
  unfoldable pub each : {A : Type 0} → List A → (A → Op W Unit) → Op W Unit
  unfolding ◌>>◌
  each [] f = done
  each (x ∷ xs) f = f x >> each xs f

  -- `Promise.all`: all of them run, whichever throws; the first error counts.
  unfoldable pub together : {A : Type 0} → List (Op W A) → Op W (List A)
  together [] w = (returned [], w)
  together (m ∷ ms) w =
      let (a, w') = m w in let (rest, w'') = together ms w' in (gathered a rest, w'')

  -- A part of a scenario that returns early.
  unfoldable pub early : {A : Type 0} → Op W ScenarioResult → Op W (ScenarioResult ⊎ A)
  unfolding ◌>>=◌
  early m = do r ← m; pure (inl r)

  abbrev pub continued :
      {A : Type 0} → (A → Op W ScenarioResult) → ScenarioResult ⊎ A → Op W ScenarioResult
  continued rest (inl result) = pure result
  continued rest (inr a) = rest a

  unfoldable pub or_return :
      {A : Type 0} → Op W (ScenarioResult ⊎ A) → (A → Op W ScenarioResult) → Op W ScenarioResult
  unfolding ◌>>=◌
  or_return m rest = m >>= continued rest

  -- `pass`, `fail` and `unsupported` for a scenario that began at `t0`.
  module _ (clock : W → ℕ) (name : String) (detail : String) (t0 : ℕ) where
    unfoldable pub pass : Op W ScenarioResult
    pass w = (returned (passed_result name detail (clock w - t0)), w)

    unfoldable pub fail : Op W ScenarioResult
    fail w = (returned (failed_result name detail (clock w - t0)), w)

    unfoldable pub unsupported : Op W ScenarioResult
    unsupported w = (returned (unsupported_result name detail (clock w - t0)), w)
