-- ===== src/Runner.antt =====
-- typescript/src/runner.ts and the results of typescript/src/scenarios/scenario.ts. A scenario is a
-- program over the world `W` of an adapter, that returns a result or throws.
pub mod Report
pub mod Waiting
use Prim.Native.String
use messaging_poc.Common.{
  ℕ, ◌+◌, String, List, [], ◌∷◌, ◌++◌, map, Bool, true, false, Option, none, some, if◌then◌else◌,
  ◌⊎◌, inl, inr, length, keep,
}
use messaging_poc.Abstractions.{BusCapabilities, Capabilities}
use messaging_poc.Port.{Op, Outcome, returned, threw, failure_message}

pub data ScenarioStatus : Type 0 where
  pass fail unsupported skipped : ScenarioStatus

pub record ScenarioResult : Type 0 where
  pub name : String
  pub status : ScenarioStatus
  pub detail : String
  pub duration_ms : ℕ

-- `Scenario` and `BusScenario`: a program over the world of an adapter.
pub record Scenario (W : Type 0) : Type 0 where
  pub name : String
  pub run : Op W ScenarioResult

abbrev pub passed_result : String → String → ℕ → ScenarioResult
passed_result name detail elapsed = record {
  name = name;
  status = pass;
  detail = detail;
  duration_ms = elapsed;
}

abbrev pub failed_result : String → String → ℕ → ScenarioResult
failed_result name detail elapsed = record {
  name = name;
  status = fail;
  detail = detail;
  duration_ms = elapsed;
}

abbrev pub unsupported_result : String → String → ℕ → ScenarioResult
unsupported_result name detail elapsed = record {
  name = name;
  status = unsupported;
  detail = detail;
  duration_ms = elapsed;
}

unfoldable pub na_result : String → String → ScenarioResult
na_result name detail = record {
  name = name;
  status = unsupported;
  detail = detail;
  duration_ms = 0;
}

unfoldable pub fail_result : String → String → ScenarioResult
fail_result name message = record {
  name = name;
  status = fail;
  detail = String.◌++◌ "threw: " message;
  duration_ms = 0;
}

module _ {W : Type 0} where
  -- `runOne` and `runOneBus`: an error is a failure of the scenario.
  unfoldable pub reported : String → Outcome ScenarioResult × W → ScenarioResult × W
  unfolding fail_result failure_message
  reported name (returned result, w) = (result, w)
  reported name (threw e, w) = (fail_result name (failure_message e), w)

  unfoldable pub run_one : Scenario W → W → ScenarioResult × W
  unfolding reported
  run_one s w = reported s.name (s.run w)

  -- One scenario after another.
  unfoldable pub run_all : List (Scenario W) → W → List ScenarioResult × W
  unfolding run_one
  run_all [] w = ([], w)
  run_all (s ∷ ss) w = let (r, w') = run_one s w in let (rs, w'') = run_all ss w' in (r ∷ rs, w'')

  -- The results of the bus scenarios after `connectBus`.
  unfoldable pub run_connected : List (Scenario W) → Outcome Unit × W → List ScenarioResult × W
  unfolding run_all fail_result failure_message
  run_connected scenarios (threw e, w) =
      (map (λ s. fail_result s.name (failure_message e)) scenarios, w)
  run_connected scenarios (returned u, w) = run_all scenarios w

  -- The bus part of `runSuite`: an adapter may have no bus.
  unfoldable pub run_bus :
      Option BusCapabilities → Op W Unit → List (Scenario W) → W → List ScenarioResult × W
  unfolding na_result run_connected
  run_bus none connect_bus scenarios w =
      (map (λ s. na_result s.name "adapter has no bus port") scenarios, w)
  run_bus (some bus) connect_bus scenarios w = run_connected scenarios (connect_bus w)

  -- `runSuite`
  unfoldable pub run_suite :
      Capabilities → Op W Unit → List (Scenario W) → List (Scenario W) → W → List ScenarioResult × W
  unfolding run_all run_bus
  run_suite capabilities connect_bus scenarios bus_scenarios w =
      let (rs, w') = run_all scenarios w in
      let (bus_rs, w'') = run_bus capabilities.bus connect_bus bus_scenarios w' in
      (rs ++ bus_rs, w'')

abbrev pub same_status : ScenarioStatus → ScenarioStatus → Bool
same_status pass pass = true
same_status fail fail = true
same_status unsupported unsupported = true
same_status skipped skipped = true
same_status _ _ = false

unfoldable pub count_by : List ScenarioResult → ScenarioStatus → ℕ
count_by results status = length (keep (λ r. same_status r.status status) results)
