-- ===== src/Entry.antt =====
-- typescript/src/index.ts: `main` and `runAgainst`. The adapters of the brokers share one world, that of
-- the process; what is printed is not modelled.
pub mod Exit
use Prim.Native.Char.{Char, code}
use Prim.Native.String
use messaging_poc.Common.{
  ℕ, String, List, [], ◌∷◌, Bool, true, false, not, ◌&&◌, Option, none, some, if◌then◌else◌,
  contains, keep, string_eq, ◌==◌, nat_eq, or_else, text_of, join,
}
use messaging_poc.Abstractions.{Capabilities}
use messaging_poc.Port.{Op}
use messaging_poc.Registry.{known_brokers}
use messaging_poc.Runner.{ScenarioResult, fail, same_status}
use messaging_poc.Scenarios.Program.{◌>>=◌, ◌>>◌, ◌finally◌, ◌catch◌, pure, total}
use messaging_poc.Scenarios.Suite.{Adapter, suite}
use messaging_poc.Scenarios.Values.{any_of}

-- A letter by its place in two alphabets.
lower_in : Char → String → String → Char
lower_in c String.[] lows = c
lower_in c (String.◌∷◌ u ups) String.[] = c
lower_in c (String.◌∷◌ u ups) (String.◌∷◌ l lows) =
    let later = lower_in c ups lows in if nat_eq (code u) (code c) then l else later

-- `toLowerCase`, on the letters of ASCII.
unfoldable pub to_lower_case : String → String
unfolding lower_in
to_lower_case String.[] = String.[]
to_lower_case (String.◌∷◌ c text) =
    String.◌∷◌ (lower_in c "ABCDEFGHIJKLMNOPQRSTUVWXYZ" "abcdefghijklmnopqrstuvwxyz")
      (to_lower_case text)

-- `RunReport`
pub record RunReport : Type 0 where
  pub broker : String
  pub capabilities : Capabilities
  pub results : List ScenarioResult

-- How `main` exits: with a code and what `console.error` prints, or with a code after the reports.
pub data Ending : Type 0 where
  refuses : ℕ → String → Ending
  exits : ℕ → List RunReport → Ending

abbrev pub unknown_argument : String → String
unknown_argument arg =
    text_of ("Unknown broker '" ∷ arg ∷ "'. Known: " ∷ join ", " known_brokers ∷ ", all" ∷ [])

unfoldable pub has_failed : RunReport → Bool
unfolding any_of
has_failed report = any_of (λ r. same_status r.status fail) report.results

unfoldable pub exit_code : List RunReport → ℕ
unfolding any_of has_failed
exit_code reports = if any_of has_failed reports then 1 else 0

-- The brokers that an argument names.
unfoldable pub brokers_of : String → List String
brokers_of arg = if arg == "all" then keep (λ b. not (b == "in-memory")) known_brokers else arg ∷ []

abbrev pub add_report : Option RunReport → List RunReport → List RunReport
add_report none reports = reports
add_report (some report) reports = report ∷ reports

module _ {W : Type 0 → Type 0} {Handle Info Token : Type 0} where
  unfoldable pub run_against : Adapter W Handle Info Token → Op (W Unit) (Option RunReport)
  unfolding ◌>>=◌ ◌>>◌ ◌finally◌ ◌catch◌ total suite
  run_against scheduler = do
    connected ← (do scheduler.connect; pure true) catch λ err. pure false
    if connected
        then (do
          results ← total (suite scheduler)
          pure (
              some (record {
                broker = scheduler.name;
                capabilities = scheduler.capabilities;
                results = results;
              })))
          finally scheduler.dispose
        else pure none

module _ {W : Type 0 → Type 0} {Handle Info Token : Type 0}
    (create_scheduler : String → Adapter W Handle Info Token) where
  unfoldable pub run_brokers : List String → Op (W Unit) (List RunReport)
  unfolding ◌>>=◌ run_against
  run_brokers [] = pure []
  run_brokers (id ∷ ids) = do
    report ← run_against (create_scheduler id)
    reports ← run_brokers ids
    pure (add_report report reports)

  unfoldable pub main : Option String → Op (W Unit) Ending
  unfolding ◌>>=◌ to_lower_case brokers_of run_brokers exit_code
  main argument = do
    let arg = to_lower_case (or_else argument "in-memory")
    if not (arg == "all") && not (contains known_brokers arg)
        then pure (refuses 2 (unknown_argument arg))
        else do reports ← run_brokers (brokers_of arg); pure (exits (exit_code reports) reports)
