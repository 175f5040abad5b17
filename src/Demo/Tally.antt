-- ===== src/Demo/Tally.antt =====
-- `runFaultDemos` and `main` of fault.ts. The brokers share one world, that of the process.
use messaging_poc.Common.{
  ℕ, ◌+◌, String, List, [], ◌∷◌, ◌++◌, Bool, true, false, not, ◌&&◌, Option, if◌then◌else◌,
  contains, string_eq, ◌==◌, ltb, or_else, ◌≡◌,
}
use messaging_poc.Entry.{to_lower_case}
use messaging_poc.Port.{Failure, Outcome, returned, threw, Op}
use messaging_poc.Registry.{known_brokers}
use messaging_poc.Scenarios.Program.{◌>>=◌, ◌>>◌, ◌catch◌, finished, pure}
use messaging_poc.Demo.Stage.{DemoStage, header, footer}
use messaging_poc.Demo.Story.{say, consumer_crash_demo, disconnect_demo, poison_demo}

module _ {W Token : Type 0} (stage : DemoStage W Token) where
  -- The `finally` block, with the counters as they are.
  unfoldable pub close : ℕ → ℕ → Op W Unit
  unfolding ◌>>◌
  close demonstrated failed = do say stage (footer demonstrated failed); stage.dispose

  -- What comes after a demo that returned true, returned false, or threw.
  abbrev pub settle_demo : Op W ℕ → Op W ℕ → Op W Unit → Outcome Bool × W → Outcome ℕ × W
  settle_demo shown failed closing (returned true, w) = shown w
  settle_demo shown failed closing (returned false, w) = failed w
  settle_demo shown failed closing (threw e, w) = finished (threw e) (closing w)

  -- The `try` block, from the counters on.
  unfoldable pub tell : List (Op W Bool) → ℕ → ℕ → Op W ℕ
  unfolding close
  tell [] demonstrated failed w = finished (returned failed) (close demonstrated failed w)
  tell (demo ∷ demos) demonstrated failed w =
      settle_demo (tell demos (demonstrated + 1) failed) (tell demos demonstrated (failed + 1))
        (close demonstrated failed) (demo w)

  abbrev pub demos : List (Op W Bool)
  demos = consumer_crash_demo stage ∷ disconnect_demo stage ∷ poison_demo stage ∷ []

  unfoldable pub run_fault_demos : Op W ℕ
  unfolding ◌>>=◌ ◌>>◌ ◌catch◌ tell consumer_crash_demo disconnect_demo poison_demo
  run_fault_demos = do
    connected ← (do stage.connect; stage.connect_bus; pure true) catch λ e. pure false
    if not connected then pure 0 else do say stage (header stage.name); tell demos 0 0

  -- The demos run in order from a world to another, and return these values.
  pub data IsRun : List (Op W Bool) → W → List Bool → W → Type 0 where
    none_left : {w : W} → IsRun [] w [] w
    one_more :
        {demo : Op W Bool} {ms : List (Op W Bool)} {w w' w'' : W} {b : Bool} {bs : List Bool}
        → demo w ≡ (returned b, w')
        → IsRun ms w' bs w''
        → IsRun (demo ∷ ms) w (b ∷ bs) w''

  abbrev pub successes : List Bool → ℕ
  successes [] = 0
  successes (b ∷ bs) = if b then successes bs + 1 else successes bs

  abbrev pub failures : List Bool → ℕ
  failures [] = 0
  failures (b ∷ bs) = if b then failures bs else failures bs + 1

  -- How the demos end: all of them return, or those before one that throws. The values that they
  -- returned are counted; the footer with the counts is printed and the adapter disposed, last of all.
  pub data IsTold (ms : List (Op W Bool)) (d f : ℕ) (w : W) (r : Outcome ℕ × W) : Type 0 where
    told :
        (bs : List Bool) (w' : W) (demonstrated failed : ℕ)
        → IsRun ms w bs w'
        → demonstrated ≡ d + successes bs
        → failed ≡ f + failures bs
        → r ≡ finished (returned failed) (close demonstrated failed w')
        → IsTold ms d f w r
    broken :
        (before after : List (Op W Bool)) (demo : Op W Bool) (bs : List Bool) (w' w'' : W)
        (e : Failure) (demonstrated failed : ℕ)
        → ms ≡ before ++ demo ∷ after
        → IsRun before w bs w'
        → demo w' ≡ (threw e, w'')
        → demonstrated ≡ d + successes bs
        → failed ≡ f + failures bs
        → r ≡ finished (threw e) (close demonstrated failed w'')
        → IsTold ms d f w r

module _ {W Token : Type 0} (stages : String → DemoStage W Token) where
  -- The failures of all the brokers.
  unfoldable pub run_all_demos : List String → Op W ℕ
  unfolding ◌>>=◌ run_fault_demos
  run_all_demos [] = pure 0
  run_all_demos (id ∷ ids) = do
    failures ← run_fault_demos (stages id)
    others ← run_all_demos ids
    pure (failures + others)

  -- `main`, with the code of the exit.
  unfoldable pub demo_main : Option String → Op W ℕ
  unfolding ◌>>=◌ to_lower_case run_all_demos
  demo_main argument = do
    let arg = to_lower_case (or_else argument "in-memory")
    if not (arg == "all") && not (contains known_brokers arg) then pure 2 else do
      failures ← run_all_demos (if arg == "all" then known_brokers else arg ∷ [])
      pure (if ltb 0 failures then 1 else 0)
