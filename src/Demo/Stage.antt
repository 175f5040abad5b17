-- ===== src/Demo/Stage.antt =====
-- `FaultNarrator` and what the demos see of the adapter. The lines are without their colours, and the
-- timeline holds the variables of the three demos.
use messaging_poc.Common.{ℕ, String, List, [], ◌∷◌, ◌++◌, Bool, true, text_of, decimal}
use messaging_poc.Port.{Op}
use messaging_poc.Resilience.{
  ResilienceEvent, ResilienceOptions, retried, breaker_open, breaker_half_open, breaker_close,
}
use messaging_poc.Scenarios.Stage.{Message, BusStage}

pub data Line : Type 0 where
  header step ok recover retry breaker dead : String → Line
  footer : ℕ → ℕ → Line

-- A line as it is printed.
unfoldable pub printed : Line → String
printed (header title) = text_of (title ∷ "  —  fault-tolerance demo" ∷ [])
printed (step text) = text_of ("  ▸ " ∷ text ∷ [])
printed (ok text) = text_of ("  ✓ " ∷ text ∷ [])
printed (recover text) = text_of ("  ⟳ " ∷ text ∷ [])
printed (retry text) = text_of ("  ⚠ " ∷ text ∷ [])
printed (breaker text) = text_of ("  ◍ " ∷ text ∷ [])
printed (dead text) = text_of ("  ☠ " ∷ text ∷ [])
printed (footer demonstrated failed) =
    text_of ("  " ∷ decimal demonstrated ∷ " demonstrated, " ∷ decimal failed ∷ " failed" ∷ [])

pub record Timeline : Type 0 where
  pub said : List Line
  pub crashed : List Message
  pub fresh : List Message
  pub observed : List Message
  pub breaker_opened : Bool
  pub attempts : ℕ
  pub main : List Message
  pub dlq : List Message

abbrev pub add_line : Line → Timeline → Timeline
add_line line l = record l { said = l.said ++ line ∷ [] }

-- `onEvent`
unfoldable pub on_event : ResilienceEvent → Timeline → Timeline
on_event (retried attempt reason) l =
    add_line (retry (text_of ("retry #" ∷ decimal attempt ∷ " after transient fault" ∷ []))) l
on_event breaker_open l =
    add_line (breaker "circuit OPENED — failing fast to protect the broker")
      (record l { breaker_opened = true })
on_event breaker_half_open l = add_line (breaker "circuit HALF-OPEN — probing for recovery") l
on_event breaker_close l = add_line (breaker "circuit CLOSED — fully recovered") l

-- The raw adapter; `decorate` makes `FaultInjectingBus` and `ResilientScheduler` over it anew, the
-- latter with its options and its listener, and the last two are operations of these decorators.
pub record DemoStage (W Token : Type 0) : Type 0 where
  pub name : String
  pub connect : Op W Unit
  pub connect_bus : Op W Unit
  pub dispose : Op W Unit
  pub bus : BusStage Timeline W Token
  pub assign : (Timeline → Timeline) → Op W Unit
  pub decorate : ResilienceOptions → (ResilienceEvent → Timeline → Timeline) → Op W Unit
  pub inject_failures : ℕ → Op W Unit
  pub resilient_publish : String → String → Op W Unit
