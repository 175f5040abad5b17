-- ===== src/Port.antt =====
-- typescript/src/abstractions/message-scheduler.ts, message-bus.ts and errors.ts: the two ports as a record
-- of operations on the state of an adapter, and the errors that they throw. A promise that is awaited
-- is the outcome of its operation. What an adapter returns for a schedule, for an entry of a list and
-- for a subscription is the adapter's own (`Handle`, `Info`, `Token`).
use messaging_poc.Common.{
  ℕ, String, List, [], ◌∷◌, text_of, Bool, true, false, Option, none, some, ◌≡◌,
}
use messaging_poc.Abstractions.{
  Destination, AckHandler, MessageHandler, PublishOptions, SubscribeOptions, Capabilities, truthy,
}
use Prim.Native.String

-- `NotSupportedError`, `IdempotencyStoreDownError` and any other `Error`, by its text.
pub data Failure : Type 0 where
  not_supported : String → String → Option String → Failure
  store_down : String → Option String → Failure
  error : String → Failure

-- `reason ? ': ' + reason : ''`
because : Option String → String
unfolding truthy
because reason = elim (truthy reason) [ none ↦ "" | some text ↦ String.◌++◌ ": " text ]

-- The text that the constructors pass to `Error`.
unfoldable pub failure_message : Failure → String
unfolding because
failure_message (not_supported operation broker reason) =
    text_of ("Operation '" ∷ operation ∷ "' is not supported by " ∷ broker ∷ because reason ∷ [])
failure_message (store_down store reason) =
    text_of ("'" ∷ store ∷ "' Idempotency Store is down or not present" ∷ because reason ∷ [])
failure_message (error text) = text

-- `err instanceof NotSupportedError`
abbrev pub is_not_supported : Failure → Bool
is_not_supported (not_supported operation broker reason) = true
is_not_supported (store_down store reason) = false
is_not_supported (error text) = false

pub data Outcome (A : Type 0) : Type 0 where
  returned : A → Outcome A
  threw : Failure → Outcome A

-- An operation of an adapter with state `S`.
abbrev pub Op : Type 0 → Type 0 → Type 0
Op S A = S → Outcome A × S

-- `IMessageScheduler & IMessageBus`
pub record Port (S Handle Info Token : Type 0) : Type 0 where
  pub name : String
  pub capabilities : Capabilities
  pub connect : Op S Unit
  pub send_now : Destination → String → Op S Unit
  pub schedule : Destination → String → ℕ → Op S Handle
  pub cancel : Handle → Op S Unit
  pub list_scheduled : Destination → Op S (List Info)
  pub consume : Destination → MessageHandler → Op S Token
  pub connect_bus : Op S Unit
  pub publish : Destination → String → Option String → Option PublishOptions → Op S Unit
  pub subscribe : Destination → AckHandler → Option SubscribeOptions → Op S Token
  pub dispose : Op S Unit

-- An operation that throws `NotSupportedError` in the states `Ready` and does nothing else.
pub record IsRefused {S A : Type 0} (operation : String) (Ready : S → Type 0) (op : Op S A)
    : Type 0 where
  pub broker : String
  pub reason : Option String
  pub refuses : (s : S) → Ready s → op s ≡ (threw (not_supported operation broker reason), s)

-- The part of the scheduler port that its contract is about.
pub record Scheduling (S Handle Info : Type 0) : Type 0 where
  pub name : String
  pub capabilities : Capabilities
  pub cancel : Handle → Op S Unit
  pub list_scheduled : Destination → Op S (List Info)

abbrev pub scheduling_of :
    {S Handle Info Token : Type 0} → Port S Handle Info Token → Scheduling S Handle Info
scheduling_of p = record {
  name = p.name;
  capabilities = p.capabilities;
  cancel = p.cancel;
  list_scheduled = p.list_scheduled;
}

-- The contract of the scheduler port: `cancel` and `listScheduled` throw `NotSupportedError` where the
-- capabilities say that they are unsupported.
pub record IsHonest {S Handle Info : Type 0} (Ready : S → Type 0) (p : Scheduling S Handle Info)
    : Type 0 where
  pub cancel_refused :
      p.capabilities.supports_cancel ≡ false → (h : Handle) → IsRefused "cancel" Ready (p.cancel h)
  pub list_refused :
      p.capabilities.supports_list ≡ false
      → (d : Destination) → IsRefused "listScheduled" Ready (p.list_scheduled d)

-- `await`, an operation after another.
abbrev pub after : {S A B : Type 0} → (A → Op S B) → Outcome A × S → Outcome B × S
after next (returned a, s) = next a s
after next (threw e, s) = (threw e, s)
