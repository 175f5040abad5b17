-- ===== src/Scenarios/Stage.antt =====
-- What a scenario sees of an adapter: the operations of a port in the world `W` of the adapter, whose
-- handlers read and change the local variables `L` of the scenario. What the adapter does, and when
-- it calls the handlers, is not fixed. The collectors are here too.
use messaging_poc.Common.{
  ℕ, String, List, [], ◌∷◌, Bool, true, false, Option, none, some, text_of, is_empty,
}
use messaging_poc.Abstractions.{Destination, PublishOptions, SubscribeOptions, BusCapabilities}
use messaging_poc.Port.{Op, Failure}
use messaging_poc.Runner.Waiting.{react, hooked, acked, left}
use messaging_poc.Scenarios.Program.{◌>>=◌, pure}

-- What a handler gets, as far as the scenarios read it.
pub record Message : Type 0 where
  pub body : String
  pub delivery_count : Option ℕ
  pub reply_to : Option String
  pub correlation_id : Option String

-- A step of a handler: a settlement, a throw, a publish, a wait, an assignment to the variables, and an
-- `ack` under `try`: the error that it throws is assigned, and `true` means that another `ack` follows.
pub data Act (L : Type 0) : Type 0 where
  acks : Act L
  nacks : Bool → Act L
  acks_else : (Failure → L → L) → Bool → Act L
  throws : String → Act L
  publishes : Destination → String → PublishOptions → Act L
  waits : ℕ → Act L
  assigns : (L → L) → Act L

-- A handler, from the message, the time and the variables when it is called.
abbrev pub Handler : Type 0 → Type 0
Handler L = Message → ℕ → L → List (Act L)

-- The bus port. `nonce` and the clock are those of the process.
pub record BusStage (L W Token : Type 0) : Type 0 where
  pub capabilities : BusCapabilities
  pub variables : W → L
  pub clock : W → ℕ
  pub nonce : Op W String
  pub publish : Destination → String → Option String → PublishOptions → Op W Unit
  pub subscribe : Destination → Handler L → SubscribeOptions → Op W Token
  pub unsubscribe : Token → Op W Unit
  pub wait_until : (L → Bool) → ℕ → Op W Bool
  pub delay : ℕ → Op W Unit

-- The scheduler port. The handler of `MessageCollector` gets a body. `handle_of` is the literal
-- `{ id, destination, deliverAt }` with the id of an entry of the list.
pub record SchedulerStage (L W Handle Info Token : Type 0) : Type 0 where
  pub variables : W → L
  pub clock : W → ℕ
  pub nonce : Op W String
  pub send_now : Destination → String → Op W Unit
  pub schedule : Destination → String → ℕ → Op W Handle
  pub cancel : Handle → Op W Unit
  pub list_scheduled : Destination → Op W (List Info)
  pub handle_of : Info → Destination → ℕ → Handle
  pub consume : Destination → (String → L → L) → Op W Token
  pub unsubscribe : Token → Op W Unit
  pub wait_until : (L → Bool) → ℕ → Op W Bool
  pub delay : ℕ → Op W Unit

-- A name that ends in a fresh nonce.
unfoldable pub named : {W : Type 0} → Op W String → String → Op W String
unfolding ◌>>=◌
named nonce prefix = do n ← nonce; pure (text_of (prefix ∷ n ∷ []))

-- The handler of `AckCollector`: it keeps the message and then calls the hook, or acks.
unfoldable pub collector :
    {L : Type 0} → (Message → L → L) → Option (Handler L) → Option Bool → Handler L
collector keep none auto_ack m now l =
    assigns (keep m) ∷ (elim (react false auto_ack) [ hooked ↦ [] | acked ↦ acks ∷ [] | left ↦ [] ])
collector keep (some hook) auto_ack m now l = assigns (keep m) ∷ hook m now (keep m l)

-- `AckCollector.start`
unfoldable pub start :
    {L W Token : Type 0}
    → BusStage L W Token
    → Destination
    → (Message → L → L)
    → Option (Handler L)
    → Option Bool
    → SubscribeOptions
    → Op W Token
unfolding collector
start bus topic keep hook auto_ack options =
    bus.subscribe topic (collector keep hook auto_ack) options

-- `received.length >= 1`
abbrev pub has_some : {A : Type 0} → List A → Bool
has_some xs = elim (is_empty xs) [ true ↦ false | false ↦ true ]
