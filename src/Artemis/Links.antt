-- ===== src/Artemis/Links.antt =====
-- typescript/src/adapters/artemis.ts: the connection, the caches of senders, the receivers and `dispose`, with
-- calls of rhea that may throw. A connection, a sender and a receiver of rhea are known by numbers; a
-- call of `once` waits for an event and throws at an error.
pub mod Cached
use messaging_poc.Common.{
  ℕ, String, List, [], ◌∷◌, map, Bool, true, false, Option, none, some, if◌then◌else◌, lookup,
  insert, string_eq,
}
use messaging_poc.Abstractions.{Destination}
use messaging_poc.Artemis.Management.{fqqn}
use messaging_poc.Port.{Op, Outcome, returned, threw}
use messaging_poc.Scenarios.Program.{◌>>=◌, ◌>>◌, pure, done, observe, each}

-- rhea, with a state `R` of its own and of the broker. A sender is opened with a capability.
pub record Rhea (R : Type 0) : Type 0 where
  pub connect : R → ℕ × R
  pub connection_is_open : ℕ → R → Bool
  pub connection_open : ℕ → Op R Unit
  pub close_connection : ℕ → Op R Unit
  pub open_sender : Option ℕ → String → String → R → ℕ × R
  pub sender_is_open : ℕ → R → Bool
  pub sendable : ℕ → Op R Unit
  pub close_sender : ℕ → Op R Unit
  pub open_receiver : Option ℕ → String → String → R → ℕ × R
  pub receiver_open : ℕ → Op R Unit
  pub remove_listener : ℕ → Op R Unit
  pub close_receiver : ℕ → Op R Unit

-- The fields of `ArtemisScheduler`, beside rhea.
pub record ArtemisLinks (R : Type 0) : Type 0 where
  pub connection : Option ℕ
  pub senders : List (String × ℕ)
  pub bus_senders : List (String × ℕ)
  pub rhea : R

module _ {R : Type 0} where
  abbrev pub landed : {A : Type 0} → ArtemisLinks R → Outcome A × R → Outcome A × ArtemisLinks R
  landed s (o, r) = (o, record s { rhea = r })

  abbrev pub calls : {A : Type 0} → Op R A → Op (ArtemisLinks R) A
  calls op s = landed s (op s.rhea)

  abbrev pub makes : {A : Type 0} → (R → A × R) → Op (ArtemisLinks R) A
  makes f s = let (a, r) = f s.rhea in (returned a, record s { rhea = r })

  abbrev pub changes : (ArtemisLinks R → ArtemisLinks R) → Op (ArtemisLinks R) Unit
  changes f s = (returned tt, f s)

-- `x && x.is_open()`
unfoldable pub if_open : {R : Type 0} → (ℕ → R → Bool) → R → Option ℕ → Option ℕ
if_open is_open r none = none
if_open is_open r (some n) = if is_open n r then some n else none

module _ {R : Type 0} (rhea : Rhea R) where
  -- The rest of `ensureConnection` after its test.
  unfoldable pub connect_unless : Option ℕ → Op (ArtemisLinks R) ℕ
  unfolding ◌>>=◌ ◌>>◌
  connect_unless (some c) = pure c
  connect_unless none = do
    c ← makes rhea.connect
    changes (λ s. record s { connection = some c })
    calls (rhea.connection_open c)
    pure c

  -- `ensureConnection`, which is `connect` and `connectBus`.
  unfoldable pub ensure_connection : Op (ArtemisLinks R) ℕ
  unfolding ◌>>=◌ if_open connect_unless
  ensure_connection = do
    open_one ← observe (λ s. if_open rhea.connection_is_open s.rhea s.connection)
    connect_unless open_one

  -- The rest of `getSender` after its test: a sender is kept once it is sendable.
  unfoldable pub open_unless : String → Option ℕ → Op (ArtemisLinks R) ℕ
  unfolding ◌>>=◌ ◌>>◌
  open_unless address (some sender) = pure sender
  open_unless address none = do
    c ← observe (λ s. s.connection)
    sender ← makes (rhea.open_sender c address "queue")
    calls (rhea.sendable sender)
    changes (λ s. record s { senders = insert s.senders address sender })
    pure sender

  unfoldable pub get_sender : Destination → Op (ArtemisLinks R) ℕ
  unfolding ◌>>=◌ if_open open_unless
  get_sender destination = do
    open_one ←
        observe (λ s. if_open rhea.sender_is_open s.rhea (lookup s.senders (fqqn destination)))
    open_unless (fqqn destination) open_one

  -- The same of `getBusSender`.
  unfoldable pub open_bus_unless : Destination → Option ℕ → Op (ArtemisLinks R) ℕ
  unfolding ◌>>=◌ ◌>>◌
  open_bus_unless address (some sender) = pure sender
  open_bus_unless address none = do
    c ← observe (λ s. s.connection)
    sender ← makes (rhea.open_sender c address "topic")
    calls (rhea.sendable sender)
    changes (λ s. record s { bus_senders = insert s.bus_senders address sender })
    pure sender

  unfoldable pub get_bus_sender : Destination → Op (ArtemisLinks R) ℕ
  unfolding ◌>>=◌ if_open open_bus_unless
  get_bus_sender address = do
    open_one ← observe (λ s. if_open rhea.sender_is_open s.rhea (lookup s.bus_senders address))
    open_bus_unless address open_one

  -- `consume`, up to the listener; the result is the receiver that `unsubscribe` takes.
  unfoldable pub artemis_consume : Destination → Op (ArtemisLinks R) ℕ
  unfolding ◌>>=◌ ◌>>◌
  artemis_consume destination = do
    c ← observe (λ s. s.connection)
    receiver ← makes (rhea.open_receiver c (fqqn destination) "queue")
    calls (rhea.receiver_open receiver)
    pure receiver

  unfoldable pub close_listener : ℕ → Op (ArtemisLinks R) Unit
  unfolding ◌>>◌
  close_listener receiver = do
    calls (rhea.remove_listener receiver)
    calls (rhea.close_receiver receiver)

  -- `[Symbol.asyncDispose]`
  unfoldable pub dispose_artemis : Op (ArtemisLinks R) Unit
  unfolding ◌>>=◌ ◌>>◌ each
  dispose_artemis = do
    s ← observe (λ s. s)
    each s.senders λ entry. calls (rhea.close_sender entry.1)
    each s.bus_senders λ entry. calls (rhea.close_sender entry.1)
    elim s.connection [ none ↦ done | some c ↦ calls (rhea.close_connection c) ]
