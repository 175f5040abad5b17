-- ===== src/RabbitMq/Channels.antt =====
-- typescript/src/adapters/rabbitmq.ts: the connection and the channel of `RabbitMqScheduler`, with calls of
-- amqplib that may throw. A connection and a channel of amqplib are known by numbers.
use messaging_poc.Common.{ℕ, String, Bool, true, Option, none, some}
use messaging_poc.Port.{Op, Outcome, returned}
use messaging_poc.Scenarios.Program.{◌>>=◌, ◌>>◌, pure, done, observe}

-- amqplib, with a state `A` of its own and of the broker. An exchange has a name, a type and the value
-- of `x-delayed-type`, and is durable or not.
pub record Amqp (A : Type 0) : Type 0 where
  pub connect : String → Op A ℕ
  pub create_channel : ℕ → Op A ℕ
  pub prefetch : ℕ → ℕ → Op A Unit
  pub assert_exchange : ℕ → String → String → Bool → String → Op A Unit
  pub cancel_consumer : Option ℕ → String → Op A Unit
  pub close_channel : ℕ → Op A Unit
  pub close_model : ℕ → Op A Unit

-- The fields of `RabbitMqScheduler` that hold a connection, beside amqplib.
pub record RabbitLinks (A : Type 0) : Type 0 where
  pub model : Option ℕ
  pub channel : Option ℕ
  pub amqp : A

module _ {A : Type 0} where
  abbrev pub landed : {X : Type 0} → RabbitLinks A → Outcome X × A → Outcome X × RabbitLinks A
  landed s (o, a) = (o, record s { amqp = a })

  abbrev pub calls : {X : Type 0} → Op A X → Op (RabbitLinks A) X
  calls op s = landed s (op s.amqp)

  abbrev pub changes : (RabbitLinks A → RabbitLinks A) → Op (RabbitLinks A) Unit
  changes f s = (returned tt, f s)

  abbrev pub if_there : (ℕ → Op A Unit) → Option ℕ → Op (RabbitLinks A) Unit
  if_there f none = done
  if_there f (some n) = calls (f n)

module _ {A : Type 0} (amqp : Amqp A) (url exchange : String) where
  -- `if (!this.model)`: the field is set once the connection is there.
  unfoldable pub ensure_model : Option ℕ → Op (RabbitLinks A) ℕ
  unfolding ◌>>=◌ ◌>>◌
  ensure_model (some m) = pure m
  ensure_model none = do
    m ← calls (amqp.connect url)
    changes (λ s. record s { model = some m })
    pure m

  -- `if (!this.channel)`: the field is set before the prefetch.
  unfoldable pub channel_unless : ℕ → Option ℕ → Op (RabbitLinks A) ℕ
  unfolding ◌>>=◌ ◌>>◌
  channel_unless model (some c) = pure c
  channel_unless model none = do
    c ← calls (amqp.create_channel model)
    changes (λ s. record s { channel = some c })
    calls (amqp.prefetch c 1)
    pure c

  -- `ensureChannel`, which is `connectBus`.
  unfoldable pub ensure_channel : Op (RabbitLinks A) ℕ
  unfolding ◌>>=◌ ensure_model channel_unless
  ensure_channel = do
    known ← observe (λ s. s.model)
    m ← ensure_model known
    c ← observe (λ s. s.channel)
    channel_unless m c

  -- `connect`
  unfoldable pub connect_rabbit : Op (RabbitLinks A) Unit
  unfolding ◌>>=◌ ensure_channel
  connect_rabbit = do
    c ← ensure_channel
    calls (amqp.assert_exchange c exchange "x-delayed-message" true "direct")

  -- The `unsubscribe` of `consume`.
  unfoldable pub cancel_consume : String → Op (RabbitLinks A) Unit
  unfolding ◌>>=◌
  cancel_consume consumer_tag = do
    c ← observe (λ s. s.channel)
    calls (amqp.cancel_consumer c consumer_tag)

  -- `[Symbol.asyncDispose]`
  unfoldable pub dispose_rabbit : Op (RabbitLinks A) Unit
  unfolding ◌>>=◌ ◌>>◌
  dispose_rabbit = do
    c ← observe (λ s. s.channel)
    if_there amqp.close_channel c
    m ← observe (λ s. s.model)
    if_there amqp.close_model m
