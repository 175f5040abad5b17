-- ===== src/Kafka/Lifecycle.antt =====
-- typescript/src/adapters/kafka.ts: the clients, the topics and the consumers of `KafkaScheduler`, with
-- calls of kafkajs that may throw. A producer, an admin and a consumer of kafkajs are known by numbers.
pub mod Retried
use messaging_poc.Common.{
  ℕ, String, List, [], ◌∷◌, ◌++◌, Bool, true, false, not, Option, none, some, if◌then◌else◌,
  contains, erase, string_eq, ℕ_eq,
}
use messaging_poc.Abstractions.{Destination}
use messaging_poc.Port.{Op, Outcome, returned, threw}
use messaging_poc.Scenarios.Program.{◌>>=◌, ◌>>◌, ◌catch◌, pure, done, observe, total, together}
use messaging_poc.Kafka.{KafkaTopics}

-- kafkajs, with a state `B` of its own and of the broker.
pub record KafkaJs (B : Type 0) : Type 0 where
  pub new_producer : B → ℕ × B
  pub connect_producer : ℕ → Op B Unit
  pub disconnect_producer : ℕ → Op B Unit
  pub new_admin : B → ℕ × B
  pub connect_admin : ℕ → Op B Unit
  pub disconnect_admin : ℕ → Op B Unit
  pub create_topics : ℕ → Destination → ℕ → Op B Unit
  pub new_consumer : String → B → ℕ × B
  pub connect_consumer : ℕ → Op B Unit
  pub subscribe_consumer : ℕ → Destination → Op B Unit
  pub run_consumer : ℕ → Op B Unit
  pub disconnect_consumer : ℕ → Op B Unit

-- The fields of `KafkaScheduler`, beside kafkajs.
pub record KafkaAdapter (B : Type 0) : Type 0 where
  pub has_client : Bool
  pub producer : Option ℕ
  pub admin : Option ℕ
  pub consumers : List ℕ
  pub topics : KafkaTopics
  pub js : B

module _ {B : Type 0} where
  abbrev pub landed : {A : Type 0} → KafkaAdapter B → Outcome A × B → Outcome A × KafkaAdapter B
  landed s (o, b) = (o, record s { js = b })

  -- A call of kafkajs.
  abbrev pub calls : {A : Type 0} → Op B A → Op (KafkaAdapter B) A
  calls op s = landed s (op s.js)

  abbrev pub makes : {A : Type 0} → (B → A × B) → Op (KafkaAdapter B) A
  makes f s = let (a, b) = f s.js in (returned a, record s { js = b })

  abbrev pub changes : (KafkaAdapter B → KafkaAdapter B) → Op (KafkaAdapter B) Unit
  changes f s = (returned tt, f s)

module _ {B : Type 0} (js : KafkaJs B) where
  -- `this.producer` is set before it is connected, and so is `this.admin`.
  unfoldable pub ensure_producer : Option ℕ → Op (KafkaAdapter B) Unit
  unfolding ◌>>=◌ ◌>>◌
  ensure_producer (some p) = done
  ensure_producer none = do
    p ← makes js.new_producer
    changes (λ s. record s { producer = some p })
    calls (js.connect_producer p)

  unfoldable pub ensure_admin : Option ℕ → Op (KafkaAdapter B) Unit
  unfolding ◌>>=◌ ◌>>◌
  ensure_admin (some a) = done
  ensure_admin none = do
    a ← makes js.new_admin
    changes (λ s. record s { admin = some a })
    calls (js.connect_admin a)

  -- `ensureClient`, which is `connect` and `connectBus`.
  unfoldable pub ensure_client : Op (KafkaAdapter B) Unit
  unfolding ◌>>=◌ ◌>>◌ ensure_producer ensure_admin
  ensure_client = do
    changes (λ s. record s { has_client = true })
    p ← observe (λ s. s.producer)
    ensure_producer p
    a ← observe (λ s. s.admin)
    ensure_admin a

  -- `ensureTopic`: a topic is known only after `createTopics` succeeded.
  unfoldable pub create_topic : ℕ → Destination → Bool → Op (KafkaAdapter B) Unit
  unfolding ◌>>◌
  create_topic admin topic true = done
  create_topic admin topic false = do
    calls (js.create_topics admin topic 3)
    changes (λ s. record s { topics = s.topics ++ topic ∷ [] })

  -- `startConsumer`, up to the loop that calls the handler; the result is the consumer that
  -- `unsubscribe` takes.
  unfoldable pub start_consumer : Destination → String → Op (KafkaAdapter B) ℕ
  unfolding ◌>>=◌ ◌>>◌
  start_consumer topic group_id = do
    c ← makes (js.new_consumer group_id)
    calls (js.connect_consumer c)
    calls (js.subscribe_consumer c topic)
    changes (λ s. record s { consumers = s.consumers ++ c ∷ [] })
    calls (js.run_consumer c)
    pure c

  -- `unsubscribe`: what `disconnect` throws is forgotten.
  unfoldable pub unsubscribe_consumer : ℕ → Op (KafkaAdapter B) Unit
  unfolding ◌>>◌ ◌catch◌
  unsubscribe_consumer c = do
    calls (js.disconnect_consumer c) catch λ e. done
    changes (λ s. record s { consumers = erase s.consumers c })

  -- `Promise.allSettled`
  unfoldable pub disconnect_all : List ℕ → Op (KafkaAdapter B) Unit
  unfolding ◌>>◌ ◌catch◌
  disconnect_all [] = done
  disconnect_all (c ∷ cs) = (calls (js.disconnect_consumer c) catch λ e. done) >> disconnect_all cs

  abbrev pub if_there : (ℕ → Op B Unit) → Option ℕ → Op (KafkaAdapter B) Unit
  if_there f none = done
  if_there f (some n) = calls (f n)

  -- `[Symbol.asyncDispose]`
  unfoldable pub dispose_kafka : Op (KafkaAdapter B) Unit
  unfolding ◌>>=◌ ◌>>◌ disconnect_all
  dispose_kafka = do
    cs ← observe (λ s. s.consumers)
    disconnect_all cs
    changes (λ s. record s { consumers = [] })
    p ← observe (λ s. s.producer)
    if_there js.disconnect_producer p
    a ← observe (λ s. s.admin)
    if_there js.disconnect_admin a
