-- ===== src/Registry/Contract.antt =====
-- What `createScheduler` makes keeps the contract of the scheduler port.
use messaging_poc.Common.{
  String, Option, none, some, lookup, true, false, Bool, ◌≡◌, refl, ◌⊎◌, inl, inr, contains,
  string_eq, ◌==◌, Bool-cases,
}
use messaging_poc.Port.{Failure, Op, Scheduling, IsHonest}
use messaging_poc.Resilience.{Policies, Documented, default_resilience}
use messaging_poc.Resilience.Pipeline.{IsClosed, resilient_scheduling-IsHonest}
use messaging_poc.Kafka.Consumers.{kafka_scheduling}
use messaging_poc.RabbitMq.Delayed.{rabbit_scheduling}
use messaging_poc.Artemis.Jolokia.{JolokiaRequest, HttpReply}
use messaging_poc.Artemis.Management.{artemis_scheduling}
use messaging_poc.Registry.{
  Adapter, raw, protected, known_brokers, unknown_broker, registry, wrapped, from_factory,
  create_scheduler, in_memory_scheduling,
}

kafka_scheduling-IsHonest : IsHonest (λ s. Unit) kafka_scheduling
kafka_scheduling-IsHonest = record {
  cancel_refused = λ off h. record { broker = _; reason = _; refuses = λ s r. refl };
  list_refused = λ off d. record { broker = _; reason = _; refuses = λ s r. refl };
}

rabbit_scheduling-IsHonest : IsHonest (λ s. Unit) rabbit_scheduling
rabbit_scheduling-IsHonest = record {
  cancel_refused = λ off h. record { broker = _; reason = _; refuses = λ s r. refl };
  list_refused = λ off d. record { broker = _; reason = _; refuses = λ s r. refl };
}

in_memory_scheduling-IsHonest : IsHonest (λ s. Unit) in_memory_scheduling
in_memory_scheduling-IsHonest = record {
  cancel_refused = λ off h. absurd (cc);
  list_refused = λ off d. absurd (cc);
}

module _ {Circuit S : Type 0} (p : Policies Circuit) (d : Documented p)
    (fetch : JolokiaRequest → Op S HttpReply) where
  artemis_scheduling-IsHonest : IsHonest (λ s. Unit) (artemis_scheduling fetch)
  artemis_scheduling-IsHonest = record {
    cancel_refused = λ off h. absurd (cc);
    list_refused = λ off d. absurd (cc);
  }

  -- In every state of a raw adapter, and while the circuit of a protected one is closed.
  abbrev IsHonestAdapter : Adapter Circuit → Type 0
  IsHonestAdapter (raw q) = IsHonest (λ s. Unit) q
  IsHonestAdapter (protected q) = IsHonest (IsClosed d (λ s. Unit)) q

  honest :
      {T H I : Type 0} (resilient : Bool) (q : Scheduling T H I)
      → IsHonest (λ s. Unit) q
      → IsHonestAdapter (wrapped p fetch resilient (raw q))
  honest false q h = h
  honest true q h = resilient_scheduling-IsHonest p d default_resilience (λ s. Unit) q h

  -- What the registry has under a name.
  data IsRegistered (id : String) : Option (Adapter Circuit) → Type 1 where
    known :
        {T H I : Type 0} (q : Scheduling T H I)
        → contains known_brokers id ≡ true
        → IsHonest (λ s. Unit) q
        → IsRegistered id (some (raw q))
    unknown : contains known_brokers id ≡ false → IsRegistered id none

  registry-IsRegistered : (id : String) → IsRegistered id (lookup (registry p fetch) id)
  registry-IsRegistered id = elim (Bool-cases ("artemis" == id)) [
    | inl a ↦ rw (a, registry) (known _ (rw (a, known_brokers) refl) artemis_scheduling-IsHonest)
    | inr a ↦ elim (Bool-cases ("rabbitmq" == id)) [
      | inl b ↦
          rw (a, b, registry) (known _ (rw (a, b, known_brokers) refl) rabbit_scheduling-IsHonest)
      | inr b ↦ elim (Bool-cases ("kafka" == id)) [
        | inl c ↦
            rw (a, b, c, registry)
              (known _ (rw (a, b, c, known_brokers) refl) kafka_scheduling-IsHonest)
        | inr c ↦ elim (Bool-cases ("in-memory" == id)) [
          | inl m ↦
              rw (a, b, c, m, registry)
                (known _ (rw (a, b, c, m, known_brokers) refl) in_memory_scheduling-IsHonest)
          | inr m ↦ rw (a, b, c, m, registry) (unknown (rw (a, b, c, m, known_brokers) refl))
        ]
      ]
    ]
  ]

  module _ (inherited : String → Option (Failure ⊎ Adapter Circuit)) where
    -- An adapter that keeps the contract for a known broker; for another name the error that lists the
    -- brokers, unless the registry inherits the name.
    pub data IsCreated (id : String) (resilient : Bool) : Failure ⊎ Adapter Circuit → Type 1 where
      adapter :
          (a : Adapter Circuit)
          → contains known_brokers id ≡ true
          → IsHonestAdapter a
          → IsCreated id resilient (inr a)
      refusal :
          contains known_brokers id ≡ false
          → inherited id ≡ none
          → IsCreated id resilient (inl (unknown_broker id))
      accident :
          (made : Failure ⊎ Adapter Circuit)
          → contains known_brokers id ≡ false
          → inherited id ≡ some made
          → IsCreated id resilient (from_factory p fetch resilient made)

    IsCreated-from :
        (id : String) (resilient : Bool) (found : Option (Adapter Circuit))
        (made : Option (Failure ⊎ Adapter Circuit))
        → lookup (registry p fetch) id ≡ found
        → inherited id ≡ made
        → IsRegistered id found
        → IsCreated id resilient (create_scheduler p fetch inherited id resilient)
    unfolding create_scheduler
    IsCreated-from id resilient (some s) made e _ (known q k h) =
        rw (e, create_scheduler) (adapter _ k (honest resilient q h))
    IsCreated-from id resilient none none e f (unknown k) =
        rw (e, f, create_scheduler) (refusal k f)
    IsCreated-from id resilient none (some made) e f (unknown k) =
        rw (e, f, create_scheduler) (accident made k f)

    -- For a known broker, `createScheduler` gives an adapter that keeps the contract of the scheduler port:
    -- where its capabilities do not support them, `cancel` and `listScheduled` throw `NotSupportedError`
    -- and do nothing else, under the policies too while their circuit is closed. For another name it
    -- throws the error that lists the brokers, unless every JavaScript object answers to the name: then
    -- what the function of that name gives is taken for an adapter.
    pub create_scheduler-IsCreated :
        (id : String) (resilient : Bool)
        → IsCreated id resilient (create_scheduler p fetch inherited id resilient)
    create_scheduler-IsCreated id resilient =
        IsCreated-from id resilient _ _ refl refl (registry-IsRegistered id)
