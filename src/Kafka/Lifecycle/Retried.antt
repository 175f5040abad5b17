-- ===== src/Kafka/Lifecycle/Retried.antt =====
-- What a connect that failed leaves behind.
use messaging_poc.Common.{true, none, some, ◌≡◌, refl, ap, ◌∙◌, ℕ_eq}
use messaging_poc.Port.{Op, Outcome, Failure, returned, threw, after}
use messaging_poc.Scenarios.Program.{◌>>=◌, ◌>>◌}
use messaging_poc.Kafka.Lifecycle.{
  KafkaJs, KafkaAdapter, landed, ensure_producer, ensure_admin, ensure_client,
}

module _ {B : Type 0} (js : KafkaJs B) where
  -- The adapter after a connect that failed at the producer.
  abbrev pub half_connected : KafkaAdapter B → B → KafkaAdapter B
  half_connected s b = record s {
    has_client = true;
    producer = some (js.new_producer s.js).0;
    js = b;
  }

  landed_threw :
      (t : KafkaAdapter B) (e : Failure) (b : B) (o : Outcome Unit × B)
      → o ≡ (threw e, b)
      → landed t o ≡ (threw e, record t { js = b })
  landed_threw t e b (returned u, b') same = absurd (cc)
  landed_threw t e b (threw f, b') same = cc

  ensure_producer-threw :
      (s : KafkaAdapter B) (e : Failure) (b : B)
      → js.connect_producer (js.new_producer s.js).0 (js.new_producer s.js).1 ≡ (threw e, b)
      → ensure_producer js none s
        ≡ (threw e, record s { producer = some (js.new_producer s.js).0; js = b })
  unfolding ensure_producer ◌>>=◌ ◌>>◌
  ensure_producer-threw s e b fails =
      landed_threw
        (record s { producer = some (js.new_producer s.js).0; js = (js.new_producer s.js).1 }) e b _
        fails

  after_threw :
      (next : Unit → Op (KafkaAdapter B) Unit) (o : Outcome Unit × KafkaAdapter B) (e : Failure)
      (t : KafkaAdapter B)
      → o ≡ (threw e, t)
      → after next o ≡ (threw e, t)
  after_threw next (returned u, w) e t same = absurd (cc)
  after_threw next (threw f, w) e t same = same

  -- If an adapter has no producer yet and the connect of its new producer throws, `connect` throws that
  -- error; and the next `connect` does not connect the producer: it goes straight to the admin, and
  -- does as on an adapter whose producer is connected.
  pub ensure_client-half_connected :
      (s : KafkaAdapter B) (e : Failure) (b : B)
      → s.producer ≡ none
      → js.connect_producer (js.new_producer s.js).0 (js.new_producer s.js).1 ≡ (threw e, b)
      → (ensure_client js s ≡ (threw e, half_connected s b))
        × (ensure_client js (half_connected s b) ≡ ensure_admin js s.admin (half_connected s b))
  unfolding ensure_client ensure_producer ◌>>=◌ ◌>>◌
  ensure_client-half_connected s e b fresh fails = (
    after_threw _ _ e (half_connected s b) (
        ap (λ p. ensure_producer js p (record s { has_client = true })) fresh
        ∙ ensure_producer-threw (record s { has_client = true }) e b fails),
    refl,
  )
