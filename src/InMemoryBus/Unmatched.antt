-- ===== src/InMemoryBus/Unmatched.antt =====
-- A publish and the queues that it does not match.
use messaging_poc.Common.{
  ℕ, ◌+◌, String, List, [], ◌∷◌, ◌++◌, Bool, true, false, Option, none, some, ◌≡◌, ◌≢◌, refl, sym,
  ap, ◌∙◌, arith, get_elem?, get_elem?-set_ne, keep, Bool-cases, Option-cases, inl, inr, ◌==◌,
  ==_iff, ℕ_eq, or_else, contains, string_eq,
}
use messaging_poc.Abstractions.{Destination, PublishOptions}
use messaging_poc.BusQueue.{BusQueue, matches, mem_bus}
use messaging_poc.Pump.{IncomingMessage, enqueue}
use messaging_poc.InMemoryBus.{
  InMemoryBus, Delivery, message, delivered, pump_after, admit, log_publish, publish_to,
  publish_all, topic_queues, publish,
}

-- What the consumers of a queue were handed.
abbrev pub deliveries_of : ℕ → InMemoryBus → List Delivery
deliveries_of r b = keep (λ (d : Delivery). d.queue == r) b.deliveries

-- The queue at `r` is as it was, and its consumers got nothing.
pub record IsUntouched (r : ℕ) (q : BusQueue) (b b' : InMemoryBus) : Type 0 where
  pub there : get_elem? b'.heap r ≡ some q
  pub silent : deliveries_of r b' ≡ deliveries_of r b

keep-delivered :
    (r i : ℕ) (ms : List IncomingMessage) (ds : List Delivery)
    → (i == r) ≡ false
    → keep (λ (d : Delivery). d.queue == r) (ds ++ delivered i ms)
      ≡ keep (λ (d : Delivery). d.queue == r) ds
keep-delivered r i [] [] other = refl
keep-delivered r i (m ∷ ms) [] other = rw other (keep-delivered r i ms [] other)
keep-delivered r i ms (d ∷ ds) other = elim (Bool-cases (d.queue == r)) [
  | inl yours ↦ rw yours (ap (λ t. d ∷ t) (keep-delivered r i ms ds other))
  | inr no_one ↦ rw no_one (keep-delivered r i ms ds other)
]

true-false : ◌≢◌ {A = Bool} true false
true-false e = cc

module _ (r : ℕ) (q : BusQueue) where
  pump_after-IsUntouched :
      (f : BusQueue → BusQueue) (i : ℕ) (b : InMemoryBus)
      → (i == r) ≡ false
      → get_elem? b.heap r ≡ some q
      → IsUntouched r q b (pump_after f i b)
  unfolding pump_after
  pump_after-IsUntouched f i b other there = elim (Option-cases (get_elem? b.heap i)) [
    | inl missing ↦ rw (missing, pump_after) (record { there = there; silent = refl })
    | inr (p, here) ↦
        rw (here, pump_after)
          (record {
            there =
                get_elem?-set_ne b.heap i r _ (λ e. absurd (ground (arith, ==_iff i r, e, other)))
                ∙ there;
            silent = keep-delivered r i _ b.deliveries other;
          })
  ]

  module _ (topic : Destination) (body k : String) (o : PublishOptions)
      (unmatched : matches q k ≡ false) where
    -- A queue that matches is another one.
    apart :
        (i : ℕ) (b : InMemoryBus) (p : BusQueue)
        → get_elem? b.heap i ≡ some p
        → matches p k ≡ true
        → get_elem? b.heap r ≡ some q
        → (i == r) ≡ false
    apart i b p here fits there = elim (Bool-cases (i == r)) [
      | inr other ↦ other
      | inl same ↦
          let e : i ≡ r = (==_iff i r).0 same in
          let one : some p ≡ some q = sym here ∙ (ap (λ j. get_elem? b.heap j) e ∙ there) in
          let equal : p ≡ q = cc in
          absurd (true-false (sym fits ∙ (ap (λ x. matches x k) equal ∙ unmatched)))
    ]

    publish_to-IsUntouched :
        (i : ℕ) (b : InMemoryBus)
        → get_elem? b.heap r ≡ some q
        → IsUntouched r q b (publish_to topic body k o i b)
    unfolding publish_to
    publish_to-IsUntouched i b there = elim (Option-cases (get_elem? b.heap i)) [
      | inl missing ↦ rw (missing, publish_to) (record { there = there; silent = refl })
      | inr (p, here) ↦ elim (Bool-cases (matches p k)) [
        | inr other ↦ rw (here, other, publish_to) (record { there = there; silent = refl })
        | inl fits ↦
            let f = enqueue (message b.next_object (mem_bus (b.seq + 1)) topic body k o) in
            let numbered : InMemoryBus = record b {
              seq = b.seq + 1;
              next_object = b.next_object + 1;
            } in
            let u = pump_after-IsUntouched f i numbered (apart i b p here fits there) there in
            rw (here, fits, publish_to) (record { there = u.there; silent = u.silent })
      ]
    ]

    publish_all-IsUntouched :
        (rs : List ℕ) (b : InMemoryBus)
        → get_elem? b.heap r ≡ some q
        → IsUntouched r q b (publish_all topic body k o rs b)
    unfolding publish_all
    publish_all-IsUntouched [] b there = record { there = there; silent = refl }
    publish_all-IsUntouched (i ∷ rs) b there =
        let first = publish_to-IsUntouched i b there in
        let rest = publish_all-IsUntouched rs (publish_to topic body k o i b) first.there in
        record { there = rest.there; silent = rest.silent ∙ first.silent }

pub admit-same :
    (d : Option String) (b b' : InMemoryBus)
    → admit d b ≡ some b'
    → (b'.heap ≡ b.heap) × (b'.deliveries ≡ b.deliveries)
unfolding admit
admit-same none b b' e =
    let same : b ≡ b' = cc in (ap (λ x. x.heap) (sym same), ap (λ x. x.deliveries) (sym same))
admit-same (some d) b b' e = elim (Bool-cases (contains b.seen_dedup_ids d)) [
  | inl seen ↦ absurd (ground arith)
  | inr fresh ↦
      let same : record b { seen_dedup_ids = b.seen_dedup_ids ++ d ∷ [] } ≡ b' = ground arith in
      (ap (λ x. x.heap) (sym same), ap (λ x. x.deliveries) (sym same))
]

-- A publish whose routing key a queue does not match leaves the queue as it is, and its consumers get
-- nothing, in whatever state the bus is.
pub publish-IsUntouched :
    (topic : Destination) (body : String) (routing_key : Option String) (o : PublishOptions) (r : ℕ)
    (q : BusQueue) (b : InMemoryBus)
    → get_elem? b.heap r ≡ some q
    → matches q (or_else routing_key topic) ≡ false
    → IsUntouched r q b (publish topic body routing_key o b)
unfolding publish log_publish
publish-IsUntouched topic body routing_key o r q b there unmatched =
    elim (Option-cases (admit o.dedup_id b)) [
      | inl repeated ↦ rw (repeated, publish) (record { there = there; silent = refl })
      | inr (b', admitted) ↦
          let (heap, sent) = admit-same o.dedup_id b b' admitted in
          let logged = log_publish topic body (or_else routing_key topic) o b' in
          let u =
            publish_all-IsUntouched r q topic body (or_else routing_key topic) o unmatched
              (topic_queues b' topic) logged (ap (λ h. get_elem? h r) heap ∙ there) in
          rw (admitted, publish)
            (record {
              there = u.there;
              silent = u.silent ∙ ap (λ ds. keep (λ (d : Delivery). d.queue == r) ds) sent;
            })
    ]
