-- ===== src/Pump/Pull.antt =====
-- What one round of `pump` takes out of a queue, whatever kind of queue it is.
use mathlib.Core.Option
use messaging_poc.Common.{
  ℕ, List, [], ◌∷◌, true, false, Option, none, some, ◌≡◌, refl, ap, sym, subst, inl, inr, arith,
  contains, lookup, ℕ_eq, string_eq, Bool-cases, ◌∙◌, ◌||◌, is_empty, length,
}
use messaging_poc.Abstractions.{AckHandler}
use messaging_poc.BusQueue.{
  BusMessage, BusQueue, busy, group, pick_free, next_consumer, next_pending, next_group_delivery,
  first, scan_groups,
}
use messaging_poc.BusQueue.Priority.{IsTaken, next_pending-IsBest}
use messaging_poc.BusQueue.Consumers.{pick_free-free, contains_get}
use messaging_poc.BusQueue.Groups.{KeepsPins}
use messaging_poc.BusQueue.Groups.Order.{scan_groups-IsGroupDelivery, scan_groups-KeepsPins}
use messaging_poc.Pump.{serve, pull_plain, pull}

-- Only `pending`, the affinity and `rr` change.
abbrev pub IsFramed : BusQueue → BusQueue → Type 0
IsFramed q q' =
    q' ≡ record q { pending = q'.pending; group_affinity = q'.group_affinity; rr = q'.rr }

-- `m` left `pending` for the attached consumer `c`, which held no message.
pub record IsPulled (q : BusQueue) (m : BusMessage) (c : AckHandler) (q' : BusQueue) : Type 0 where
  pub taken : IsTaken q.pending m q'.pending
  pub attached : contains q.consumers c ≡ true
  pub free : contains (busy q) c ≡ false
  pub alone :
      q.single_active_consumer ≡ true
      → q.partition_by_group ≡ false
      → (q.inflight ≡ []) × (first q.consumers ≡ some c)
  pub pinned : q.partition_by_group ≡ true → lookup q'.group_affinity (group m) ≡ some c
  pub pins : KeepsPins q.consumers (busy q) q.group_affinity q'.group_affinity
  pub frame : IsFramed q q'

pub is_empty-nil {ℓ} : {A : Type ℓ} (xs : List A) → is_empty xs ≡ true → xs ≡ []
is_empty-nil [] e = refl
is_empty-nil (x ∷ xs) e = absurd (cc)

first-contains : (cs : List ℕ) {c : ℕ} → first cs ≡ some c → contains cs c ≡ true
first-contains [] e = absurd (cc)
first-contains (d ∷ cs) {c} e = contains_get (d ∷ cs) 0 e

-- A consumer that `nextConsumer` returns is attached and holds no message.
next_consumer-free :
    (q : BusQueue) (c : AckHandler)
    → (next_consumer q).0 ≡ some c
    → (contains q.consumers c ≡ true)
      × (contains (busy q) c ≡ false)
      × (q.single_active_consumer ≡ true → (q.inflight ≡ []) × (first q.consumers ≡ some c))
unfolding next_consumer
next_consumer-free q c e = elim (Bool-cases (is_empty q.consumers)) [
  | inl empty ↦ absurd (ground arith)
  | inr some_there ↦ elim (Bool-cases q.single_active_consumer) [
    | inl single ↦ elim (Bool-cases (is_empty q.inflight)) [
      | inl idle ↦
          let f : first q.consumers ≡ some c = ground arith in
          let none_out : q.inflight ≡ [] = is_empty-nil q.inflight idle in
          (first-contains q.consumers f, rw none_out refl, λ _. (none_out, f))
      | inr out ↦ absurd (ground arith)
    ]
    | inr many ↦
        let picked : (pick_free (length q.consumers) q.consumers (busy q) q.rr).0 ≡ some c =
          ground arith in
        let (attached, free) =
          pick_free-free (length q.consumers) q.consumers (busy q) q.rr picked in
        (attached, free, λ single. absurd (cc))
  ]
]

served :
    (o : Option BusMessage) (d : AckHandler) {m : BusMessage} {c : AckHandler}
    → Option.map {B = BusMessage × AckHandler} (λ m. (m, d)) o ≡ some (m, c)
    → (o ≡ some m) × (d ≡ c)
served none d e = absurd (cc)
served (some x) d e = (cc, cc)

serve-IsPulled :
    (q : BusQueue) (o : Option AckHandler) (rr' : ℕ) (m : BusMessage) (c : AckHandler)
    → q.partition_by_group ≡ false
    → (next_consumer q).0 ≡ o
    → (serve o (record q { rr = rr' })).0 ≡ some (m, c)
    → IsPulled q m c (serve o (record q { rr = rr' })).1
serve-IsPulled q none rr' m c plain e s = absurd (cc)
serve-IsPulled q (some d) rr' m c plain e s =
    let (got, same) = served (next_pending q.pending).0 d s in
    let (attached, free, alone) = next_consumer-free q c (e ∙ ap some same) in
    let best = next_pending-IsBest q.pending m got in
    record {
      taken = record {
        before = best.before;
        after = best.after;
        whole = best.whole;
        others = best.others;
      };
      attached = attached;
      free = free;
      alone = λ single _. alone single;
      pinned = λ part. absurd (cc);
      pins = λ g h l a. l;
      frame = refl;
    }

group_delivery-IsPulled :
    (q : BusQueue) (m : BusMessage) (c : AckHandler)
    → q.partition_by_group ≡ true
    → (next_group_delivery q).0 ≡ some (m, c)
    → IsPulled q m c (next_group_delivery q).1
unfolding next_group_delivery
group_delivery-IsPulled q m c part e =
    elim (Bool-cases (is_empty q.consumers || is_empty q.pending)) [
      | inl nothing ↦ absurd (ground arith)
      | inr something ↦
          let found : (scan_groups q.consumers (busy q) q.pending q.group_affinity q.rr).found
              ≡ some (m, c) =
            ground arith in
          let d =
            scan_groups-IsGroupDelivery q.consumers (busy q) q.pending q.group_affinity q.rr m c
              found in
          rw something (record {
            taken = record {
              before = d.before;
              after = d.after;
              whole = d.whole;
              others = d.others;
            };
            attached = d.attached;
            free = d.free;
            alone = λ _ plain. absurd (cc);
            pinned = λ _. d.pinned;
            pins = scan_groups-KeepsPins q.consumers (busy q) q.pending q.group_affinity q.rr;
            frame = refl;
          })
    ]

-- The three ways of `pull`.
pub data PullCase (q : BusQueue) : Type 0 where
  idle : is_empty q.pending || is_empty q.consumers ≡ true → pull q ≡ (none, q) → PullCase q
  groups : q.partition_by_group ≡ true → pull q ≡ next_group_delivery q → PullCase q
  plain : q.partition_by_group ≡ false → pull q ≡ pull_plain q → PullCase q

pub pull-cases : (q : BusQueue) → PullCase q
unfolding pull
pull-cases q = elim (Bool-cases (is_empty q.pending || is_empty q.consumers)) [
  | inl nothing ↦ idle nothing (ground arith)
  | inr something ↦ elim (Bool-cases q.partition_by_group) [
    | inl part ↦ groups part (ground arith)
    | inr whole ↦ plain whole (ground arith)
  ]
]

-- A message that `pump` takes out was pending and goes to an attached consumer that holds no
-- message. In a queue that is partitioned by group it goes to the consumer that its group is pinned
-- to, whether or not the queue has a single active consumer; in another queue with a single active
-- consumer it goes to the first one, and nothing is in flight. The rest stays in order, pins to
-- attached consumers stay, and no other field of the queue changes.
pub pull-IsPulled :
    (q : BusQueue) (m : BusMessage) (c : AckHandler)
    → (pull q).0 ≡ some (m, c)
    → IsPulled q m c (pull q).1
unfolding pull_plain
pull-IsPulled q m c e = elim (pull-cases q) [
  | idle _ eq ↦ absurd (cc)
  | groups part eq ↦
      subst (λ r. IsPulled q m c r.1) (sym eq)
        (group_delivery-IsPulled q m c part (subst (λ r. r.0 ≡ some (m, c)) eq e))
  | plain whole eq ↦
      subst (λ r. IsPulled q m c r.1) (sym eq)
        (serve-IsPulled q (next_consumer q).0 (next_consumer q).1 m c whole refl
          (subst (λ r. r.0 ≡ some (m, c)) eq e))
]

serve-IsFramed :
    (q : BusQueue) (o : Option AckHandler) (rr' : ℕ)
    → IsFramed q (serve o (record q { rr = rr' })).1
serve-IsFramed q none rr' = refl
serve-IsFramed q (some c) rr' = refl

serve-pins :
    (q : BusQueue) (o : Option AckHandler) (rr' : ℕ)
    → KeepsPins q.consumers
        (busy q)
        q.group_affinity
        (serve o (record q { rr = rr' })).1.group_affinity
serve-pins q none rr' g h l a = l
serve-pins q (some c) rr' g h l a = l

-- Whatever `pull` finds, it leaves all but `pending`, the affinity and `rr` alone, and keeps the pins
-- of attached consumers.
pub pull-IsFramed :
    (q : BusQueue)
    → IsFramed q (pull q).1
      × KeepsPins q.consumers (busy q) q.group_affinity (pull q).1.group_affinity
unfolding pull_plain next_group_delivery
pull-IsFramed q = elim (pull-cases q) [
  | idle _ eq ↦ framed eq (refl, λ g h l a. l)
  | groups part eq ↦ framed eq (elim (Bool-cases (is_empty q.consumers || is_empty q.pending)) [
    | inl nothing ↦ rw nothing (refl, λ g h l a. l)
    | inr something ↦
        rw something
          (refl, scan_groups-KeepsPins q.consumers (busy q) q.pending q.group_affinity q.rr)
  ])
  | plain whole eq ↦ framed eq (
    serve-IsFramed q (next_consumer q).0 (next_consumer q).1,
    serve-pins q (next_consumer q).0 (next_consumer q).1,
  )
]
  where
    framed :
        {r : Option (BusMessage × AckHandler) × BusQueue}
        → pull q ≡ r
        → IsFramed q r.1 × KeepsPins q.consumers (busy q) q.group_affinity r.1.group_affinity
        → IsFramed q (pull q).1
          × KeepsPins q.consumers (busy q) q.group_affinity (pull q).1.group_affinity
    framed eq h =
        subst
          (λ r. IsFramed q r.1 × KeepsPins q.consumers (busy q) q.group_affinity r.1.group_affinity)
          (sym eq) h
