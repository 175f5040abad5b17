-- ===== src/Pump/Drained.antt =====
-- `pump` leaves nothing that could be delivered: its rounds are enough, and a message waits only
-- where its consumers are busy.
use mathlib.Core.Option
use messaging_poc.Common.{
  ℕ, zero, suc, ◌+◌, ◌≤◌, List, [], ◌∷◌, true, false, Option, none, some, ◌≡◌, refl, ap, sym, subst,
  ◌≢◌, ◌⊎◌, inl, inr, arith, All, ℕ_eq, Bool-cases, Option-cases, ◌∙◌, ◌||◌, length, length-append,
  is_empty,
}
use messaging_poc.Abstractions.{AckHandler}
use messaging_poc.BusQueue.{BusMessage, BusQueue, busy, first, next_consumer, next_group_delivery}
use messaging_poc.BusQueue.Priority.{IsTaken, next_pending-none}
use messaging_poc.BusQueue.Consumers.{pick_free-all_busy}
use messaging_poc.BusQueue.Groups.{IsBlocked, AllBusy}
use messaging_poc.BusQueue.Groups.Order.{scan_groups-none}
use messaging_poc.Pump.{hand_over, serve, pull_plain, pull, pump_rounds, pump}
use messaging_poc.Pump.Pull.{pull-IsPulled, idle, groups, plain, pull-cases, is_empty-nil}

-- Why a message of a queue with consumers may wait: its group's owner is busy, or all consumers are;
-- with a single active consumer, a message is out.
pub record IsWaiting (q : BusQueue) : Type 0 where
  pub blocked :
      q.partition_by_group ≡ true → All (IsBlocked q.consumers (busy q) q.group_affinity) q.pending
  pub active : q.partition_by_group ≡ false → q.single_active_consumer ≡ true → q.inflight ≢ []
  pub all_busy :
      q.partition_by_group ≡ false → q.single_active_consumer ≡ false → AllBusy q.consumers (busy q)

-- Nothing of the queue can be delivered now.
abbrev pub IsDrained : BusQueue → Type 0
IsDrained q = (q.pending ≡ []) ⊎ (q.consumers ≡ []) ⊎ IsWaiting q

nothing-IsDrained :
    (q : BusQueue) → (is_empty q.pending || is_empty q.consumers) ≡ true → IsDrained q
nothing-IsDrained q e = elim (Bool-cases (is_empty q.pending)) [
  | inl none_left ↦ inl (is_empty-nil q.pending none_left)
  | inr some_left ↦ inr (inl (is_empty-nil q.consumers (ground arith)))
]

group_delivery-none :
    (q : BusQueue)
    → q.partition_by_group ≡ true
    → (next_group_delivery q).0 ≡ none
    → IsDrained (next_group_delivery q).1 × ((next_group_delivery q).1.pending ≡ q.pending)
unfolding next_group_delivery
group_delivery-none q part e = elim (Bool-cases (is_empty q.consumers || is_empty q.pending)) [
  | inl nothing ↦ rw nothing (nothing-IsDrained q (ground arith), refl)
  | inr something ↦
      let (same, waits) =
        scan_groups-none q.consumers (busy q) q.pending q.group_affinity q.rr (ground arith) in
      rw something (
        inr (
            inr (record {
              blocked = λ _. rw same waits;
              active = λ whole. absurd (cc);
              all_busy = λ whole. absurd (cc);
            })),
        same,
      )
]

first-none : (cs : List ℕ) → is_empty cs ≡ false → ¬ (first cs ≡ none)
first-none [] e f = absurd (cc)
first-none (c ∷ cs) e f = absurd (cc)

-- `nextConsumer` finds none only where the queue has to wait.
next_consumer-none :
    (q : BusQueue) (rr' : ℕ)
    → q.partition_by_group ≡ false
    → (next_consumer q).0 ≡ none
    → IsDrained (record q { rr = rr' })
unfolding next_consumer
next_consumer-none q rr' whole e = elim (Bool-cases (is_empty q.consumers)) [
  | inl nobody ↦ inr (inl (is_empty-nil q.consumers nobody))
  | inr somebody ↦ inr (
      inr (record {
        blocked = λ part. absurd (cc);
        active = λ _ single none_out. first-none q.consumers somebody (ground (arith, none_out));
        all_busy = λ _ many. pick_free-all_busy q.consumers (busy q) q.rr (ground arith);
      }))
]

served_none :
    (o : Option BusMessage) (c : AckHandler)
    → Option.map {B = BusMessage × AckHandler} (λ m. (m, c)) o ≡ none
    → o ≡ none
served_none none c e = refl
served_none (some m) c e = absurd (cc)

serve-none :
    (q : BusQueue) (o : Option AckHandler) (rr' : ℕ)
    → q.partition_by_group ≡ false
    → (next_consumer q).0 ≡ o
    → (serve o (record q { rr = rr' })).0 ≡ none
    → IsDrained (serve o (record q { rr = rr' })).1
      × ((serve o (record q { rr = rr' })).1.pending ≡ q.pending)
serve-none q none rr' whole e s = (next_consumer-none q rr' whole e, refl)
serve-none q (some c) rr' whole e s =
    let (empty, rest) = next_pending-none q.pending (served_none _ c s) in
    (inl rest, rest ∙ sym empty)

-- A round that finds nothing leaves the messages, none of which could be delivered.
pub pull-IsDrained :
    (q : BusQueue) → (pull q).0 ≡ none → IsDrained (pull q).1 × ((pull q).1.pending ≡ q.pending)
unfolding pull_plain
pull-IsDrained q e = elim (pull-cases q) [
  | idle nothing eq ↦ settled eq (nothing-IsDrained q nothing, refl)
  | groups part eq ↦ settled eq (group_delivery-none q part (subst (λ r. r.0 ≡ none) eq e))
  | plain whole eq ↦ settled eq (
      serve-none q (next_consumer q).0 (next_consumer q).1 whole refl
        (subst (λ r. r.0 ≡ none) eq e))
]
  where
    settled :
        {r : Option (BusMessage × AckHandler) × BusQueue}
        → pull q ≡ r
        → IsDrained r.1 × (r.1.pending ≡ q.pending)
        → IsDrained (pull q).1 × ((pull q).1.pending ≡ q.pending)
    settled eq h = subst (λ r. IsDrained r.1 × (r.1.pending ≡ q.pending)) (sym eq) h

length-IsTaken :
    {ms rest : List BusMessage} {m : BusMessage} → IsTaken ms m rest → length ms ≡ length rest + 1
length-IsTaken {m = m} t = omega (
  arith,
  ap length t.whole,
  ap length t.others,
  length-append t.before (m ∷ t.after),
  length-append t.before t.after,
)

pump_rounds-IsDrained :
    (rounds : ℕ) (q : BusQueue) → length q.pending ≤ rounds → IsDrained (pump_rounds rounds q).0
unfolding pump_rounds
pump_rounds-IsDrained zero q h = inl (length-nil q.pending (omega arith))
  where
    length-nil : (ms : List BusMessage) → length ms ≡ 0 → ms ≡ []
    length-nil [] e = refl
    length-nil (m ∷ ms) e = absurd (omega arith)
pump_rounds-IsDrained (suc rounds) q h = elim (Option-cases (pull q).0) [
  | inl nothing ↦ rw (nothing, pump_rounds) (pull-IsDrained q nothing).0
  | inr ((m, c), found) ↦
      rw (found, pump_rounds)
        (pump_rounds-IsDrained rounds (hand_over m c (pull q).1)
          (omega (arith, length-IsTaken (pull-IsPulled q m c found).taken)))
]

-- After a pump nothing is pending, or there is no consumer, or what is pending must wait: its
-- group's owner or all consumers hold a message, or with a single active consumer a message is out.
pub pump-IsDrained : (q : BusQueue) → IsDrained (pump q).0
unfolding pump
pump-IsDrained q = pump_rounds-IsDrained (length q.pending) q (omega arith)
