-- ===== src/Pump/Budget.antt =====
-- How often a message of a queue has been delivered, against the limit of the queue.
use messaging_poc.Common.{
  ℕ, ◌+◌, ◌-◌, ◌≤◌, List, [], ◌∷◌, ◌++◌, Option, none, some, ◌≡◌, sym, ap, subst, inl, inr, arith,
  ◌==◌, ℕ_eq, Bool-cases, Option-cases, leb, All, All-append, All-left, All-right,
}
use messaging_poc.Abstractions.{AckHandler}
use messaging_poc.BusQueue.{BusMessage, BusQueue}
use messaging_poc.BusQueue.Priority.{IsTaken}
use messaging_poc.Pump.{
  counted, hand_over, pull, pump, find_inflight, drop_inflight, find_object, drop_object, delays,
  Resolution, ack, requeue, dead, resolve, settle, redeliver, expire, enqueue, attach,
}
use messaging_poc.Pump.Custody.{settle-IsSettled}
use messaging_poc.Pump.Drained.{pull-IsDrained}
use messaging_poc.Pump.Rounds.{pump-keeps}
use messaging_poc.Pump.Pull.{pull-IsPulled, pull-IsFramed}

-- A message that waits can be delivered once more within a limit, one delivery at least.
abbrev pub IsWithin : ℕ → BusMessage → Type 0
IsWithin limit m = m.delivery_count ≤ limit - 1

abbrev pub IsOut : ℕ → BusMessage × AckHandler → Type 0
IsOut limit (m, c) = m.delivery_count ≤ limit - 1 + 1

pub record IsBounded (q : BusQueue) : Type 0 where
  pub waiting : All (IsWithin q.max_deliveries) q.pending
  pub later : All (IsWithin q.max_deliveries) q.parked
  pub sent : All (IsOut q.max_deliveries) q.inflight

IsTaken-All :
    (P : BusMessage → Type 0) {ms rest : List BusMessage} {m : BusMessage}
    → IsTaken ms m rest
    → All P ms
    → P m × All P rest
IsTaken-All P {m = m} t h =
    let split = subst (All P) t.whole h in
    let right = All-right P t.before (m ∷ t.after) split in
    (
      right.0,
      subst (All P) (sym t.others)
          (All-append P t.before t.after (All-left P t.before (m ∷ t.after) split) right.1),
    )

drop_object-All :
    (P : BusMessage → Type 0) (object : ℕ) (ms : List BusMessage)
    → All P ms
    → All P (drop_object object ms)
unfolding drop_object
drop_object-All P object [] h = tt
drop_object-All P object (x ∷ ms) h = elim (Bool-cases (x.object == object)) [
  | inl hit ↦ rw hit h.1
  | inr miss ↦ rw miss (h.0, drop_object-All P object ms h.1)
]

find_object-All :
    (P : BusMessage → Type 0) (object : ℕ) (ms : List BusMessage) (m : BusMessage)
    → find_object object ms ≡ some m
    → All P ms
    → P m
unfolding find_object
find_object-All P object [] m e h = absurd (cc)
find_object-All P object (x ∷ ms) m e h = elim (Bool-cases (x.object == object)) [
  | inl hit ↦ let same : x ≡ m = ground arith in subst P same h.0
  | inr miss ↦ find_object-All P object ms m (ground arith) h.1
]

drop_inflight-All :
    (P : BusMessage × AckHandler → Type 0) (object : ℕ) (es : List (BusMessage × AckHandler))
    → All P es
    → All P (drop_inflight object es)
unfolding drop_inflight
drop_inflight-All P object [] h = tt
drop_inflight-All P object ((x, d) ∷ es) h = elim (Bool-cases (x.object == object)) [
  | inl hit ↦ rw hit h.1
  | inr miss ↦ rw miss (h.0, drop_inflight-All P object es h.1)
]

pub pump-IsBounded : (q : BusQueue) → IsBounded q → IsBounded (pump q).0
pump-IsBounded q h = pump-keeps IsBounded hands looks q h
  where
    framed :
        (x : BusQueue)
        → ((pull x).1.max_deliveries ≡ x.max_deliveries)
          × ((pull x).1.parked ≡ x.parked)
          × ((pull x).1.inflight ≡ x.inflight)
    framed x =
        let f = (pull-IsFramed x).0 in
        (ap (λ y. y.max_deliveries) f, ap (λ y. y.parked) f, ap (λ y. y.inflight) f)

    hands :
        (x : BusQueue) (m : BusMessage) (c : AckHandler)
        → (pull x).0 ≡ some (m, c)
        → IsBounded x
        → IsBounded (hand_over m c (pull x).1)
    hands x m c found b =
        let (limit, parked, inflight) = framed x in
        let (one, rest) =
          IsTaken-All (IsWithin x.max_deliveries) (pull-IsPulled x m c found).taken b.waiting in
        record {
          waiting = rw limit rest;
          later = rw (limit, parked) b.later;
          sent =
              rw (limit, inflight)
                (All-append (IsOut x.max_deliveries) x.inflight ((counted m, c) ∷ []) b.sent
                  (omega (arith, one), tt));
        }

    looks : (x : BusQueue) → (pull x).0 ≡ none → IsBounded x → IsBounded (pull x).1
    looks x nothing b =
        let (limit, parked, inflight) = framed x in
        record {
          waiting = rw (limit, (pull-IsDrained x nothing).1) b.waiting;
          later = rw (limit, parked) b.later;
          sent = rw (limit, inflight) b.sent;
        }

resolve-IsBounded :
    (r : Resolution) (m : BusMessage) (q : BusQueue) → IsBounded q → IsBounded (resolve r m q).0
unfolding resolve
resolve-IsBounded ack m q b = b
resolve-IsBounded dead m q b = b
resolve-IsBounded requeue m q b = elim (Bool-cases (leb q.max_deliveries m.delivery_count)) [
  | inl spent ↦ rw spent b
  | inr again ↦
      let within : IsWithin q.max_deliveries m = ground (arith, again) in
      elim (Bool-cases (delays q.retry_delay_ms)) [
        | inl delayed ↦
            rw (again, delayed)
              (record {
                waiting = b.waiting;
                later =
                    All-append (IsWithin q.max_deliveries) q.parked (m ∷ []) b.later (within, tt);
                sent = b.sent;
              })
        | inr now ↦
            rw (again, now)
              (record {
                waiting =
                    All-append (IsWithin q.max_deliveries) q.pending (m ∷ []) b.waiting
                      (within, tt);
                later = b.later;
                sent = b.sent;
              })
      ]
]

pub settle-IsBounded :
    (object : ℕ) (c : AckHandler) (r : Resolution) (q q' : BusQueue) (buried : Option BusMessage)
    → settle object c r q ≡ some (q', buried)
    → IsBounded q
    → IsBounded q'
settle-IsBounded object c r q q' buried e b =
    let s = settle-IsSettled object c r q q' buried e in
    let kept : BusQueue = record q { inflight = drop_inflight object q.inflight } in
    subst (λ x. IsBounded x.0) s.resolved
      (resolve-IsBounded r s.m kept (record {
        waiting = b.waiting;
        later = b.later;
        sent = drop_inflight-All (IsOut q.max_deliveries) object q.inflight b.sent;
      }))

pub redeliver-IsBounded :
    (object : ℕ) (q q' : BusQueue) → redeliver object q ≡ some q' → IsBounded q → IsBounded q'
unfolding redeliver
redeliver-IsBounded object q q' e b = elim (Option-cases (find_object object q.parked)) [
  | inl missing ↦ absurd (ground arith)
  | inr (m, found) ↦
      let q'' : BusQueue = record q {
        pending = q.pending ++ m ∷ [];
        parked = drop_object object q.parked;
      } in
      let eq : q'' ≡ q' = ground arith in
      let P = IsWithin q.max_deliveries in
      subst IsBounded eq (record {
        waiting =
            All-append P q.pending (m ∷ []) b.waiting
              (find_object-All P object q.parked m found b.later, tt);
        later = drop_object-All P object q.parked b.later;
        sent = b.sent;
      })
]

pub expire-IsBounded : (object : ℕ) (q : BusQueue) → IsBounded q → IsBounded (expire object q).0
unfolding expire
expire-IsBounded object q b = elim (Option-cases (find_object object q.expiring)) [
  | inl unarmed ↦ rw (unarmed, expire) b
  | inr (armed, e) ↦ elim (Option-cases (find_object object q.pending)) [
    | inr (m, waits) ↦
        rw (e, waits, expire)
          (record {
            waiting = drop_object-All (IsWithin q.max_deliveries) object q.pending b.waiting;
            later = b.later;
            sent = b.sent;
          })
    | inl gone ↦ elim (Option-cases (find_inflight object q.inflight)) [
      | inr ((m, c), out) ↦
          rw (e, gone, out, expire)
            (record {
              waiting = b.waiting;
              later = b.later;
              sent = drop_inflight-All (IsOut q.max_deliveries) object q.inflight b.sent;
            })
      | inl nowhere ↦
          rw (e, gone, nowhere, expire)
            (record { waiting = b.waiting; later = b.later; sent = b.sent })
    ]
  ]
]

-- A message that was never delivered comes to the end of the queue.
pub enqueue-IsBounded :
    (m : BusMessage) (q : BusQueue) → m.delivery_count ≡ 0 → IsBounded q → IsBounded (enqueue m q)
unfolding enqueue
enqueue-IsBounded m q fresh b = record {
  waiting =
      All-append (IsWithin q.max_deliveries) q.pending (m ∷ []) b.waiting
        (omega (arith, fresh), tt);
  later = b.later;
  sent = b.sent;
}

pub attach-IsBounded : (h : AckHandler) (q : BusQueue) → IsBounded q → IsBounded (attach h q)
attach-IsBounded h q b = record { waiting = b.waiting; later = b.later; sent = b.sent }
