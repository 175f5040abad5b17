-- ===== src/Pump/Custody.antt =====
-- Where the message objects of a queue are: pending, in flight or parked. No operation loses one or
-- makes a second one.
use messaging_poc.Common.{
  ℕ, ◌+◌, List, [], ◌∷◌, ◌++◌, Option, none, some, ◌≡◌, refl, ap, subst, inl, inr, arith, ◌==◌,
  ℕ_eq, ==_iff, Bool-cases, Option-cases, ◌∙◌, if◌then◌else◌, leb,
}
use messaging_poc.Abstractions.{AckHandler}
use messaging_poc.BusQueue.{BusMessage, BusQueue}
use messaging_poc.BusQueue.Priority.{IsTaken}
use messaging_poc.Pump.{
  counted, hand_over, pull, pump, find_inflight, drop_inflight, find_object, drop_object, delays,
  Resolution, ack, requeue, dead, resolve, settle, redeliver, expire, enqueue,
}
use messaging_poc.Pump.Drained.{pull-IsDrained}
use messaging_poc.Pump.Rounds.{pump-keeps}
use messaging_poc.Pump.Pull.{IsPulled, pull-IsPulled, pull-IsFramed}

-- 1 for the object `o`, 0 for any other.
abbrev pub one : ℕ → BusMessage → ℕ
one o m = if m.object == o then 1 else 0

abbrev pub occurs : ℕ → List BusMessage → ℕ
occurs o [] = 0
occurs o (m ∷ ms) = one o m + occurs o ms

abbrev pub out : ℕ → List (BusMessage × AckHandler) → ℕ
out o [] = 0
out o ((m, c) ∷ es) = one o m + out o es

-- How often the queue holds the object `o`.
abbrev pub holds : ℕ → BusQueue → ℕ
holds o q = occurs o q.pending + out o q.inflight + occurs o q.parked

pub occurs-append :
    (o : ℕ) (xs ys : List BusMessage) → occurs o (xs ++ ys) ≡ occurs o xs + occurs o ys
occurs-append o [] ys = omega arith
occurs-append o (x ∷ xs) ys = omega (arith, occurs-append o xs ys)

pub out-append :
    (o : ℕ) (xs ys : List (BusMessage × AckHandler)) → out o (xs ++ ys) ≡ out o xs + out o ys
out-append o [] ys = omega arith
out-append o ((m, c) ∷ xs) ys = omega (arith, out-append o xs ys)

pub occurs-IsTaken :
    (o : ℕ) {ms rest : List BusMessage} {m : BusMessage}
    → IsTaken ms m rest
    → occurs o ms ≡ occurs o rest + one o m
occurs-IsTaken o {m = m} t = omega (
  arith,
  ap (occurs o) t.whole,
  ap (occurs o) t.others,
  occurs-append o t.before (m ∷ t.after),
  occurs-append o t.before t.after,
)

hand_over-holds :
    (o : ℕ) (q q' : BusQueue) (m : BusMessage) (c : AckHandler)
    → IsPulled q m c q'
    → holds o (hand_over m c q') ≡ holds o q
hand_over-holds o q q' m c p = omega (
  arith,
  occurs-IsTaken o p.taken,
  ap (λ x. out o x.inflight) p.frame,
  ap (λ x. occurs o x.parked) p.frame,
  out-append o q'.inflight ((counted m, c) ∷ []),
)

pub drop_inflight-out :
    (o object : ℕ) (es : List (BusMessage × AckHandler)) {m : BusMessage} {c : AckHandler}
    → find_inflight object es ≡ some (m, c)
    → (m.object ≡ object) × (out o es ≡ out o (drop_inflight object es) + one o m)
unfolding find_inflight drop_inflight
drop_inflight-out o object [] e = absurd (cc)
drop_inflight-out o object ((x, d) ∷ es) {m} {c} e = elim (Bool-cases (x.object == object)) [
  | inl hit ↦
      let same : x ≡ m = ground arith in
      rw hit (rw (← same) ((==_iff x.object object).0 hit, omega arith))
  | inr miss ↦
      let (same, sum) = drop_inflight-out o object es {m = m} {c = c} (ground arith) in
      rw miss (same, omega (arith, sum))
]

pub drop_object-occurs :
    (o object : ℕ) (ms : List BusMessage) {m : BusMessage}
    → find_object object ms ≡ some m
    → (m.object ≡ object) × (occurs o ms ≡ occurs o (drop_object object ms) + one o m)
unfolding find_object drop_object
drop_object-occurs o object [] e = absurd (cc)
drop_object-occurs o object (x ∷ ms) {m} e = elim (Bool-cases (x.object == object)) [
  | inl hit ↦
      let same : x ≡ m = ground arith in
      rw hit (rw (← same) ((==_iff x.object object).0 hit, omega arith))
  | inr miss ↦
      let (same, sum) = drop_object-occurs o object ms {m = m} (ground arith) in
      rw miss (same, omega (arith, sum))
]

-- A pump leaves every message object as often in the queue (pending, in flight or parked) as it was.
pub pump-holds : (o : ℕ) (q : BusQueue) → holds o (pump q).0 ≡ holds o q
pump-holds o q = pump-keeps (λ x. holds o x ≡ holds o q) hands looks q refl
  where
    hands :
        (x : BusQueue) (m : BusMessage) (c : AckHandler)
        → (pull x).0 ≡ some (m, c)
        → holds o x ≡ holds o q
        → holds o (hand_over m c (pull x).1) ≡ holds o q
    hands x m c found h = hand_over-holds o x (pull x).1 m c (pull-IsPulled x m c found) ∙ h

    looks :
        (x : BusQueue) → (pull x).0 ≡ none → holds o x ≡ holds o q → holds o (pull x).1 ≡ holds o q
    looks x nothing h = omega (
      arith,
      h,
      ap (occurs o) (pull-IsDrained x nothing).1,
      ap (λ y. out o y.inflight) (pull-IsFramed x).0,
      ap (λ y. occurs o y.parked) (pull-IsFramed x).0,
    )

-- What leaves the queue when a delivery is settled.
abbrev pub left : ℕ → Resolution → BusMessage → Option BusMessage → ℕ
left o ack m buried = one o m
left o dead m buried = one o m
left o requeue m none = 0
left o requeue m (some b) = one o m

resolve-holds :
    (o : ℕ) (r : Resolution) (m : BusMessage) (q : BusQueue)
    → holds o (resolve r m q).0 + left o r m (resolve r m q).1 ≡ holds o q + one o m
unfolding resolve
resolve-holds o ack m q = refl
resolve-holds o dead m q = refl
resolve-holds o requeue m q = elim (Bool-cases (leb q.max_deliveries m.delivery_count)) [
  | inl spent ↦ rw spent refl
  | inr again ↦ elim (Bool-cases (delays q.retry_delay_ms)) [
    | inl later ↦ rw (again, later) (omega (arith, occurs-append o q.parked (m ∷ [])))
    | inr now ↦ rw (again, now) (omega (arith, occurs-append o q.pending (m ∷ [])))
  ]
]

-- The outcome of `settle` on a delivery that is still open.
pub record IsSettled (object : ℕ) (c : AckHandler) (r : Resolution) (q q' : BusQueue)
    (buried : Option BusMessage) : Type 0 where
  pub m : BusMessage
  pub found : find_inflight object q.inflight ≡ some (m, c)
  pub same : m.object ≡ object
  pub resolved :
      resolve r m (record q { inflight = drop_inflight object q.inflight }) ≡ (q', buried)

pub settle-IsSettled :
    (object : ℕ) (c : AckHandler) (r : Resolution) (q q' : BusQueue) (buried : Option BusMessage)
    → settle object c r q ≡ some (q', buried)
    → IsSettled object c r q q' buried
unfolding settle
settle-IsSettled object c r q q' buried e = elim (Option-cases (find_inflight object q.inflight)) [
  | inl missing ↦ absurd (ground arith)
  | inr ((m, owner), found) ↦ elim (Bool-cases (owner == c)) [
    | inr other ↦ absurd (ground arith)
    | inl hit ↦
        let to_c : owner ≡ c = (==_iff owner c).0 hit in
        let found' : find_inflight object q.inflight ≡ some (m, c) = rw (← to_c) found in
        record {
          m = m;
          found = found';
          same = (drop_inflight-out 0 object q.inflight found').0;
          resolved = ground arith;
        }
  ]
]

-- Settling takes the object out of the queue, or keeps it for another delivery.
pub settle-holds :
    (o object : ℕ) (c : AckHandler) (r : Resolution) (q q' : BusQueue) (buried : Option BusMessage)
    (s : IsSettled object c r q q' buried)
    → holds o q' + left o r s.m buried ≡ holds o q
settle-holds o object c r q q' buried s =
    let (_, sum) = drop_inflight-out o object q.inflight s.found in
    subst (λ x. holds o x.0 + left o r s.m x.1 ≡ holds o q) s.resolved
      (omega (
        arith,
        sum,
        resolve-holds o r s.m (record q { inflight = drop_inflight object q.inflight }),
      ))

pub redeliver-holds :
    (o object : ℕ) (q q' : BusQueue) → redeliver object q ≡ some q' → holds o q' ≡ holds o q
unfolding redeliver
redeliver-holds o object q q' e = elim (Option-cases (find_object object q.parked)) [
  | inl missing ↦ absurd (ground arith)
  | inr (m, found) ↦
      let (_, sum) = drop_object-occurs o object q.parked found in
      let q'' : BusQueue = record q {
        pending = q.pending ++ m ∷ [];
        parked = drop_object object q.parked;
      } in
      let eq : q'' ≡ q' = ground arith in
      subst (λ x. holds o x ≡ holds o q) eq (omega (arith, sum, occurs-append o q.pending (m ∷ [])))
]

-- An expired message leaves the queue; any other firing of a TTL timer leaves all where it is.
abbrev pub expired : ℕ → Option BusMessage → ℕ
expired o none = 0
expired o (some m) = one o m

pub expire-holds :
    (o object : ℕ) (q : BusQueue)
    → holds o (expire object q).0 + expired o (expire object q).1 ≡ holds o q
unfolding expire
expire-holds o object q = elim (Option-cases (find_object object q.expiring)) [
  | inl unarmed ↦ rw (unarmed, expire) (omega arith)
  | inr (armed, found) ↦ elim (Option-cases (find_object object q.pending)) [
    | inr (m, waiting) ↦
        let (_, sum) = drop_object-occurs o object q.pending waiting in
        rw (found, waiting, expire) (omega (arith, sum))
    | inl absent ↦ elim (Option-cases (find_inflight object q.inflight)) [
      | inl gone ↦ rw (found, absent, gone, expire) (omega arith)
      | inr ((m, c), out_there) ↦
          let (_, sum) = drop_inflight-out o object q.inflight out_there in
          rw (found, absent, out_there, expire) (omega (arith, sum))
    ]
  ]
]

pub enqueue-holds :
    (o : ℕ) (m : BusMessage) (q : BusQueue) → holds o (enqueue m q) ≡ holds o q + one o m
unfolding enqueue
enqueue-holds o m q = omega (arith, occurs-append o q.pending (m ∷ []))
