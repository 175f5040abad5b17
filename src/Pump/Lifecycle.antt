-- ===== src/Pump/Lifecycle.antt =====
-- What a message object may go through in a queue, as a state machine, and that the operations of the
-- queue follow it.
use messaging_poc.Common.{
  ℕ, zero, suc, ◌+◌, ◌-◌, ◌≤◌, List, [], ◌∷◌, ◌++◌, Option, none, some, ◌≡◌, refl, ap, sym, subst,
  ◌⊎◌, inl, inr, arith, ◌==◌, ℕ_eq, Bool-cases, Option-cases, leb,
}
use messaging_poc.Abstractions.{AckHandler}
use messaging_poc.BusQueue.{BusMessage, BusQueue}
use messaging_poc.Pump.{
  counted, hand_over, pull, pump, drop_inflight, drop_object, find_object, find_inflight, delays,
  Resolution, ack, requeue, dead, resolve, settle, redeliver, expire, detach, enqueue,
}
use messaging_poc.Pump.Rounds.{pump-keeps}
use messaging_poc.Pump.Pull.{IsPulled, pull-IsPulled, pull-IsFramed}
use messaging_poc.Pump.Drained.{pull-IsDrained}
use messaging_poc.Pump.Custody.{
  one, occurs, out, occurs-append, out-append, occurs-IsTaken, drop_inflight-out,
  drop_object-occurs, settle-IsSettled,
}
use messaging_poc.Pump.Detach.{IsUnique, others, returned, detach_lem, returned-occurs}

-- How often an object waits in a queue, is out with a consumer, and is parked for a retry.
pub record Place : Type 0 where
  pub waiting : ℕ
  pub delivered : ℕ
  pub parked : ℕ

abbrev pub place : ℕ → BusQueue → Place
place o q = record {
  waiting = occurs o q.pending;
  delivered = out o q.inflight;
  parked = occurs o q.parked;
}

-- The moves of one object: nothing ever comes back that has left.
pub data Move (s s' : Place) : Type 0 where
  delivers :
      s.waiting ≡ s'.waiting + 1 → s'.delivered ≡ s.delivered + 1 → s'.parked ≡ s.parked → Move s s'
  returns :
      s.delivered ≡ s'.delivered + 1 → s'.waiting ≡ s.waiting + 1 → s'.parked ≡ s.parked → Move s s'
  parks :
      s.delivered ≡ s'.delivered + 1 → s'.parked ≡ s.parked + 1 → s'.waiting ≡ s.waiting → Move s s'
  unparks :
      s.parked ≡ s'.parked + 1 → s'.waiting ≡ s.waiting + 1 → s'.delivered ≡ s.delivered → Move s s'
  leaves_delivered :
      s.delivered ≡ s'.delivered + 1 → s'.waiting ≡ s.waiting → s'.parked ≡ s.parked → Move s s'
  leaves_waiting :
      s.waiting ≡ s'.waiting + 1 → s'.delivered ≡ s.delivered → s'.parked ≡ s.parked → Move s s'

-- Any number of moves.
pub data Course (s : Place) : Place → Type 0 where
  stay : Course s s
  go : {s' s'' : Place} → Course s s' → Move s' s'' → Course s s''

pub Course-trans : {s s' s'' : Place} → Course s s' → Course s' s'' → Course s s''
Course-trans c stay = c
Course-trans c (go d m) = go (Course-trans c d) m

abbrev pub total : Place → ℕ
total s = s.waiting + s.delivered + s.parked

Move-total : (s s' : Place) → Move s s' → total s' ≤ total s
Move-total s s' (delivers a b c) = omega (arith, a, b, c)
Move-total s s' (returns a b c) = omega (arith, a, b, c)
Move-total s s' (parks a b c) = omega (arith, a, b, c)
Move-total s s' (unparks a b c) = omega (arith, a, b, c)
Move-total s s' (leaves_delivered a b c) = omega (arith, a, b, c)
Move-total s s' (leaves_waiting a b c) = omega (arith, a, b, c)

-- No course brings an object back that has left the queue.
pub Course-total : (s s' : Place) → Course s s' → total s' ≤ total s
Course-total s _ stay = omega arith
Course-total s s'' (go {s' = s'} c m) = omega (arith, Course-total s s' c, Move-total s' s'' m)

one-cases : (o : ℕ) (m : BusMessage) → (one o m ≡ 0) ⊎ (one o m ≡ 1)
one-cases o m = elim (Bool-cases (m.object == o)) [
  | inl h ↦ rw h (inr refl)
  | inr h ↦ rw h (inl refl)
]

stays :
    (s s' : Place)
    → s.waiting ≡ s'.waiting
    → s.delivered ≡ s'.delivered
    → s.parked ≡ s'.parked
    → Course s s'
stays s s' a b c = let same : s ≡ s' = cc in subst (Course s) same stay

-- A move of the object `m`, which may be another one.
module _ (o : ℕ) (m : BusMessage) (s s' : Place) where
  if_it_is :
      (one o m ≡ 1 → Move s s')
      → (one o m ≡ 0
          → (s.waiting ≡ s'.waiting) × (s.delivered ≡ s'.delivered) × (s.parked ≡ s'.parked))
      → Course s s'
  if_it_is move same = elim (one-cases o m) [
    | inl other ↦ let (a, b, c) = same other in stays s s' a b c
    | inr it ↦ go stay (move it)
  ]

hand_over-Course :
    (o : ℕ) (q q' : BusQueue) (m : BusMessage) (c : AckHandler)
    → IsPulled q m c q'
    → Course (place o q) (place o (hand_over m c q'))
hand_over-Course o q q' m c p =
    let w = occurs-IsTaken o p.taken in
    let d = ap (λ x. out o x.inflight) p.frame in
    let k = ap (λ x. occurs o x.parked) p.frame in
    let e = out-append o q'.inflight ((counted m, c) ∷ []) in
    if_it_is o m (place o q) (place o (hand_over m c q'))
      (λ it. delivers (omega (arith, w, it)) (omega (arith, d, e, it)) (omega (arith, k)))
      (λ other. (omega (arith, w, other), omega (arith, d, e, other), omega (arith, k)))

pub pump-Course : (o : ℕ) (q : BusQueue) → Course (place o q) (place o (pump q).0)
pump-Course o q = pump-keeps (λ x. Course (place o q) (place o x)) hands looks q stay
  where
    hands :
        (x : BusQueue) (m : BusMessage) (c : AckHandler)
        → (pull x).0 ≡ some (m, c)
        → Course (place o q) (place o x)
        → Course (place o q) (place o (hand_over m c (pull x).1))
    hands x m c found h =
        Course-trans h (hand_over-Course o x (pull x).1 m c (pull-IsPulled x m c found))

    looks :
        (x : BusQueue)
        → (pull x).0 ≡ none
        → Course (place o q) (place o x)
        → Course (place o q) (place o (pull x).1)
    looks x nothing h = Course-trans h (
        stays (place o x) (place o (pull x).1) (sym (ap (occurs o) (pull-IsDrained x nothing).1))
          (sym (ap (λ y. out o y.inflight) (pull-IsFramed x).0))
          (sym (ap (λ y. occurs o y.parked) (pull-IsFramed x).0)))

resolve-Course :
    (o : ℕ) (r : Resolution) (m : BusMessage) (s : Place) (q : BusQueue)
    → s.waiting ≡ occurs o q.pending
    → s.delivered ≡ out o q.inflight + one o m
    → s.parked ≡ occurs o q.parked
    → Course s (place o (resolve r m q).0)
unfolding resolve
resolve-Course o ack m s q a b c =
    if_it_is o m s (place o q) (λ it. leaves_delivered (omega (arith, b, it)) (sym a) (sym c))
      (λ other. (a, omega (arith, b, other), c))
resolve-Course o dead m s q a b c =
    if_it_is o m s (place o q) (λ it. leaves_delivered (omega (arith, b, it)) (sym a) (sym c))
      (λ other. (a, omega (arith, b, other), c))
resolve-Course o requeue m s q a b c = elim (Bool-cases (leb q.max_deliveries m.delivery_count)) [
  | inl spent ↦ rw spent (
      if_it_is o m s (place o q) (λ it. leaves_delivered (omega (arith, b, it)) (sym a) (sym c))
        (λ other. (a, omega (arith, b, other), c)))
  | inr again ↦ elim (Bool-cases (delays q.retry_delay_ms)) [
    | inl later ↦
        let e = occurs-append o q.parked (m ∷ []) in
        rw (again, later)
          (if_it_is o m s (place o (record q { parked = q.parked ++ m ∷ [] }))
            (λ it. parks (omega (arith, b, it)) (omega (arith, c, e, it)) (sym a))
            (λ other. (a, omega (arith, b, other), omega (arith, c, e, other))))
    | inr now ↦
        let e = occurs-append o q.pending (m ∷ []) in
        rw (again, now)
          (if_it_is o m s (place o (record q { pending = q.pending ++ m ∷ [] }))
            (λ it. returns (omega (arith, b, it)) (omega (arith, a, e, it)) (sym c))
            (λ other. (omega (arith, a, e, other), omega (arith, b, other), c)))
  ]
]

pub settle-Course :
    (o object : ℕ) (c : AckHandler) (r : Resolution) (q q' : BusQueue) (buried : Option BusMessage)
    → settle object c r q ≡ some (q', buried)
    → Course (place o q) (place o q')
settle-Course o object c r q q' buried e =
    let s = settle-IsSettled object c r q q' buried e in
    let (_, sum) = drop_inflight-out o object q.inflight s.found in
    subst (λ x. Course (place o q) (place o x.0)) s.resolved
      (resolve-Course o r s.m (place o q) (record q { inflight = drop_inflight object q.inflight })
        refl sum refl)

pub redeliver-Course :
    (o object : ℕ) (q q' : BusQueue)
    → redeliver object q ≡ some q'
    → Course (place o q) (place o q')
unfolding redeliver
redeliver-Course o object q q' e = elim (Option-cases (find_object object q.parked)) [
  | inl missing ↦ absurd (ground arith)
  | inr (m, found) ↦
      let (_, sum) = drop_object-occurs o object q.parked found in
      let a = occurs-append o q.pending (m ∷ []) in
      let q'' : BusQueue = record q {
        pending = q.pending ++ m ∷ [];
        parked = drop_object object q.parked;
      } in
      let eq : q'' ≡ q' = ground arith in
      subst (λ x. Course (place o q) (place o x)) eq
        (if_it_is o m (place o q) (place o q'')
          (λ it. unparks (omega (arith, sum, it)) (omega (arith, a, it)) refl)
          (λ other. (omega (arith, a, other), refl, omega (arith, sum, other))))
]

pub expire-Course : (o object : ℕ) (q : BusQueue) → Course (place o q) (place o (expire object q).0)
unfolding expire
expire-Course o object q = elim (Option-cases (find_object object q.expiring)) [
  | inl unarmed ↦ rw (unarmed, expire) stay
  | inr (armed, found) ↦ elim (Option-cases (find_object object q.pending)) [
    | inr (m, waits) ↦
        let (_, sum) = drop_object-occurs o object q.pending waits in
        rw (found, waits, expire)
          (if_it_is o m (place o q) (place o (record q { pending = drop_object object q.pending }))
            (λ it. leaves_waiting (omega (arith, sum, it)) refl refl)
            (λ other. (omega (arith, sum, other), refl, refl)))
    | inl absent ↦ elim (Option-cases (find_inflight object q.inflight)) [
      | inl gone ↦ rw (found, absent, gone, expire) stay
      | inr ((m, c), away) ↦
          let (_, sum) = drop_inflight-out o object q.inflight away in
          rw (found, absent, away, expire)
            (if_it_is o m (place o q)
              (place o (record q { inflight = drop_inflight object q.inflight }))
              (λ it. leaves_delivered (omega (arith, sum, it)) refl refl)
              (λ other. (refl, omega (arith, sum, other), refl)))
    ]
  ]
]

decide-zero : (n : ℕ) → (n ≡ 0) ⊎ (1 ≤ n)
decide-zero zero = inl refl
decide-zero (suc n) = inr (omega arith)

others-out :
    (o : ℕ) (h : AckHandler) (es : List (BusMessage × AckHandler)) → out o (others h es) ≤ out o es
others-out o h [] = omega arith
others-out o h ((m, owner) ∷ es) = elim (Bool-cases (owner == h)) [
  | inl mine ↦ rw mine (omega (arith, others-out o h es))
  | inr other ↦ rw other (omega (arith, others-out o h es))
]

-- What is out with the handler goes back.
moves_back :
    (s s' : Place)
    → s'.waiting + s'.delivered ≡ s.waiting + s.delivered
    → s'.parked ≡ s.parked
    → s'.delivered ≤ s.delivered
    → total s ≤ 1
    → Course s s'
moves_back s s' sum k le u = elim (decide-zero (s.delivered - s'.delivered)) [
  | inl none_back ↦ stays s s' (omega arith) (omega arith) (sym k)
  | inr some_back ↦ go stay (returns (omega arith) (omega arith) k)
]

pub detach-Course :
    (o : ℕ) (h : AckHandler) (q : BusQueue) → IsUnique q → Course (place o q) (place o (detach h q))
detach-Course o h q u = rw (detach_lem h q u) (
    moves_back (place o q)
      (record {
        waiting = occurs o (returned h q.inflight q.pending);
        delivered = out o (others h q.inflight);
        parked = occurs o q.parked;
      })
      (returned-occurs o h q.inflight q.pending) refl (others-out o h q.inflight) (u o))

pub enqueue-Course :
    (o : ℕ) (m : BusMessage) (q : BusQueue)
    → one o m ≡ 0
    → Course (place o q) (place o (enqueue m q))
unfolding enqueue
enqueue-Course o m q e =
    let a = occurs-append o q.pending (m ∷ []) in
    stays (place o q) (place o (enqueue m q)) (omega (arith, a, e)) refl refl
