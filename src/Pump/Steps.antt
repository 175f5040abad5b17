-- ===== src/Pump/Steps.antt =====
-- The operations on one queue keep its invariant.
use messaging_poc.Common.{
  ℕ, List, [], ◌∷◌, ◌++◌, false, Option, some, ◌≡◌, refl, subst, inl, inr, arith, contains,
  contains-append, ℕ_eq, string_eq, All, All-map, Distinct, Bool-cases, Option-cases, ◌==◌, leb,
}
use messaging_poc.Abstractions.{AckHandler}
use messaging_poc.BusQueue.{BusMessage, BusQueue, first}
use messaging_poc.Pump.{
  find_inflight, drop_inflight, find_object, drop_object, delays, Resolution, ack, requeue, dead,
  resolve, redeliver, expire, attach, enqueue,
}
use messaging_poc.Pump.Custody.{IsSettled}
use messaging_poc.Pump.Sound.{Inflight, owners, IsSingle, IsSound}

All-drop :
    (P : BusMessage × AckHandler → Type 0) (object : ℕ) (es : Inflight)
    → All P es
    → All P (drop_inflight object es)
unfolding drop_inflight
All-drop P object [] h = tt
All-drop P object ((m, c) ∷ es) h = elim (Bool-cases (m.object == object)) [
  | inl hit ↦ rw hit h.1
  | inr miss ↦ rw miss (h.0, All-drop P object es h.1)
]

contains-drop :
    (object : ℕ) (es : Inflight) (c : AckHandler)
    → contains (owners es) c ≡ false
    → contains (owners (drop_inflight object es)) c ≡ false
unfolding drop_inflight
contains-drop object [] c h = refl
contains-drop object ((m, d) ∷ es) c h = ground (arith, contains-drop object es c)

Distinct-drop :
    (object : ℕ) (es : Inflight)
    → Distinct (owners es)
    → Distinct (owners (drop_inflight object es))
unfolding drop_inflight
Distinct-drop object [] d = tt
Distinct-drop object ((m, c) ∷ es) d = elim (Bool-cases (m.object == object)) [
  | inl hit ↦ rw hit d.1
  | inr miss ↦ rw miss (contains-drop object es c d.0, Distinct-drop object es d.1)
]

IsSingle-drop :
    (cs : List AckHandler) (object : ℕ) (es : Inflight)
    → IsSingle cs es
    → IsSingle cs (drop_inflight object es)
unfolding drop_inflight
IsSingle-drop cs object es (inl none_out) = inl (ground (arith, none_out))
IsSingle-drop cs object [] (inr (c, active, e)) = inl refl
IsSingle-drop cs object ((m, d) ∷ []) (inr (c, active, e)) =
    elim (Bool-cases (m.object == object)) [
      | inl hit ↦ rw hit (inl refl)
      | inr miss ↦ rw miss (inr (c, active, e))
    ]
IsSingle-drop cs object (x ∷ y ∷ es) (inr (c, active, e)) = absurd (cc)

drop-IsSound :
    (object : ℕ) (q : BusQueue)
    → IsSound q
    → IsSound (record q { inflight = drop_inflight object q.inflight })
drop-IsSound object q v = record {
  one_each = Distinct-drop object q.inflight v.one_each;
  attached = All-drop _ object q.inflight v.attached;
  single = λ s w. IsSingle-drop q.consumers object q.inflight (v.single s w);
  owned = λ part. All-drop _ object q.inflight (v.owned part);
  delivered = All-drop _ object q.inflight v.delivered;
}

-- `pending`, `parked` and `expiring` do not matter to the invariant.
lists-IsSound :
    (q : BusQueue) (pending parked expiring : List BusMessage)
    → IsSound q
    → IsSound (record q { pending = pending; parked = parked; expiring = expiring })
lists-IsSound q pending parked expiring v = record {
  one_each = v.one_each;
  attached = v.attached;
  single = v.single;
  owned = v.owned;
  delivered = v.delivered;
}

resolve-IsSound :
    (r : Resolution) (m : BusMessage) (q : BusQueue) → IsSound q → IsSound (resolve r m q).0
unfolding resolve
resolve-IsSound ack m q v = v
resolve-IsSound dead m q v = v
resolve-IsSound requeue m q v = elim (Bool-cases (leb q.max_deliveries m.delivery_count)) [
  | inl spent ↦ rw spent v
  | inr again ↦ elim (Bool-cases (delays q.retry_delay_ms)) [
    | inl later ↦ rw (again, later) (lists-IsSound q q.pending _ q.expiring v)
    | inr now ↦ rw (again, now) (lists-IsSound q _ q.parked q.expiring v)
  ]
]

pub settle-IsSound :
    (object : ℕ) (c : AckHandler) (r : Resolution) (q q' : BusQueue) (buried : Option BusMessage)
    → IsSettled object c r q q' buried
    → IsSound q
    → IsSound q'
settle-IsSound object c r q q' buried s v =
    subst (λ x. IsSound x.0) s.resolved (resolve-IsSound r s.m _ (drop-IsSound object q v))

pub redeliver-IsSound :
    (object : ℕ) (q q' : BusQueue) → redeliver object q ≡ some q' → IsSound q → IsSound q'
unfolding redeliver
redeliver-IsSound object q q' e v = elim (Option-cases (find_object object q.parked)) [
  | inl missing ↦ absurd (ground arith)
  | inr (m, found) ↦
      let q'' : BusQueue = record q {
        pending = q.pending ++ m ∷ [];
        parked = drop_object object q.parked;
      } in
      let eq : q'' ≡ q' = ground arith in subst IsSound eq (lists-IsSound q _ _ q.expiring v)
]

pub expire-IsSound : (object : ℕ) (q : BusQueue) → IsSound q → IsSound (expire object q).0
unfolding expire
expire-IsSound object q v = elim (Option-cases (find_object object q.expiring)) [
  | inl unarmed ↦ rw (unarmed, expire) v
  | inr (armed, found) ↦ elim (Option-cases (find_object object q.pending)) [
    | inr (m, waiting) ↦ rw (found, waiting, expire) (lists-IsSound q _ q.parked _ v)
    | inl absent ↦ elim (Option-cases (find_inflight object q.inflight)) [
      | inl gone ↦ rw (found, absent, gone, expire) (lists-IsSound q q.pending q.parked _ v)
      | inr ((m, c), out_there) ↦
          rw (found, absent, out_there, expire)
            (drop-IsSound object (record q { expiring = drop_object object q.expiring })
              (lists-IsSound q q.pending q.parked _ v))
    ]
  ]
]

pub enqueue-IsSound : (m : BusMessage) (q : BusQueue) → IsSound q → IsSound (enqueue m q)
unfolding enqueue
enqueue-IsSound m q v = lists-IsSound q _ q.parked _ v

first-append :
    (cs : List AckHandler) (c h : AckHandler) → first cs ≡ some c → first (cs ++ h ∷ []) ≡ some c
first-append [] c h e = absurd (cc)
first-append (d ∷ cs) c h e = e

pub attach-IsSound : (h : AckHandler) (q : BusQueue) → IsSound q → IsSound (attach h q)
attach-IsSound h q v = record {
  one_each = v.one_each;
  attached =
      All-map _ _ (λ e k. rw (contains-append q.consumers (h ∷ []) e.1, k) refl) q.inflight
        v.attached;
  single = λ s w. elim (v.single s w) [
    | inl none_out ↦ inl none_out
    | inr (c, active, e) ↦ inr (c, first-append q.consumers c h active, e)
  ];
  owned = v.owned;
  delivered = v.delivered;
}
