-- ===== src/Pump/Detach.antt =====
-- `unsubscribe`: the handler's messages go back to the queue, and nothing else moves.
use mathlib.Core.List.{append_assoc}
use messaging_poc.Common.{
  ℕ, ◌+◌, ◌≤◌, List, [], ◌∷◌, ◌++◌, true, false, not, ◌≡◌, refl, ap, sym, subst, inl, inr, arith,
  contains, erase, keep, ℕ_eq, string_eq, All-keep, Distinct, Bool-cases, ◌∙◌, if◌then◌else◌,
  ==_iff, ◌==◌,
}
use messaging_poc.Abstractions.{AckHandler}
use messaging_poc.BusQueue.{BusMessage, BusQueue}
use messaging_poc.Pump.{drop_inflight, take_back, give_back, detach}
use messaging_poc.Pump.Custody.{occurs, out, out-append, holds}
use messaging_poc.Pump.Sound.{Inflight, owners, IsAttached, IsSingle, IsSound}

-- No object stands in two places of the queue.
abbrev pub IsUnique : BusQueue → Type 0
IsUnique q = (o : ℕ) → holds o q ≤ 1

-- The messages in flight with other consumers, and `pending` with the handler's messages in front.
abbrev pub others : AckHandler → Inflight → Inflight
others h = keep (λ e. not (e.1 == h))

abbrev pub returned : AckHandler → Inflight → List BusMessage → List BusMessage
returned h [] pending = pending
returned h ((m, owner) ∷ es) pending = returned h es (if owner == h then m ∷ pending else pending)

drop-middle :
    (kept : Inflight) (m : BusMessage) (c : AckHandler) (es : Inflight)
    → out m.object (kept ++ (m, c) ∷ es) ≤ 1
    → drop_inflight m.object (kept ++ (m, c) ∷ es) ≡ kept ++ es
unfolding drop_inflight
drop-middle [] m c es h = ground (arith, ==_iff m.object m.object)
drop-middle ((x, d) ∷ kept) m c es h = elim (Bool-cases (x.object == m.object)) [
  | inl clash ↦
      absurd (ground (arith, out-append m.object kept ((m, c) ∷ es), ==_iff m.object m.object))
  | inr apart ↦ rw apart (ap (◌∷◌ (x, d)) (drop-middle kept m c es (ground arith)))
]

abbrev taken_back : BusMessage → BusQueue → BusQueue
taken_back m q = record q { inflight = drop_inflight m.object q.inflight; pending = m ∷ q.pending }

take_back-mine :
    (h : AckHandler) (m : BusMessage) (owner : AckHandler) (q : BusQueue)
    → (owner == h) ≡ true
    → take_back h m owner q ≡ taken_back m q
unfolding take_back
take_back-mine h m owner q e = ground arith

take_back-other :
    (h : AckHandler) (m : BusMessage) (owner : AckHandler) (q : BusQueue)
    → (owner == h) ≡ false
    → take_back h m owner q ≡ q
unfolding take_back
take_back-other h m owner q e = ground arith

give_back-inflight :
    (h : AckHandler) (kept es : Inflight) (q : BusQueue)
    → q.inflight ≡ kept ++ es
    → ((o : ℕ) → out o (kept ++ es) ≤ 1)
    → (give_back h es q).inflight ≡ kept ++ others h es
unfolding give_back
give_back-inflight h kept [] q e u = e ∙ refl
give_back-inflight h kept ((m, owner) ∷ es) q e u = elim (Bool-cases (owner == h)) [
  | inl mine ↦
      let dropped : drop_inflight m.object q.inflight ≡ kept ++ es =
        ap (drop_inflight m.object) e ∙ drop-middle kept m owner es (u m.object) in
      subst (λ x. (give_back h es x).inflight ≡ kept ++ others h ((m, owner) ∷ es))
        (sym (take_back-mine h m owner q mine))
        (rw mine (
          give_back-inflight h kept es (taken_back m q) dropped
            (λ o. omega (arith, u o, out-append o kept es, out-append o kept ((m, owner) ∷ es)))))
  | inr other ↦
      subst (λ x. (give_back h es x).inflight ≡ kept ++ others h ((m, owner) ∷ es))
        (sym (take_back-other h m owner q other))
        (rw (other, ← append_assoc kept ((m, owner) ∷ []) (others h es))
          (give_back-inflight h (kept ++ (m, owner) ∷ []) es q
            (e ∙ sym (append_assoc kept ((m, owner) ∷ []) es))
            (λ o. rw (append_assoc kept ((m, owner) ∷ []) es) (u o))))
]

give_back-pending :
    (h : AckHandler) (es : Inflight) (q : BusQueue)
    → (give_back h es q).pending ≡ returned h es q.pending
unfolding give_back
give_back-pending h [] q = refl
give_back-pending h ((m, owner) ∷ es) q = elim (Bool-cases (owner == h)) [
  | inl mine ↦
      subst (λ x. (give_back h es x).pending ≡ returned h ((m, owner) ∷ es) q.pending)
        (sym (take_back-mine h m owner q mine)) (rw mine (give_back-pending h es (taken_back m q)))
  | inr other ↦
      subst (λ x. (give_back h es x).pending ≡ returned h ((m, owner) ∷ es) q.pending)
        (sym (take_back-other h m owner q other)) (rw other (give_back-pending h es q))
]

-- Only `inflight` and `pending` change.
abbrev IsReturned : BusQueue → BusQueue → Type 0
IsReturned q q' = q' ≡ record q { inflight = q'.inflight; pending = q'.pending }

give_back-frame : (h : AckHandler) (es : Inflight) (q : BusQueue) → IsReturned q (give_back h es q)
unfolding give_back
give_back-frame h [] q = refl
give_back-frame h ((m, owner) ∷ es) q = elim (Bool-cases (owner == h)) [
  | inl mine ↦
      subst (λ x. IsReturned q (give_back h es x)) (sym (take_back-mine h m owner q mine))
        (give_back-frame h es (taken_back m q))
  | inr other ↦
      subst (λ x. IsReturned q (give_back h es x)) (sym (take_back-other h m owner q other))
        (give_back-frame h es q)
]

-- If no object stands in two places of the queue, `unsubscribe` takes the handler's first
-- subscription off and moves exactly its messages in flight to the front of `pending`, before it
-- pumps.
pub detach_lem :
    (h : AckHandler) (q : BusQueue)
    → IsUnique q
    → detach h q ≡ record q {
      consumers = erase q.consumers h;
      inflight = others h q.inflight;
      pending = returned h q.inflight q.pending;
    }
unfolding detach
detach_lem h q u =
    let q1 : BusQueue = record q { consumers = erase q.consumers h } in
    let out_once : (o : ℕ) → out o q.inflight ≤ 1 = λ o. omega (arith, u o) in
    let inflight = give_back-inflight h [] q.inflight q1 refl out_once in
    let pending = give_back-pending h q.inflight q1 in
    give_back-frame h q.inflight q1 ∙ λ i. record q1 { inflight = inflight i; pending = pending i }

pub returned-occurs :
    (o : ℕ) (h : AckHandler) (es : Inflight) (pending : List BusMessage)
    → occurs o (returned h es pending) + out o (others h es) ≡ occurs o pending + out o es
returned-occurs o h [] pending = refl
returned-occurs o h ((m, owner) ∷ es) pending = elim (Bool-cases (owner == h)) [
  | inl mine ↦ rw mine (omega (arith, returned-occurs o h es (m ∷ pending)))
  | inr other ↦ rw other (omega (arith, returned-occurs o h es pending))
]

-- If no object stands in two places of the queue, `unsubscribe` leaves every message object as often
-- in the queue as it was, before it pumps.
pub detach-holds :
    (o : ℕ) (h : AckHandler) (q : BusQueue) → IsUnique q → holds o (detach h q) ≡ holds o q
detach-holds o h q u =
    rw (detach_lem h q u) (omega (arith, returned-occurs o h q.inflight q.pending))

-- None of the handler's messages stays in flight.
others-not_mine :
    (h c : AckHandler) (es : Inflight)
    → contains (owners es) c ≡ false
    → contains (owners (others h es)) c ≡ false
others-not_mine h c [] e = refl
others-not_mine h c ((m, d) ∷ es) e = ground (arith, others-not_mine h c es)

Distinct-others :
    (h : AckHandler) (es : Inflight) → Distinct (owners es) → Distinct (owners (others h es))
Distinct-others h [] d = tt
Distinct-others h ((m, c) ∷ es) d = elim (Bool-cases (c == h)) [
  | inl mine ↦ rw mine (Distinct-others h es d.1)
  | inr other ↦ rw other (others-not_mine h c es d.0, Distinct-others h es d.1)
]

contains-erase :
    (cs : List AckHandler) (h c : AckHandler)
    → (c == h) ≡ false
    → contains (erase cs h) c ≡ contains cs c
contains-erase [] h c n = refl
contains-erase (d ∷ cs) h c n =
    ground (arith, contains-erase cs h c n, ==_iff d h, ==_iff d c, ==_iff c h)

IsAttached-others :
    (cs : List AckHandler) (h : AckHandler) (es : Inflight)
    → IsAttached cs es
    → IsAttached (erase cs h) (others h es)
IsAttached-others cs h [] a = tt
IsAttached-others cs h ((m, c) ∷ es) a = elim (Bool-cases (c == h)) [
  | inl mine ↦ rw mine (IsAttached-others cs h es a.1)
  | inr other ↦ rw other (contains-erase cs h c other ∙ a.0, IsAttached-others cs h es a.1)
]

IsSingle-others :
    (cs : List AckHandler) (h : AckHandler) (es : Inflight)
    → IsSingle cs es
    → IsSingle (erase cs h) (others h es)
IsSingle-others cs h es (inl none_out) = inl (ap (others h) none_out)
IsSingle-others cs h [] (inr (c, active, e)) = inl refl
IsSingle-others [] h ((m, d) ∷ []) (inr (c, active, e)) = absurd (cc)
IsSingle-others (x ∷ cs) h ((m, d) ∷ []) (inr (c, active, e)) = elim (Bool-cases (d == h)) [
  | inl mine ↦ rw mine (inl refl)
  | inr other ↦ let same : x ≡ d = ground arith in rw (same, other) (inr (d, refl, refl))
]
IsSingle-others cs h (x ∷ y ∷ es) (inr (c, active, e)) = absurd (cc)

pub detach-IsSound : (h : AckHandler) (q : BusQueue) → IsUnique q → IsSound q → IsSound (detach h q)
detach-IsSound h q u v = rw (detach_lem h q u) (record {
  one_each = Distinct-others h q.inflight v.one_each;
  attached = IsAttached-others q.consumers h q.inflight v.attached;
  single = λ s w. IsSingle-others q.consumers h q.inflight (v.single s w);
  owned = λ part. All-keep _ _ q.inflight (v.owned part);
  delivered = All-keep _ _ q.inflight v.delivered;
})
