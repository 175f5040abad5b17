-- ===== src/Pump/Sound.antt =====
-- The invariant of a queue: one message for each consumer at most (a prefetch of 1), a single active
-- consumer, and groups pinned to the consumer that holds their message.
use mathlib.Core.List.{map-append}
use messaging_poc.Common.{
  ℕ, ◌≤◌, List, [], ◌∷◌, ◌++◌, map, true, false, some, ◌≡◌, refl, ap, sym, subst, ◌⊎◌, inr, arith,
  contains, contains-append, lookup, ℕ_eq, string_eq, All, All-append, Distinct, String, ==_iff,
}
use messaging_poc.Abstractions.{AckHandler}
use messaging_poc.BusQueue.{BusMessage, BusQueue, busy, group, first}
use messaging_poc.BusQueue.Groups.{KeepsPins}
use messaging_poc.Pump.{counted, hand_over, pull, pump}
use messaging_poc.Pump.Rounds.{pump-keeps}
use messaging_poc.Pump.Pull.{IsFramed, IsPulled, pull-IsPulled, pull-IsFramed}

abbrev pub Inflight : Type 0
Inflight = List (BusMessage × AckHandler)

abbrev pub owners : Inflight → List AckHandler
owners = map λ e. e.1

abbrev pub IsAttached : List AckHandler → Inflight → Type 0
IsAttached cs = All (λ e. contains cs e.1 ≡ true)

abbrev pub IsOwned : List (String × AckHandler) → Inflight → Type 0
IsOwned affinity = All (λ e. lookup affinity (group e.0) ≡ some e.1)

abbrev pub IsCounted : Inflight → Type 0
IsCounted = All (λ e. 1 ≤ e.0.delivery_count)

-- No message is out, or one is, with the first consumer.
abbrev pub IsSingle : List AckHandler → Inflight → Type 0
IsSingle cs es = (es ≡ []) ⊎ ((c : AckHandler) × (first cs ≡ some c) × (owners es ≡ c ∷ []))

pub record IsSound (q : BusQueue) : Type 0 where
  pub one_each : Distinct (owners q.inflight)
  pub attached : IsAttached q.consumers q.inflight
  pub single :
      q.single_active_consumer ≡ true
      → q.partition_by_group ≡ false
      → IsSingle q.consumers q.inflight
  pub owned : q.partition_by_group ≡ true → IsOwned q.group_affinity q.inflight
  pub delivered : IsCounted q.inflight

IsOwned-KeepsPins :
    (cs taken : List AckHandler) (a a' : List (String × AckHandler)) (es : Inflight)
    → KeepsPins cs taken a a'
    → IsAttached cs es
    → IsOwned a es
    → IsOwned a' es
IsOwned-KeepsPins cs taken a a' [] keeps at own = tt
IsOwned-KeepsPins cs taken a a' (e ∷ es) keeps at own =
    (keeps (group e.0) e.1 own.0 at.0, IsOwned-KeepsPins cs taken a a' es keeps at.1 own.1)

IsSound-frame :
    (q q' : BusQueue)
    → IsFramed q q'
    → KeepsPins q.consumers (busy q) q.group_affinity q'.group_affinity
    → IsSound q
    → IsSound q'
IsSound-frame q q' frame keeps v = subst IsSound (sym frame) (record {
  one_each = v.one_each;
  attached = v.attached;
  single = v.single;
  owned =
      λ part. IsOwned-KeepsPins q.consumers (busy q) _ _ q.inflight keeps v.attached (v.owned part);
  delivered = v.delivered;
})

Distinct-concat :
    (xs : List ℕ) (x : ℕ) → Distinct xs → contains xs x ≡ false → Distinct (xs ++ x ∷ [])
Distinct-concat [] x d n = (refl, tt)
Distinct-concat (y ∷ xs) x d n = (
  ground (arith, contains-append xs (x ∷ []) y, ==_iff x y, ==_iff y x, d.0),
  Distinct-concat xs x d.1 (ground arith),
)

Distinct-handed :
    (es : Inflight) (e : BusMessage × AckHandler)
    → Distinct (owners es)
    → contains (owners es) e.1 ≡ false
    → Distinct (owners (es ++ e ∷ []))
Distinct-handed es e d n =
    rw (map-append (λ x. x.1) es (e ∷ [])) (Distinct-concat (owners es) e.1 d n)

-- Handing over keeps the invariant.
hand_over-IsSound :
    (q q' : BusQueue) (m : BusMessage) (c : AckHandler)
    → IsPulled q m c q'
    → IsSound q
    → IsSound (hand_over m c q')
hand_over-IsSound q q' m c p v =
    subst (λ x. IsSound (hand_over m c x)) (sym p.frame)
      (record {
        one_each = Distinct-handed q.inflight (counted m, c) v.one_each p.free;
        attached = All-append _ q.inflight _ v.attached (p.attached, tt);
        single = λ s w.
            let (none_out, active) = p.alone s w in
            inr (c, active, ap (λ es. owners (es ++ (counted m, c) ∷ [])) none_out);
        owned = λ part.
            All-append _ q.inflight _
              (IsOwned-KeepsPins q.consumers (busy q) _ _ q.inflight p.pins v.attached
                (v.owned part))
              (p.pinned part, tt);
        delivered = All-append _ q.inflight _ v.delivered (omega arith, tt);
      })

pub pump-IsSound : (q : BusQueue) → IsSound q → IsSound (pump q).0
pump-IsSound =
    pump-keeps IsSound
      (λ q m c found v. hand_over-IsSound q (pull q).1 m c (pull-IsPulled q m c found) v)
      (λ q _ v. let (frame, keeps) = pull-IsFramed q in IsSound-frame q (pull q).1 frame keeps v)
