-- ===== src/BusQueue/Groups/Order.antt =====
-- Message groups: what the scan of `nextGroupDelivery` finds.
use messaging_poc.Common.{
  ℕ, List, [], ◌∷◌, ◌++◌, true, false, Option, none, some, ◌≡◌, refl, ap, sym, ◌≢◌, inl, inr, arith,
  contains, lookup, ℕ_eq, ==_iff, ◌==◌, subst, string_eq, All, Bool-cases, Option-cases,
}
use messaging_poc.Abstractions.{AckHandler}
use messaging_poc.BusQueue.{BusMessage, group, assign, GroupScan, passed_over, scan_groups}
use messaging_poc.BusQueue.Groups.{
  Affinity, AllBusy, IsBlocked, KeepsPins, assign-KeepsPins, assign-some, assign-none,
}

pub All-contains :
    (P : AckHandler → Type 0) (cs : List AckHandler) (c : AckHandler)
    → All P cs
    → contains cs c ≡ true
    → P c
All-contains P [] c all a = absurd (cc)
All-contains P (d ∷ cs) c all a = elim (Bool-cases (d == c)) [
  | inl e ↦ subst P ((==_iff d c).0 e) all.0
  | inr e ↦ All-contains P cs c all.1 (ground arith)
]

module _ (cs taken : List AckHandler) where
  -- A delivery of a group: the message is the group's first, its consumer is attached and free, and
  -- the group is pinned to it.
  pub record IsGroupDelivery (ms left : List BusMessage) (m : BusMessage) (c : AckHandler)
      (affinity : Affinity) : Type 0 where
    pub before : List BusMessage
    pub after : List BusMessage
    pub whole : ms ≡ before ++ m ∷ after
    pub others : left ≡ before ++ after
    pub first : All (λ x. group x ≢ group m) before
    pub attached : contains cs c ≡ true
    pub free : contains taken c ≡ false
    pub pinned : lookup affinity (group m) ≡ some c

  busy-not_free :
      (c : AckHandler) → AllBusy cs taken → contains cs c ≡ true → contains taken c ≡ true
  busy-not_free c all a = All-contains _ cs c all a

  -- A message that is passed over is of another group than the one delivered.
  blocked-other_group :
      (x m : BusMessage) (c : AckHandler) (affinity affinity' : Affinity)
      → IsBlocked cs taken affinity x
      → KeepsPins cs taken affinity affinity'
      → contains cs c ≡ true
      → contains taken c ≡ false
      → lookup affinity' (group m) ≡ some c
      → group x ≢ group m
  blocked-other_group x m c affinity affinity' (inl (h, e, a, held)) keeps attached free pinned
        same =
      let q : lookup affinity' (group x) ≡ some h = keeps (group x) h e a in
      let q' : lookup affinity' (group m) ≡ some h = rw same at q in cc
  blocked-other_group x m c affinity affinity' (inr all) keeps attached free pinned same =
      let held = busy-not_free c all attached in cc

  module _ (x : BusMessage) (ms : List BusMessage) (affinity : Affinity) (rr : ℕ) where
    abbrev step_affinity : Affinity
    step_affinity = (assign cs taken x affinity rr).1

    abbrev rest_scan : GroupScan
    rest_scan = scan_groups cs taken ms step_affinity (assign cs taken x affinity rr).2

    scan_groups-passed :
        (assign cs taken x affinity rr).0 ≡ none
        → scan_groups cs taken (x ∷ ms) affinity rr ≡ passed_over x rest_scan
    unfolding scan_groups
    scan_groups-passed e = rw (e, scan_groups)

    scan_groups-found :
        {c : AckHandler}
        → (assign cs taken x affinity rr).0 ≡ some c
        → scan_groups cs taken (x ∷ ms) affinity rr ≡ record {
          found = some (x, c);
          left = ms;
          affinity = step_affinity;
          rr = (assign cs taken x affinity rr).2;
        }
    unfolding scan_groups
    scan_groups-found e = rw (e, scan_groups)

  pub scan_groups-KeepsPins :
      (ms : List BusMessage) (affinity : Affinity) (rr : ℕ)
      → KeepsPins cs taken affinity (scan_groups cs taken ms affinity rr).affinity
  unfolding scan_groups
  scan_groups-KeepsPins [] affinity rr g h e a = e
  scan_groups-KeepsPins (m ∷ ms) affinity rr g h e a =
      let (to, affinity', rr') = assign cs taken m affinity rr in
      let e' : lookup affinity' g ≡ some h = assign-KeepsPins cs taken m affinity rr g h e a in
      let later = scan_groups-KeepsPins ms affinity' rr' g h e' a in
      elim (Option-cases to) [
        | inl none_free ↦ rw (none_free, scan_groups) later
        | inr (c, given) ↦ rw (given, scan_groups) e'
      ]

  passed :
      (x : BusMessage) (ms : List BusMessage) (affinity : Affinity) (left : List BusMessage)
      (final : Affinity) (m : BusMessage) (c : AckHandler)
      → IsBlocked cs taken affinity x
      → KeepsPins cs taken affinity final
      → IsGroupDelivery ms left m c final
      → IsGroupDelivery (x ∷ ms) (x ∷ left) m c final
  passed x ms affinity left final m c blocked keeps d = record {
    before = x ∷ d.before;
    after = d.after;
    whole = ap (◌∷◌ x) d.whole;
    others = ap (◌∷◌ x) d.others;
    first = (
      blocked-other_group x m c affinity final blocked keeps d.attached d.free d.pinned,
      d.first,
    );
    attached = d.attached;
    free = d.free;
    pinned = d.pinned;
  }

  step-KeepsPins :
      (x : BusMessage) (ms : List BusMessage) (affinity : Affinity) (rr : ℕ)
      → KeepsPins cs taken affinity (rest_scan x ms affinity rr).affinity
  step-KeepsPins x ms affinity rr g h l a =
      scan_groups-KeepsPins ms (step_affinity x ms affinity rr) _ g h
        (assign-KeepsPins cs taken x affinity rr g h l a) a

  delivered_first :
      (x : BusMessage) (ms : List BusMessage) (d : AckHandler) (m : BusMessage) (c : AckHandler)
      (affinity : Affinity)
      → (contains cs d ≡ true) × (contains taken d ≡ false) × (lookup affinity (group x) ≡ some d)
      → ◌≡◌ {A = Option (BusMessage × AckHandler)} (some (x, d)) (some (m, c))
      → IsGroupDelivery (x ∷ ms) ms m c affinity
  delivered_first x ms d m c affinity (attached, free, pinned) e =
      let same : x ≡ m = cc in
      let to_same : d ≡ c = cc in
      rw (← same, ← to_same)
        (record {
          before = [];
          after = ms;
          whole = refl;
          others = refl;
          first = tt;
          attached = attached;
          free = free;
          pinned = pinned;
        })

  -- What the scan for a group delivery finds is the first waiting message of its group. Its consumer
  -- is attached and holds no message, the group is pinned to that consumer afterwards, and the other
  -- messages stay in order.
  pub scan_groups-IsGroupDelivery :
      (ms : List BusMessage) (affinity : Affinity) (rr : ℕ) (m : BusMessage) (c : AckHandler)
      → (scan_groups cs taken ms affinity rr).found ≡ some (m, c)
      → IsGroupDelivery ms
          (scan_groups cs taken ms affinity rr).left
          m
          c
          (scan_groups cs taken ms affinity rr).affinity
  unfolding scan_groups
  scan_groups-IsGroupDelivery [] affinity rr m c e = absurd (cc)
  scan_groups-IsGroupDelivery (x ∷ ms) affinity rr m c e =
      elim (Option-cases (assign cs taken x affinity rr).0) [
        | inl none_free ↦
            let eq = scan_groups-passed x ms affinity rr none_free in
            let found = subst (λ s. s.found ≡ some (m, c)) eq e in
            subst (λ s. IsGroupDelivery (x ∷ ms) s.left m c s.affinity) (sym eq)
              (passed x ms affinity _ _ m c (assign-none cs taken x affinity rr none_free)
                (step-KeepsPins x ms affinity rr)
                (scan_groups-IsGroupDelivery ms (step_affinity x ms affinity rr) _ m c found))
        | inr (d, given) ↦
            let eq = scan_groups-found x ms affinity rr given in
            let found = subst (λ s. s.found ≡ some (m, c)) eq e in
            subst (λ s. IsGroupDelivery (x ∷ ms) s.left m c s.affinity) (sym eq)
              (delivered_first x ms d m c _ (assign-some cs taken x affinity rr given) found)
      ]

  IsBlocked-KeepsPins :
      (x : BusMessage) (affinity affinity' : Affinity)
      → IsBlocked cs taken affinity x
      → KeepsPins cs taken affinity affinity'
      → IsBlocked cs taken affinity' x
  IsBlocked-KeepsPins x affinity affinity' (inl (h, e, a, held)) keeps =
      inl (h, keeps (group x) h e a, a, held)
  IsBlocked-KeepsPins x affinity affinity' (inr all) keeps = inr all

  -- Where the scan finds nothing it leaves every message in its place, and each one has to wait.
  pub scan_groups-none :
      (ms : List BusMessage) (affinity : Affinity) (rr : ℕ)
      → (scan_groups cs taken ms affinity rr).found ≡ none
      → ((scan_groups cs taken ms affinity rr).left ≡ ms)
        × All (IsBlocked cs taken (scan_groups cs taken ms affinity rr).affinity) ms
  unfolding scan_groups
  scan_groups-none [] affinity rr e = (refl, tt)
  scan_groups-none (x ∷ ms) affinity rr e = elim (Option-cases (assign cs taken x affinity rr).0) [
    | inl none_free ↦
        let eq = scan_groups-passed x ms affinity rr none_free in
        let (same, blocked) =
          scan_groups-none ms (step_affinity x ms affinity rr) _
            (subst (λ s. s.found ≡ none) eq e) in
        let here =
          IsBlocked-KeepsPins x affinity _ (assign-none cs taken x affinity rr none_free)
            (step-KeepsPins x ms affinity rr) in
        subst (λ s. (s.left ≡ x ∷ ms) × All (IsBlocked cs taken s.affinity) (x ∷ ms)) (sym eq)
          (ap (◌∷◌ x) same, (here, blocked))
    | inr (c, given) ↦
        let found = subst (λ s. s.found ≡ none) (scan_groups-found x ms affinity rr given) e in
        absurd (cc)
  ]
