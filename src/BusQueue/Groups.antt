-- ===== src/BusQueue/Groups.antt =====
-- Message groups: what one round of the loop of `nextGroupDelivery` decides.
pub mod Order
use messaging_poc.Common.{
  ℕ, ◌+◌, List, [], ◌∷◌, ◌++◌, String, Bool, true, false, Option, none, some, ◌≡◌, refl, ap, sym,
  ◌≢◌, ◌⊎◌, inl, inr, arith, length, contains, lookup, insert, delete, lookup-insert, lookup-delete,
  ==_iff, ◌==◌, ℕ_eq, string_eq, All, All-get, Bool-cases, Option-cases, if◌then◌else◌, ◌∙◌, ◌||◌,
}
use messaging_poc.Abstractions.{AckHandler}
use messaging_poc.BusQueue.{
  BusMessage, pick_free, group, attached_owner, unpin_gone, pin, assign_to, assign,
}
use messaging_poc.BusQueue.Consumers.{pick_free-free, pick_free-all_busy}

abbrev pub Affinity : Type 0
Affinity = List (String × AckHandler)

module _ (cs taken : List AckHandler) where
  abbrev pub AllBusy : Type 0
  AllBusy = All (λ c. contains taken c ≡ true) cs

  -- Nothing of this group can be handed over now.
  abbrev pub IsBlocked : Affinity → BusMessage → Type 0
  IsBlocked affinity m =
      ((h : AckHandler) × (lookup affinity (group m) ≡ some h)
        × (contains cs h ≡ true)
        × (contains taken h ≡ true))
      ⊎ AllBusy

  -- The pins to attached consumers stay.
  abbrev pub KeepsPins : Affinity → Affinity → Type 0
  KeepsPins affinity affinity' =
      (g : String) (h : AckHandler)
      → lookup affinity g ≡ some h
      → contains cs h ≡ true
      → lookup affinity' g ≡ some h

  attached-cases :
      (o : Option AckHandler)
      → ((h : AckHandler) × (o ≡ some h) × (contains cs h ≡ true)) ⊎ (attached_owner cs o ≡ none)
  attached-cases none = inr refl
  attached-cases (some h) = elim (Bool-cases (contains cs h)) [
    | inl e ↦ inl (h, refl, e)
    | inr e ↦ inr (rw e)
  ]

  unpin_gone-KeepsPins :
      (affinity : Affinity) (g : String)
      → KeepsPins affinity (unpin_gone cs affinity g (lookup affinity g))
  unpin_gone-KeepsPins affinity g k h e a = elim (Option-cases (lookup affinity g)) [
    | inl missing ↦ rw missing e
    | inr (o, there) ↦ elim (Bool-cases (contains cs o)) [
      | inl attached ↦ rw (there, attached) e
      | inr gone ↦ rw (there, gone) (ground (arith, lookup-delete affinity g k, ==_iff g k))
    ]
  ]

  pin-KeepsPins :
      (affinity : Affinity) (g : String) (o : Option AckHandler)
      → attached_owner cs (lookup affinity g) ≡ none
      → KeepsPins affinity (pin affinity g o)
  pin-KeepsPins affinity g none u k h e a = e
  pin-KeepsPins affinity g (some c) u k h e a =
      ground (arith, lookup-insert affinity g k c, ==_iff g k)

  -- The pin of a group with no attached owner is no more after the check.
  unpin_gone-none :
      (affinity : Affinity) (g : String)
      → attached_owner cs (lookup affinity g) ≡ none
      → lookup (unpin_gone cs affinity g (lookup affinity g)) g ≡ none
  unpin_gone-none affinity g u = elim (Option-cases (lookup affinity g)) [
    | inl missing ↦ rw (missing, missing)
    | inr (o, there) ↦ elim (Bool-cases (contains cs o)) [
      | inl attached ↦ absurd (ground arith)
      | inr gone ↦ rw (there, gone) (ground (arith, lookup-delete affinity g g, ==_iff g g))
    ]
  ]

  module _ (m : BusMessage) (affinity : Affinity) (rr : ℕ) where
    assign_to-KeepsPins :
        (o : Option AckHandler)
        → attached_owner cs (lookup affinity (group m)) ≡ o
        → KeepsPins affinity (assign_to cs taken m affinity rr o).1
    assign_to-KeepsPins (some owner) u g h e a = e
    assign_to-KeepsPins none u g h e a =
        let kept = unpin_gone-KeepsPins affinity (group m) in
        pin-KeepsPins _ (group m) _ (rw (unpin_gone-none affinity (group m) u)) g h (kept g h e a) a

    pub assign-KeepsPins : KeepsPins affinity (assign cs taken m affinity rr).1
    unfolding assign
    assign-KeepsPins = assign_to-KeepsPins _ refl

    assign_to-some :
        (o : Option AckHandler) {c : AckHandler}
        → attached_owner cs (lookup affinity (group m)) ≡ o
        → (assign_to cs taken m affinity rr o).0 ≡ some c
        → (contains cs c ≡ true)
          × (contains taken c ≡ false)
          × (lookup (assign_to cs taken m affinity rr o).1 (group m) ≡ some c)
    assign_to-some (some owner) {c} u e = elim (attached-cases (lookup affinity (group m))) [
      | inl (h, there, attached) ↦ ground arith
      | inr unpinned ↦ absurd (cc)
    ]
    assign_to-some none {c} u e =
        let affinity' = unpin_gone cs affinity (group m) (lookup affinity (group m)) in
        let (attached, free) = pick_free-free (length cs) cs taken rr e in
        (
          attached,
          free,
          rw e (
              ground
                (arith, lookup-insert affinity' (group m) (group m) c, ==_iff (group m) (group m))),
        )

    pub assign-some :
        {c : AckHandler}
        → (assign cs taken m affinity rr).0 ≡ some c
        → (contains cs c ≡ true)
          × (contains taken c ≡ false)
          × (lookup (assign cs taken m affinity rr).1 (group m) ≡ some c)
    unfolding assign
    assign-some e = assign_to-some _ refl e

    assign_to-none :
        (o : Option AckHandler)
        → attached_owner cs (lookup affinity (group m)) ≡ o
        → (assign_to cs taken m affinity rr o).0 ≡ none
        → IsBlocked affinity m
    assign_to-none (some owner) u e = elim (attached-cases (lookup affinity (group m))) [
      | inl (h, there, attached) ↦ inl (h, there, attached, ground arith)
      | inr unpinned ↦ absurd (cc)
    ]
    assign_to-none none u e = inr (pick_free-all_busy cs taken rr e)

    pub assign-none : (assign cs taken m affinity rr).0 ≡ none → IsBlocked affinity m
    unfolding assign
    assign-none e = assign_to-none _ refl e
