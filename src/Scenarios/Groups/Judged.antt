-- ===== src/Scenarios/Groups/Judged.antt =====
-- The judgement of S12 against what it stands for.
use messaging_poc.Common.{
  ℕ, String, List, [], ◌∷◌, true, false, Option, none, some, if◌then◌else◌, ◌≡◌, ◌≢◌, refl, sym, ap,
  ◌∙◌, All, Bool-cases, Option-cases, ◌⊎◌, inl, inr, ◌↔◌, arith, is_empty, length, lookup, nat_eq,
  nat_eq_iff, subst, string_eq,
}
use messaging_poc.Scenarios.Verdict.{accepts}
use messaging_poc.Scenarios.Values.{out_of_order}
use messaging_poc.Scenarios.Groups.{
  Handled, Entry, all_groups, group_size, per_group, own, disorder, misplaced, misplacement,
  or_earlier, group_fault, judge_groups,
}
use messaging_poc.Scenarios.Groups.Order.{of_group, seqs_of, disorder-groups}
use messaging_poc.Scenarios.Groups.Owners.{owners_after, own-lookup}

-- One consumer handled all the messages of a group, and the other none.
abbrev pub IsPinned : Handled → String → Type 0
IsPinned l g =
    ((length (of_group g l.first) ≡ group_size) × (of_group g l.second ≡ []))
    ⊎ ((length (of_group g l.second) ≡ group_size) × (of_group g l.first ≡ []))

-- No consumer saw a group out of order, and each group is pinned to one consumer.
pub record IsGrouped (l : Handled) : Type 0 where
  pub first_in_order : (g : String) → out_of_order (seqs_of g l.first) ≡ false
  pub second_in_order : (g : String) → out_of_order (seqs_of g l.second) ≡ false
  pub pinned : All (IsPinned l) all_groups

-- The owners of a group, by the entries of the two consumers.
owners_of :
    (l : Handled) (g : String)
    → lookup (own 1 l.second (own 0 l.first [])) g
      ≡ owners_after 1
          (is_empty (of_group g l.second))
          (owners_after 0 (is_empty (of_group g l.first)) none)
owners_of l g =
    own-lookup 1 l.second (own 0 l.first []) g
    ∙ ap (owners_after 1 (is_empty (of_group g l.second))) (own-lookup 0 l.first [] g)

counted :
    (n : ℕ) (detail : String)
    → ((if nat_eq n group_size then none else some detail) ≡ none) ↔ (n ≡ group_size)
counted n detail = elim (Bool-cases (nat_eq n group_size)) [
  | inl full ↦ rw full (λ e. (nat_eq_iff n group_size).0 full, λ e. refl)
  | inr short ↦
      rw short (λ e. absurd (cc), λ e. absurd (ground (arith, short, e, nat_eq_iff n group_size)))
]

no_entries : (es : List Entry) → es ≡ [] → length es ≢ group_size
no_entries [] e six = ground (arith, six)
no_entries (x ∷ es) e six = absurd (cc)

placed :
    (l : Handled) (g : String) (a b : List Entry)
    → of_group g l.first ≡ a
    → of_group g l.second ≡ b
    → (misplaced l g (owners_after 1 (is_empty b) (owners_after 0 (is_empty a) none)) ≡ none)
      ↔ IsPinned l g
unfolding misplaced
placed l g [] [] ea eb = (
  λ e. absurd (cc),
  λ p. elim p [ inl q ↦ absurd (no_entries _ ea q.0) | inr q ↦ absurd (no_entries _ eb q.0) ],
)
placed l g (x ∷ a) [] ea eb = (
  λ e. inl ((counted _ _).0 e, eb),
  λ p. elim p [ inl q ↦ (counted _ _).1 q.0 | inr q ↦ absurd (cc) ],
)
placed l g [] (y ∷ b) ea eb = (
  λ e. inr ((counted _ _).0 e, ea),
  λ p. elim p [ inl q ↦ absurd (cc) | inr q ↦ (counted _ _).1 q.0 ],
)
placed l g (x ∷ a) (y ∷ b) ea eb =
    (λ e. absurd (cc), λ p. elim p [ inl q ↦ absurd (cc) | inr q ↦ absurd (cc) ])

placed_all :
    (l : Handled) (gs : List String)
    → (misplacement l (own 1 l.second (own 0 l.first [])) gs ≡ none) ↔ All (IsPinned l) gs
unfolding misplacement
placed_all l [] = (λ h. tt, λ h. refl)
placed_all l (g ∷ gs) =
    let here =
      subst (λ o. (misplaced l g o ≡ none) ↔ IsPinned l g) (sym (owners_of l g))
        (placed l g _ _ refl refl) in
    let later = placed_all l gs in
    elim (Option-cases (misplaced l g (lookup (own 1 l.second (own 0 l.first [])) g))) [
      | inl fine ↦ rw (fine, misplacement) (λ e. (here.0 fine, later.0 e), λ h. later.1 h.1)
      | inr (detail, wrong) ↦
          rw (wrong, misplacement) (λ e. absurd (cc), λ h. absurd (cc (here.1 h.0)))
    ]

earlier-none : (a b : Option String) → (or_earlier a b ≡ none) ↔ ((a ≡ none) × (b ≡ none))
earlier-none none b = (λ h. (refl, h), λ h. h.1)
earlier-none (some a) b = (λ h. absurd (cc), λ h. absurd (cc))

accepts-none : (l : Handled) → (accepts (judge_groups l) ≡ true) ↔ (group_fault l ≡ none)
unfolding judge_groups
accepts-none l = elim (Option-cases (group_fault l)) [
  | inl e ↦ rw (e, judge_groups) (λ h. refl, λ h. refl)
  | inr (detail, e) ↦ rw (e, judge_groups) (λ h. absurd (cc), λ h. absurd (cc))
]

-- S12 passes after its wait iff no consumer saw the messages of any group out of order, and of each of
-- the three groups one consumer got six messages, as many as are published, and the other none.
pub judge_groups-IsGrouped : (l : Handled) → (accepts (judge_groups l) ≡ true) ↔ IsGrouped l
unfolding group_fault
judge_groups-IsGrouped l =
    let fault = accepts-none l in
    let outer = earlier-none (disorder 0 (per_group l.first [])) _ in
    let inner = earlier-none (disorder 1 (per_group l.second [])) _ in
    let first = disorder-groups 0 l.first in
    let second = disorder-groups 1 l.second in
    let pinned = placed_all l all_groups in
    (
      λ ok.
          let none_is = outer.0 (fault.0 ok) in
          let rest = inner.0 none_is.1 in
          record {
            first_in_order = first.0 none_is.0;
            second_in_order = second.0 rest.0;
            pinned = pinned.0 rest.1;
          },
      λ h. fault.1 (
          outer.1
            (first.1 h.first_in_order, inner.1 (second.1 h.second_in_order, pinned.1 h.pinned))),
    )
