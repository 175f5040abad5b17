-- ===== src/Scenarios/Groups/Order.antt =====
-- The per-group sequences of a consumer are those of its entries.
use messaging_poc.Common.{
  ℕ, String, List, [], ◌∷◌, ◌++◌, map, All, Bool, false, Option, none, some, if◌then◌else◌, ◌≡◌,
  refl, sym, ◌∙◌, subst, Bool-cases, arith, inl, inr, ◌↔◌, keep, lookup, insert, lookup-insert,
  or_else, string_eq, ◌==◌, ==_iff,
}
use mathlib.Core.List.{append-nil, append_assoc}
use messaging_poc.Scenarios.Values.{out_of_order}
use messaging_poc.Scenarios.Groups.{Entry, per_group, disorder}

abbrev pub of_group : String → List Entry → List Entry
of_group g es = keep (λ e. e.group == g) es

abbrev pub seqs_of : String → List Entry → List (Option ℕ)
seqs_of g es = map (λ e. e.seq) (of_group g es)

abbrev pub PerGroup : Type 0
PerGroup = List (String × List (Option ℕ))

abbrev seqs_in : PerGroup → String → List (Option ℕ)
seqs_in m g = or_else (lookup m g) []

abbrev more : PerGroup → Entry → PerGroup
more m e = insert m e.group (seqs_in m e.group ++ e.seq ∷ [])

-- One entry more.
seqs_in-more :
    (m : PerGroup) (e : Entry) (es : List Entry) (g : String)
    → seqs_in (more m e) g ++ seqs_of g es ≡ seqs_in m g ++ seqs_of g (e ∷ es)
seqs_in-more m e es g = elim (Bool-cases (e.group == g)) [
  | inl same ↦
      rw (lookup-insert m e.group g (seqs_in m e.group ++ e.seq ∷ []), same)
        (subst
          (λ k. (seqs_in m k ++ e.seq ∷ []) ++ seqs_of g es ≡ seqs_in m g ++ e.seq ∷ seqs_of g es)
          (sym ((==_iff e.group g).0 same))
          (append_assoc (seqs_in m g) (e.seq ∷ []) (seqs_of g es)))
  | inr other ↦ rw (lookup-insert m e.group g (seqs_in m e.group ++ e.seq ∷ []), other) refl
]

pub per_group-seqs :
    (es : List Entry) (m : PerGroup) (g : String)
    → or_else (lookup (per_group es m) g) [] ≡ or_else (lookup m g) [] ++ seqs_of g es
unfolding per_group
per_group-seqs [] m g = sym (append-nil (seqs_in m g))
per_group-seqs (e ∷ es) m g = per_group-seqs es (more m e) g ∙ seqs_in-more m e es g

-- No key stands twice.
abbrev pub IsMap : PerGroup → Type 0
IsMap [] = Unit
IsMap ((k, v) ∷ m) = (lookup m k ≡ none) × IsMap m

fresh :
    (m : PerGroup) (k j : String) (v : List (Option ℕ))
    → lookup m j ≡ none
    → (j == k) ≡ false
    → lookup (insert m k v) j ≡ none
fresh m k j v missing other =
    ground (arith, ==_iff j k, ==_iff k j, lookup-insert m k j v, missing, other)

insert-IsMap : (m : PerGroup) (k : String) (v : List (Option ℕ)) → IsMap m → IsMap (insert m k v)
insert-IsMap [] k v h = (refl, tt)
insert-IsMap ((j, w) ∷ m) k v h = elim (Bool-cases (j == k)) [
  | inl same ↦ rw same h
  | inr other ↦ rw other (fresh m k j v h.0 other, insert-IsMap m k v h.1)
]

pub per_group-IsMap : (es : List Entry) (m : PerGroup) → IsMap m → IsMap (per_group es m)
unfolding per_group
per_group-IsMap [] m h = h
per_group-IsMap (e ∷ es) m h = per_group-IsMap es (more m e) (insert-IsMap m e.group _ h)

-- The sequences that are found at all keys are those of all entries.
found_all :
    (m : PerGroup)
    → IsMap m
    → ((g : String) → out_of_order (seqs_in m g) ≡ false)
    → All (λ p. out_of_order p.1 ≡ false) m
unfolding out_of_order
found_all [] h f = tt
found_all ((k, v) ∷ m) h f = (
  found k ((==_iff k k).1 refl) (f k),
  found_all m h.1 λ g. elim (Bool-cases (k == g)) [
    | inl same ↦ subst (λ j. out_of_order (seqs_in m j) ≡ false) ((==_iff k g).0 same) (rw h.0)
    | inr other ↦ found g other (f g)
  ],
)
  where
    found :
        {b c : Bool} (g : String)
        → b ≡ c
        → out_of_order (or_else (if b then some v else lookup m g) []) ≡ false
        → out_of_order (or_else (if c then some v else lookup m g) []) ≡ false
    found g e = subst (λ b. out_of_order (or_else (if b then some v else lookup m g) []) ≡ false) e

entries_all :
    (m : PerGroup)
    → All (λ p. out_of_order p.1 ≡ false) m
    → (g : String) → out_of_order (seqs_in m g) ≡ false
unfolding out_of_order
entries_all [] h g = refl
entries_all ((k, v) ∷ m) h g = elim (Bool-cases (k == g)) [
  | inl same ↦ rw same h.0
  | inr other ↦ rw other (entries_all m h.1 g)
]

disorder-none :
    (i : ℕ) (m : PerGroup) → (disorder i m ≡ none) ↔ All (λ p. out_of_order p.1 ≡ false) m
unfolding disorder
disorder-none i [] = (λ h. tt, λ h. refl)
disorder-none i ((k, v) ∷ m) = elim (Bool-cases (out_of_order v)) [
  | inl bad ↦ rw (bad, disorder) (λ e. absurd (cc), λ p. absurd (cc))
  | inr good ↦
      let ih = disorder-none i m in rw (good, disorder) (λ e. (refl, ih.0 e), λ p. ih.1 p.1)
]

-- A consumer has no disorder iff none of its groups is out of order.
pub disorder-groups :
    (i : ℕ) (es : List Entry)
    → (disorder i (per_group es []) ≡ none) ↔ ((g : String) → out_of_order (seqs_of g es) ≡ false)
disorder-groups i es =
    let m = per_group es [] in
    let in_map = disorder-none i m in
    let same = per_group-seqs es [] in
    (
      λ e g. subst (λ s. out_of_order s ≡ false) (same g) (entries_all m (in_map.0 e) g),
      λ h. in_map.1 (
          found_all m (per_group-IsMap es [] tt)
            λ g. subst (λ s. out_of_order s ≡ false) (sym (same g)) (h g)),
    )
