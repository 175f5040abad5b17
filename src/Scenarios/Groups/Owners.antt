-- ===== src/Scenarios/Groups/Owners.antt =====
-- The owners of a group are the consumers that have an entry of it.
use messaging_poc.Common.{
  ℕ, String, List, [], ◌∷◌, ◌++◌, Bool, true, false, Option, some, if◌then◌else◌, ◌≡◌, refl, sym,
  ap, ◌∙◌, Bool-cases, inl, inr, lookup, insert, lookup-insert, or_else, contains, contains-append,
  string_eq, ℕ_eq, ◌==◌, ==_iff, is_empty, subst,
}
use messaging_poc.Scenarios.Groups.{Entry, own}
use messaging_poc.Scenarios.Groups.Order.{of_group}

abbrev with_owner : ℕ → Option (List ℕ) → List ℕ
with_owner i o = if contains (or_else o []) i then or_else o [] else or_else o [] ++ i ∷ []

-- A consumer is an owner once.
with_owner-twice :
    (i : ℕ) (o : Option (List ℕ)) → with_owner i (some (with_owner i o)) ≡ with_owner i o
with_owner-twice i o = elim (Bool-cases (contains (or_else o []) i)) [
  | inl in_it ↦ rw in_it (rw in_it refl)
  | inr not_in ↦
      rw not_in rw (contains-append (or_else o []) (i ∷ []) i, not_in, (==_iff i i).1 refl) refl
]

abbrev pub owners_after : ℕ → Bool → Option (List ℕ) → Option (List ℕ)
owners_after i true o = o
owners_after i false o = some (with_owner i o)

owners_after-owned :
    (i : ℕ) (b : Bool) (o : Option (List ℕ))
    → owners_after i b (some (with_owner i o)) ≡ some (with_owner i o)
owners_after-owned i true o = refl
owners_after-owned i false o = ap some (with_owner-twice i o)

pub own-lookup :
    (i : ℕ) (es : List Entry) (m : List (String × List ℕ)) (g : String)
    → lookup (own i es m) g ≡ owners_after i (is_empty (of_group g es)) (lookup m g)
unfolding own
own-lookup i [] m g = refl
own-lookup i (e ∷ es) m g =
    let owners = with_owner i (lookup m e.group) in
    own-lookup i es (insert m e.group owners) g ∙ elim (Bool-cases (e.group == g)) [
      | inl same ↦
          rw (lookup-insert m e.group g owners, same)
            (subst
              (λ k.
                owners_after i (is_empty (of_group g es)) (some (with_owner i (lookup m k)))
                ≡ some (with_owner i (lookup m g)))
              (sym ((==_iff e.group g).0 same))
              (owners_after-owned i (is_empty (of_group g es)) (lookup m g)))
      | inr other ↦ rw (lookup-insert m e.group g owners, other) refl
    ]
