-- ===== src/Sse/Docs/Channels.antt =====
-- The channels of the AsyncAPI document.
use mathlib.Core.List.{append-nil, append_assoc}
use messaging_poc.Common.{
  String, List, [], ◌∷◌, ◌++◌, map, ◌||◌, ◌==◌, ==_iff, string_eq, or_else, lookup, insert,
  lookup-insert, keep, contains, Distinct, ◌≡◌, refl, sym, ◌∙◌, ap, arith, Bool-cases, inl, inr,
}
use messaging_poc.Sse.Docs.{OperationDoc, SseContract, group_operations, by_pattern}

abbrev patterns : List (String × List OperationDoc) → List String
patterns groups = map (λ group. group.0) groups

-- The operations of the contract with this pattern.
abbrev of_pattern : String → List OperationDoc → List OperationDoc
of_pattern pattern ops = keep (λ op. op.routing_key_pattern == pattern) ops

contains-insert :
    (m : List (String × List OperationDoc)) (k j : String) (v : List OperationDoc)
    → contains (patterns (insert m k v)) j ≡ (contains (patterns m) j || k == j)
contains-insert [] k j v = ground arith
contains-insert ((i, w) ∷ m) k j v =
    ground (arith, ==_iff i k, ==_iff i j, ==_iff k j, contains-insert m k j v)

Distinct-insert :
    (m : List (String × List OperationDoc)) (k : String) (v : List OperationDoc)
    → Distinct (patterns m)
    → Distinct (patterns (insert m k v))
Distinct-insert [] k v d = (refl, tt)
Distinct-insert ((i, w) ∷ m) k v d = elim (Bool-cases (i == k)) [
  | inl same ↦ rw (same, insert) d
  | inr other ↦
      rw (other, insert)
        (
          ground (arith, contains-insert m k i v, ==_iff i k, ==_iff k i, other, d.0),
          Distinct-insert m k v d.1,
        )
]

Distinct-group :
    (ops : List OperationDoc) (m : List (String × List OperationDoc))
    → Distinct (patterns m)
    → Distinct (patterns (group_operations m ops))
unfolding group_operations
Distinct-group [] m d = d
Distinct-group (op ∷ ops) m d = Distinct-group ops _ (Distinct-insert m op.routing_key_pattern _ d)

lookup-group :
    (ops : List OperationDoc) (m : List (String × List OperationDoc)) (pattern : String)
    → or_else (lookup (group_operations m ops) pattern) []
      ≡ or_else (lookup m pattern) [] ++ of_pattern pattern ops
unfolding group_operations
lookup-group [] m pattern = sym (append-nil _)
lookup-group (op ∷ ops) m pattern =
    let k = op.routing_key_pattern in
    let v = or_else (lookup m k) [] ++ op ∷ [] in
    lookup-group ops (insert m k v) pattern
    ∙ (ap (λ o. or_else o [] ++ of_pattern pattern ops) (lookup-insert m k pattern v)
        ∙ elim (Bool-cases (k == pattern)) [
          | inl same ↦ rw same (
              append_assoc (or_else (lookup m k) []) (op ∷ []) (of_pattern pattern ops)
              ∙ ap (λ x. or_else (lookup m x) [] ++ (op ∷ of_pattern pattern ops))
                  ((==_iff k pattern).0 same))
          | inr other ↦ rw other refl
        ])

-- Each routing key pattern is one channel of the document, with exactly the operations of the contract
-- that have this pattern, in their order.
pub by_pattern-channels :
    (c : SseContract) (pattern : String)
    → Distinct (map (λ group. group.0) (by_pattern c))
      × (or_else (lookup (by_pattern c) pattern) []
          ≡ keep (λ op. op.routing_key_pattern == pattern) c.operations)
unfolding by_pattern
by_pattern-channels c pattern =
    (Distinct-group c.operations [] tt, lookup-group c.operations [] pattern)
