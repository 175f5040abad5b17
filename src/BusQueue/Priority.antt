-- ===== src/BusQueue/Priority.antt =====
-- Which message `nextPending` takes: the first one of the highest priority.
use messaging_poc.Common.{
  ℕ, ◌+◌, List, [], ◌∷◌, ◌++◌, none, some, ◌≡◌, refl, ap, sym, ◌∙◌, length-append, inl, inr, arith,
  length, get_elem?, remove_at, ltb_ℤ, ltb_ℤ→lt, not-ltb_ℤ→le, ◌≤ℤ◌, ◌<ℤ◌, All, All-append, All-map,
  Bool-cases,
}
use mathlib.Core.List.{append-nil, append_assoc}
use messaging_poc.BusQueue.{BusMessage, rank, scan_best, best_index, next_pending}

-- `m` stands in `ms` before `rest`'s other elements `ys` and behind `xs`.
pub record IsTaken (ms : List BusMessage) (m : BusMessage) (rest : List BusMessage) : Type 0 where
  pub before : List BusMessage
  pub after : List BusMessage
  pub whole : ms ≡ before ++ m ∷ after
  pub others : rest ≡ before ++ after

abbrev pub AllBelow : BusMessage → List BusMessage → Type 0
AllBelow m = All (λ x. rank x <ℤ rank m)

abbrev pub AllUpTo : BusMessage → List BusMessage → Type 0
AllUpTo m = All (λ x. rank x ≤ℤ rank m)

-- A message that is taken is the first of the highest priority.
pub record IsBest (ms : List BusMessage) (m : BusMessage) (rest : List BusMessage) : Type 0 where
  pub before : List BusMessage
  pub after : List BusMessage
  pub whole : ms ≡ before ++ m ∷ after
  pub others : rest ≡ before ++ after
  pub overtakes : AllBelow m before
  pub not_overtaken : AllUpTo m after

get_elem?-middle {ℓ} :
    {A : Type ℓ} (xs : List A) (a : A) (ys : List A) → get_elem? (xs ++ a ∷ ys) (length xs) ≡ some a
get_elem?-middle [] a ys = refl
get_elem?-middle (x ∷ xs) a ys = get_elem?-middle xs a ys

remove_at-middle {ℓ} :
    {A : Type ℓ} (xs : List A) (a : A) (ys : List A)
    → remove_at (xs ++ a ∷ ys) (length xs) ≡ xs ++ ys
remove_at-middle [] a ys = refl
remove_at-middle (x ∷ xs) a ys = ap (◌∷◌ x) (remove_at-middle xs a ys)

-- The best message stands at index `k`.
record IsBestAt (ms : List BusMessage) (k : ℕ) : Type 0 where
  before : List BusMessage
  best : BusMessage
  after : List BusMessage
  whole : ms ≡ before ++ best ∷ after
  position : k ≡ length before
  overtakes : AllBelow best before
  not_overtaken : AllUpTo best after

AllBelow-later :
    (xs : List BusMessage) (b : BusMessage) (ys : List BusMessage) (z : BusMessage)
    → rank b <ℤ rank z
    → AllBelow b xs
    → AllUpTo b ys
    → AllBelow z (xs ++ b ∷ ys)
AllBelow-later xs b ys z h hx hy =
    All-append _ xs (b ∷ ys) (All-map _ _ (λ x k. omega arith) xs hx)
      (h, All-map _ _ (λ x k. omega arith) ys hy)

-- The loop invariant: among the messages that were looked at, the best one is known.
scan_best_lem :
    (ms xs : List BusMessage) (b : BusMessage) (ys zs : List BusMessage) (i : ℕ)
    → i ≡ length (xs ++ b ∷ ys)
    → ms ≡ (xs ++ b ∷ ys) ++ zs
    → AllBelow b xs
    → AllUpTo b ys
    → IsBestAt ms (scan_best zs i (length xs) (rank b))
unfolding scan_best
scan_best_lem ms xs b ys [] i e w hx hy = record {
  before = xs;
  best = b;
  after = ys;
  whole = w ∙ append-nil _;
  position = refl;
  overtakes = hx;
  not_overtaken = hy;
}
scan_best_lem ms xs b ys (z ∷ zs) i e w hx hy = elim (Bool-cases (ltb_ℤ (rank b) (rank z))) [
  | inl better ↦
      rw (better, e)
        (scan_best_lem ms (xs ++ b ∷ ys) z [] zs _
          (omega (arith, length-append (xs ++ b ∷ ys) (z ∷ [])))
          (w ∙ sym (append_assoc _ (z ∷ []) zs))
          (AllBelow-later xs b ys z (ltb_ℤ→lt (rank b) (rank z) better) hx hy) tt)
  | inr worse ↦ rw worse (
      scan_best_lem ms xs b (ys ++ z ∷ []) zs (i + 1)
        (omega (
          arith,
          length-append xs (b ∷ ys),
          length-append xs (b ∷ (ys ++ z ∷ [])),
          length-append ys (z ∷ []),
        ))
        (w ∙ simp append_assoc) hx
        (All-append _ ys (z ∷ []) hy (not-ltb_ℤ→le (rank b) (rank z) worse, tt)))
]

best_index-IsBestAt :
    (m : BusMessage) (ms : List BusMessage) → IsBestAt (m ∷ ms) (best_index (m ∷ ms))
best_index-IsBestAt m ms = scan_best_lem (m ∷ ms) [] m [] ms 1 refl refl tt tt

best_index-IsBest :
    (ms rest : List BusMessage) (m : BusMessage)
    → get_elem? ms (best_index ms) ≡ some m
    → remove_at ms (best_index ms) ≡ rest
    → IsBest ms m rest
best_index-IsBest [] rest m e r = absurd (cc)
best_index-IsBest (x ∷ ms) rest m e r =
    let p = best_index-IsBestAt x ms in
    let found : get_elem? (x ∷ ms) (best_index (x ∷ ms)) ≡ some p.best =
      rw (p.position, p.whole) (get_elem?-middle p.before p.best p.after) in
    let same : p.best ≡ m = cc in
    record {
      before = p.before;
      after = p.after;
      whole = rw (← same) p.whole;
      others = sym r ∙ rw (p.position, p.whole) (remove_at-middle p.before p.best p.after);
      overtakes = rw (← same) p.overtakes;
      not_overtaken = rw (← same) p.not_overtaken;
    }

-- The message that `nextPending` takes has a higher priority than every message before it and none
-- lower than a message after it. The others stay in order.
pub next_pending-IsBest :
    (pending : List BusMessage) (m : BusMessage)
    → (next_pending pending).0 ≡ some m
    → IsBest pending m (next_pending pending).1
unfolding next_pending
next_pending-IsBest pending m e = best_index-IsBest pending _ m e refl

-- It takes nothing from an empty list only.
pub next_pending-none :
    (pending : List BusMessage)
    → (next_pending pending).0 ≡ none
    → (pending ≡ []) × ((next_pending pending).1 ≡ [])
unfolding next_pending
next_pending-none [] e = (refl, refl)
next_pending-none (x ∷ ms) e =
    let p = best_index-IsBestAt x ms in
    let found : get_elem? (x ∷ ms) (best_index (x ∷ ms)) ≡ some p.best =
      rw (p.position, p.whole) (get_elem?-middle p.before p.best p.after) in
    absurd (cc)
