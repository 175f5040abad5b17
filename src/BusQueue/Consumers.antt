-- ===== src/BusQueue/Consumers.antt =====
-- Which consumer `nextConsumer` and `pickFreeConsumer` choose.
use messaging_poc.Common.{
  ℕ, zero, suc, ◌+◌, ◌-◌, ◌%◌, ◌<◌, List, [], ◌∷◌, true, false, none, some, ◌≡◌, refl, ap, sym, inl,
  inr, arith, length, get_elem?, contains, ==_iff, ◌==◌, ℕ_eq, All, All-get, Bool-cases,
  Option-cases, ◌∙◌, leb, leb→le,
}
use native.Mathlib.Nat.{mod-lt, mod-eq_of_lt, mod-add-mod, add-mod_right}
use messaging_poc.Abstractions.{AckHandler}
use messaging_poc.BusQueue.{pick_free}

pub contains_get : (cs : List ℕ) (i : ℕ) {c : ℕ} → get_elem? cs i ≡ some c → contains cs c ≡ true
contains_get [] i e = absurd (cc)
contains_get (x ∷ cs) zero {c = c} e = let same : (x == c) ≡ true = (==_iff x c).1 (cc) in rw same
contains_get (x ∷ cs) (suc i) e = ground (arith, contains_get cs i e)

-- A consumer that is picked is attached, and holds no message.
pub pick_free-free :
    (rounds : ℕ) (consumers taken : List AckHandler) (rr : ℕ) {c : AckHandler}
    → (pick_free rounds consumers taken rr).0 ≡ some c
    → (contains consumers c ≡ true) × (contains taken c ≡ false)
unfolding pick_free
pick_free-free zero consumers taken rr e = absurd (cc)
pick_free-free (suc rounds) consumers taken rr {c = c} e =
    elim (Option-cases (get_elem? consumers (rr % length consumers))) [
      | inl none_there ↦ absurd (ground arith)
      | inr (d, there) ↦ elim (Bool-cases (contains taken d)) [
        | inl held ↦ pick_free-free rounds consumers taken (rr + 1) (ground arith)
        | inr free ↦
            let same : d ≡ c = ground arith in
            rw (← same) (contains_get consumers (rr % length consumers) there, free)
      ]
    ]

get_elem?-lt {ℓ} :
    {A : Type ℓ} (xs : List A) (i : ℕ) → i < length xs → (a : A) × (get_elem? xs i ≡ some a)
get_elem?-lt [] i h = absurd (omega arith)
get_elem?-lt (x ∷ xs) zero h = (x, refl)
get_elem?-lt (x ∷ xs) (suc i) h = get_elem?-lt xs i (omega arith)

-- If none is picked, every place that the rounds visit holds a consumer with a message.
pick_free-none :
    (rounds : ℕ) (consumers taken : List AckHandler) (rr : ℕ) (k : ℕ) {c : AckHandler}
    → 0 < length consumers
    → (pick_free rounds consumers taken rr).0 ≡ none
    → k < rounds
    → get_elem? consumers ((rr + k) % length consumers) ≡ some c
    → contains taken c ≡ true
unfolding pick_free
pick_free-none zero consumers taken rr k h e lt g = absurd (omega arith)
pick_free-none (suc rounds) consumers taken rr zero {c = c} h e lt g =
    let here : rr + 0 ≡ rr = omega arith in
    let there : get_elem? consumers (rr % length consumers) ≡ some c = rw here at g in ground arith
pick_free-none (suc rounds) consumers taken rr (suc k) {c = c} h e lt g =
    let (d, there) = get_elem?-lt consumers (rr % length consumers) (mod-lt rr h) in
    let next : rr + suc k ≡ rr + 1 + k = omega arith in
    let g' : get_elem? consumers ((rr + 1 + k) % length consumers) ≡ some c = rw next at g in
    elim (Bool-cases (contains taken d)) [
      | inr free ↦ absurd (ground arith)
      | inl held ↦
          pick_free-none rounds consumers taken (rr + 1) k h (ground arith) (omega arith) g'
    ]

-- From any `rr`, as many rounds as there are places visit every place.
visits : (n rr j : ℕ) → j < n → (k : ℕ) × (k < n) × ((rr + k) % n ≡ j)
visits n rr j h = elim (Bool-cases (leb (rr % n) j)) [
  | inl le ↦ (
    j - rr % n,
    omega (arith, leb→le (rr % n) j le),
    sym (mod-add-mod rr n (j - rr % n)) ∙ ap (λ t. t % n) (sum_low le) ∙ mod-eq_of_lt h,
  )
  | inr gt ↦ (
    j + n - rr % n,
    ground arith,
    sym (mod-add-mod rr n (j + n - rr % n))
        ∙ ap (λ t. t % n) sum_high
        ∙ add-mod_right j n
        ∙ mod-eq_of_lt h,
  )
]
  where
    below : rr % n < n
    below = mod-lt rr (omega arith)

    sum_low : leb (rr % n) j ≡ true → rr % n + (j - rr % n) ≡ j
    sum_low le = omega (arith, leb→le (rr % n) j le)

    sum_high : rr % n + (j + n - rr % n) ≡ j + n
    sum_high = omega (arith, below)

All-of_get {ℓ κ} :
    {A : Type ℓ} (P : A → Type κ) (xs : List A)
    → ((i : ℕ) (x : A) → i < length xs → get_elem? xs i ≡ some x → P x)
    → All P xs
All-of_get P [] f = tt
All-of_get P (x ∷ xs) f =
    (f 0 x (omega arith) refl, All-of_get P xs (λ i y h e. f (suc i) y (omega arith) e))

-- The round robin over as many rounds as there are consumers picks none only if every consumer holds
-- a message.
pub pick_free-all_busy :
    (consumers taken : List AckHandler) (rr : ℕ)
    → (pick_free (length consumers) consumers taken rr).0 ≡ none
    → All (λ c. contains taken c ≡ true) consumers
pick_free-all_busy consumers taken rr e = All-of_get _ consumers λ j c h g.
    let (k, lt, at) = visits (length consumers) rr j h in
    pick_free-none (length consumers) consumers taken rr k (omega arith) e lt (rw at g)

-- If every consumer holds a message, none is picked.
pub pick_free-of_all_busy :
    (rounds : ℕ) (consumers taken : List AckHandler) (rr : ℕ)
    → All (λ c. contains taken c ≡ true) consumers
    → (pick_free rounds consumers taken rr).0 ≡ none
unfolding pick_free
pick_free-of_all_busy zero consumers taken rr a = refl
pick_free-of_all_busy (suc rounds) consumers taken rr a =
    elim (Option-cases (get_elem? consumers (rr % length consumers))) [
      | inl missing ↦ ground arith
      | inr (c, there) ↦
          let held : contains taken c ≡ true = All-get _ consumers _ a there in
          ground (arith, pick_free-of_all_busy rounds consumers taken (rr + 1) a)
    ]
