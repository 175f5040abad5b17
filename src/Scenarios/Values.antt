-- ===== src/Scenarios/Values.antt =====
-- The values that the scenarios compute with: loops over numbers, `some` and `every`, `Set`, `split` and
-- `Number`, and the texts of numbers.
use Prim.Native.Char.{Char, code}
use messaging_poc.Common.{
  ℕ, suc, zero, ◌+◌, ◌-◌, ◌*◌, String, List, [], ◌∷◌, Bool, true, false, Option, none, some,
  if◌then◌else◌, ◌&&◌, ◌||◌, StrictEq, ◌==◌, contains, decimal, join, ltb, leb, nat_eq, nat_eq_iff,
  ◌↔◌, ◌≡◌, refl, ap,
}

-- `n` numbers from `first` on.
unfoldable pub range : ℕ → ℕ → List ℕ
range first zero = []
range first (suc n) = first ∷ range (first + 1) n

module _ {A : Type 0} where
  unfoldable pub any_of : (A → Bool) → List A → Bool
  any_of p [] = false
  any_of p (x ∷ xs) = p x || any_of p xs

  unfoldable pub every : (A → Bool) → List A → Bool
  every p [] = true
  every p (x ∷ xs) = p x && every p xs

-- The elements of `new Set(xs)`, from the right.
unfoldable pub unique : {A : Type 0} ⦃e : StrictEq A⦄ → List A → List A
unique [] = []
unique (x ∷ xs) = let rest = unique xs in if contains xs x then rest else x ∷ rest

prepend : Char → List String → List String
prepend c [] = String.◌∷◌ c String.[] ∷ []
prepend c (word ∷ words) = String.◌∷◌ c word ∷ words

abbrev pub next : Option ℕ → Option ℕ
next none = none
next (some i) = some (i + 1)

-- `indexOf`, none for -1.
unfoldable pub index_of : {A : Type 0} ⦃e : StrictEq A⦄ → List A → A → Option ℕ
index_of [] a = none
index_of (x ∷ xs) a = let later = index_of xs a in if x == a then some 0 else next later

-- `split`, at a character.
unfoldable pub split : Char → String → List String
unfolding prepend
split at String.[] = String.[] ∷ []
split at (String.◌∷◌ c text) =
    let rest = split at text in
    if nat_eq (code c) (code at) then String.[] ∷ rest else prepend c rest

-- The second part of a split text.
abbrev pub second : List String → Option String
second [] = none
second (a ∷ []) = none
second (a ∷ b ∷ rest) = some b

digits_from : ℕ → String → Option ℕ
digits_from n String.[] = some n
digits_from n (String.◌∷◌ c text) =
    let rest = digits_from (n * 10 + (code c - b'0')) text in
    if leb b'0' (code c) && leb (code c) b'9' then rest else none

-- `Number` of what the scenarios publish, decimal digits; `none` is `NaN`.
unfoldable pub number : Option String → Option ℕ
unfolding digits_from
number none = none
number (some text) = digits_from 0 text

-- `a <= b`, false with a `NaN`.
unfoldable pub at_most : Option ℕ → Option ℕ → Bool
at_most (some a) (some b) = leb a b
at_most (some a) none = false
at_most none b = false

-- Some number is at most the number before it.
unfoldable pub out_of_order : List (Option ℕ) → Bool
unfolding at_most
out_of_order [] = false
out_of_order (a ∷ []) = false
out_of_order (a ∷ b ∷ rest) = at_most b a || out_of_order (b ∷ rest)

-- A number, or `undefined`, in a template literal.
unfoldable pub shown : Option ℕ → String
shown none = "undefined"
shown (some n) = decimal n

-- The same of what `Number` gives.
unfoldable pub shown_number : Option ℕ → String
shown_number none = "NaN"
shown_number (some n) = decimal n

abbrev pub or_undefined : Option String → String
or_undefined none = "undefined"
or_undefined (some text) = text

-- `join(',')`
abbrev pub commas : List String → String
commas = join ","

-- `===` of `Set` on what `Number` gives: a `NaN` is itself.
abbrev pub same_number : Option ℕ → Option ℕ → Bool
same_number none none = true
same_number (some a) (some b) = nat_eq a b
same_number none (some b) = false
same_number (some a) none = false

pub same_number_iff : (a b : Option ℕ) → (same_number a b ≡ true) ↔ (a ≡ b)
same_number_iff none none = (λ h. refl, λ h. refl)
same_number_iff none (some b) = (λ h. absurd (cc), λ h. absurd (cc))
same_number_iff (some a) none = (λ h. absurd (cc), λ h. absurd (cc))
same_number_iff (some a) (some b) =
    (λ h. ap some ((nat_eq_iff a b).0 h), λ h. (nat_eq_iff a b).1 (cc))

instance abbrev pub number_eq : StrictEq (Option ℕ)
number_eq = record { test = same_number; test_iff = same_number_iff }

-- `Math.max`, of two and of one or more; a `NaN` is the greatest of all.
abbrev pub larger : Option ℕ → Option ℕ → Option ℕ
larger none b = none
larger (some a) none = none
larger (some a) (some b) = some (if leb a b then b else a)

unfoldable pub greatest : List (Option ℕ) → Option ℕ
greatest [] = some 0
greatest (a ∷ []) = a
greatest (a ∷ b ∷ rest) = larger a (greatest (b ∷ rest))

-- `a < n`
abbrev pub below : Option ℕ → ℕ → Bool
below none n = false
below (some a) n = ltb a n
