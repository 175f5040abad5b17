-- ===== src/Common/Decimal.antt =====
-- A number in a template literal: its decimal digits.
use Prim.Native.Nat.{ℕ, zero, suc, ◌/◌, ◌%◌}
use Prim.Native.String
use Prim.Native.String.{String}
use mathlib.Core.Logic.{inl, inr}
use mathlib.Core.List.{List, [], ◌∷◌}
use messaging_poc.Common.Tests.{ltb, if◌then◌else◌, or_else, Bool-cases, Option-cases}
use messaging_poc.Common.Lists.{get_elem?, All, All-get}

abbrev pub digits : List String
digits = "0" ∷ "1" ∷ "2" ∷ "3" ∷ "4" ∷ "5" ∷ "6" ∷ "7" ∷ "8" ∷ "9" ∷ []

digit : ℕ → String
digit n = or_else (get_elem? digits n) ""

decimal_rounds : ℕ → ℕ → String
unfolding digit
decimal_rounds zero n = ""
decimal_rounds (suc rounds) n =
    let front = decimal_rounds rounds (n / 10) in
    if ltb n 10 then digit n else String.◌++◌ front (digit (n % 10))

-- A number has fewer digits than its successor counts.
unfoldable pub decimal : ℕ → String
unfolding decimal_rounds
decimal n = decimal_rounds (suc n) n

-- What holds of the digits and is kept by `◌++◌` holds of a decimal number.
module _ (P : String → Type 0) (empty : P "") (each : All P digits)
    (joined : (v w : String) → P v → P w → P (String.◌++◌ v w)) where
  digit-is : (n : ℕ) → P (digit n)
  unfolding digit
  digit-is n = elim (Option-cases (get_elem? digits n)) [
    | inl past ↦ rw (past, digit) empty
    | inr (d, there) ↦ rw (there, digit) (All-get P digits n each there)
  ]

  decimal_rounds-is : (rounds n : ℕ) → P (decimal_rounds rounds n)
  unfolding decimal_rounds
  decimal_rounds-is zero n = empty
  decimal_rounds-is (suc rounds) n = elim (Bool-cases (ltb n 10)) [
    | inl one ↦ rw (one, decimal_rounds) (digit-is n)
    | inr more ↦
        rw (more, decimal_rounds)
          (joined (decimal_rounds rounds (n / 10)) (digit (n % 10))
            (decimal_rounds-is rounds (n / 10)) (digit-is (n % 10)))
  ]

  pub decimal-is : (n : ℕ) → P (decimal n)
  unfolding decimal
  decimal-is n = decimal_rounds-is (suc n) n
