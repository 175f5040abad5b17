-- ===== src/Common/Equality.antt =====
-- `===` on the types that the program compares, as an interface.
use Prim.Native.Nat.{ℕ}
use Prim.Native.String.{String}
use mathlib.Core.Path.{◌≡◌}
use mathlib.Core.Logic.{◌↔◌}
use mathlib.Core.Bool.{Bool, true}
use text.Mathlib.Text.{◌==◌ as same_text}
use text.Mathlib.TextEquality.{eq_iff}
use messaging_poc.Common.Tests.{nat_eq, nat_eq_iff}

-- A test of equality that is right.
pub record StrictEq {ℓ} (A : Type ℓ) : Type ℓ where
  pub test : A → A → Bool
  pub test_iff : (x y : A) → (test x y ≡ true) ↔ (x ≡ y)

instance abbrev pub string_eq : StrictEq String
string_eq = record { test = same_text; test_iff = eq_iff }

instance abbrev pub ℕ_eq : StrictEq ℕ
ℕ_eq = record { test = nat_eq; test_iff = nat_eq_iff }

module _ {ℓ} {A : Type ℓ} ⦃s : StrictEq A⦄ where
  infix 50 ◌==◌
  abbrev pub ◌==◌ : A → A → Bool
  x == y = s.test x y

  pub ==_iff : (x y : A) → ((x == y) ≡ true) ↔ (x ≡ y)
  ==_iff x y = s.test_iff x y
