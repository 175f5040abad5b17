-- ===== src/Scenarios/Yields.antt =====
-- What a program returns, when it returns: a predicate on the results, by the shape of the program.
use messaging_poc.Common.{ℕ, String, Bool, true, false, if◌then◌else◌, ◌⊎◌, inl, inr, ◌≡◌, refl}
use messaging_poc.Port.{Outcome, returned, threw, Op, after}
use messaging_poc.Runner.{ScenarioResult}
use messaging_poc.Scenarios.Program.{
  ◌>>=◌, ◌>>◌, ◌finally◌, finished, pure, continued, early, or_return, pass, fail, unsupported,
}
use messaging_poc.Scenarios.Verdict.{Verdict, passes, fails, conclude}

-- What it returns, it returns under the name.
abbrev pub HasName : String → ScenarioResult → Type 0
HasName name r = r.name ≡ name

-- The same of a part that may return early.
abbrev pub HasNameEarly : {A : Type 0} → String → ScenarioResult ⊎ A → Type 0
HasNameEarly name (inl r) = r.name ≡ name
HasNameEarly name (inr a) = Unit

module _ {W : Type 0} where
  -- All that the program returns is in `P`.
  abbrev pub Holds : {A : Type 0} → (A → Type 0) → Outcome A × W → Type 0
  Holds P (returned a, w) = P a
  Holds P (threw e, w) = Unit

  pub record Yields {A : Type 0} (P : A → Type 0) (m : Op W A) : Type 0 where
    pub holds : (w : W) → Holds P (m w)

  module _ {A B : Type 0} (P : B → Type 0) where
    holds-after :
        (o : Outcome A × W) (f : A → Op W B) → ((a : A) → Yields P (f a)) → Holds P (after f o)
    holds-after (returned a, w) f y = (y a).holds w
    holds-after (threw e, w) f y = tt

    pub Yields-bind :
        (m : Op W A) (f : A → Op W B) → ((a : A) → Yields P (f a)) → Yields P (m >>= f)
    unfolding ◌>>=◌
    Yields-bind m f y = record { holds = λ w. holds-after (m w) f y }

    holds-after_known :
        (Q : A → Type 0) (o : Outcome A × W) (f : A → Op W B)
        → Holds Q o
        → ((a : A) → Q a → Yields P (f a))
        → Holds P (after f o)
    holds-after_known Q (returned a, w) f q y = (y a q).holds w
    holds-after_known Q (threw e, w) f q y = tt

    -- The same with what is known of the first result.
    pub Yields-bind_known :
        (Q : A → Type 0) (m : Op W A) (f : A → Op W B)
        → Yields Q m
        → ((a : A) → Q a → Yields P (f a))
        → Yields P (m >>= f)
    unfolding ◌>>=◌
    Yields-bind_known Q m f q y = record { holds = λ w. holds-after_known Q (m w) f (q.holds w) y }

    pub Yields-then : (m : Op W A) (k : Op W B) → Yields P k → Yields P (m >> k)
    unfolding ◌>>◌
    Yields-then m k y = record { holds = λ w. holds-after (m w) (λ a. k) (λ a. y) }

  module _ {A : Type 0} (P : A → Type 0) where
    holds-finished :
        (o : Outcome A) (w : W) (u : Outcome Unit × W) → Holds P (o, w) → Holds P (finished o u)
    holds-finished (returned a) w (returned t, w') h = h
    holds-finished (threw e) w (returned t, w') h = tt
    holds-finished o w (threw e, w') h = tt

    pub Yields-finally :
        (m : Op W A) (cleanup : Op W Unit) → Yields P m → Yields P (m finally cleanup)
    unfolding ◌finally◌
    Yields-finally m cleanup y = record {
      holds = λ w. holds-finished (m w).0 (m w).1 (cleanup (m w).1) (y.holds w);
    }

    pub Yields-if :
        (b : Bool) (m k : Op W A) → Yields P m → Yields P k → Yields P (if b then m else k)
    Yields-if true m k ym yk = ym
    Yields-if false m k ym yk = yk

    -- The first branch under its condition.
    pub Yields-if_true :
        (b : Bool) (m k : Op W A)
        → (b ≡ true → Yields P m)
        → Yields P k
        → Yields P (if b then m else k)
    Yields-if_true true m k ym yk = ym refl
    Yields-if_true false m k ym yk = yk

    pub Yields-pure : (a : A) → P a → Yields P (pure a)
    Yields-pure a h = record { holds = λ w. h }

  holds-early :
      (A : Type 0) (name : String) (o : Outcome ScenarioResult × W)
      → Holds (HasName name) o
      → Holds (HasNameEarly {A = A} name) (after (λ r. pure (inl r)) o)
  holds-early A name (returned r, w) h = h
  holds-early A name (threw e, w) h = tt

  pub Yields-early :
      {A : Type 0} (name : String) (m : Op W ScenarioResult)
      → Yields (HasName name) m
      → Yields (HasNameEarly {A = A} name) (early m)
  unfolding early ◌>>=◌
  Yields-early name m y = record { holds = λ w. holds-early _ name (m w) (y.holds w) }

  holds-or_return :
      {A : Type 0} (name : String) (o : Outcome (ScenarioResult ⊎ A) × W)
      (rest : A → Op W ScenarioResult)
      → Holds (HasNameEarly name) o
      → ((a : A) → Yields (HasName name) (rest a))
      → Holds (HasName name) (after (continued rest) o)
  holds-or_return name (returned (inl r), w) rest h y = h
  holds-or_return name (returned (inr a), w) rest h y = (y a).holds w
  holds-or_return name (threw e, w) rest h y = tt

  pub Yields-or_return :
      {A : Type 0} (name : String) (m : Op W (ScenarioResult ⊎ A)) (rest : A → Op W ScenarioResult)
      → Yields (HasNameEarly name) m
      → ((a : A) → Yields (HasName name) (rest a))
      → Yields (HasName name) (or_return m rest)
  unfolding or_return ◌>>=◌
  Yields-or_return name m rest y yr = record {
    holds = λ w. holds-or_return name (m w) rest (y.holds w) yr;
  }

  module _ (clock : W → ℕ) (name : String) (t0 : ℕ) where
    pub Yields-pass : (detail : String) → Yields (HasName name) (pass clock name detail t0)
    unfolding pass
    Yields-pass detail = record { holds = λ w. refl }

    pub Yields-fail : (detail : String) → Yields (HasName name) (fail clock name detail t0)
    unfolding fail
    Yields-fail detail = record { holds = λ w. refl }

    pub Yields-unsupported :
        (detail : String) → Yields (HasName name) (unsupported clock name detail t0)
    unfolding unsupported
    Yields-unsupported detail = record { holds = λ w. refl }

    pub Yields-conclude : (v : Verdict) → Yields (HasName name) (conclude clock name t0 v)
    unfolding conclude
    Yields-conclude (passes detail) = Yields-pass detail
    Yields-conclude (fails detail) = Yields-fail detail

pub ruleset reporting = (
  Yields-bind, Yields-then, Yields-finally, Yields-if, Yields-pure, Yields-early, Yields-or_return,
  Yields-pass, Yields-fail, Yields-unsupported, Yields-conclude,
)
