-- ===== src/Scenarios/Returns.antt =====
-- Programs that return, whatever the world: by the shape of the program.
use messaging_poc.Common.{Bool, true, false, if◌then◌else◌, ◌≡◌, refl}
use messaging_poc.Port.{Failure, Outcome, returned, threw, Op, after}
use messaging_poc.Scenarios.Program.{◌>>=◌, ◌finally◌, ◌catch◌, finished, recovered, pure, total}
use messaging_poc.Scenarios.Yields.{Holds, Yields}

module _ {W : Type 0} where
  abbrev pub HasReturned : {A : Type 0} → Outcome A × W → Type 0
  HasReturned {A = A} o = (a : A) × (w : W) × (o ≡ (returned a, w))

  pub record Returns {A : Type 0} (m : Op W A) : Type 0 where
    pub returns : (w : W) → HasReturned (m w)

  module _ {A : Type 0} where
    pub Returns-pure : (a : A) → Returns (pure {W = W} a)
    Returns-pure a = record { returns = λ w. (a, w, refl) }

    pub Returns-total : (f : W → A × W) → Returns (total f)
    unfolding total
    Returns-total f = record { returns = λ w. ((f w).0, (f w).1, refl) }

    pub Returns-if :
        (b : Bool) (m k : Op W A) → Returns m → Returns k → Returns (if b then m else k)
    Returns-if true m k rm rk = rm
    Returns-if false m k rm rk = rk

    has_recovered :
        (o : Outcome A × W) (handler : Failure → Op W A)
        → ((e : Failure) → Returns (handler e))
        → HasReturned (recovered handler o)
    has_recovered (returned a, w) handler r = (a, w, refl)
    has_recovered (threw e, w) handler r = (r e).returns w

    -- It does not matter what throws if the handler returns.
    pub Returns-catch :
        (m : Op W A) (handler : Failure → Op W A)
        → ((e : Failure) → Returns (handler e))
        → Returns (m catch handler)
    unfolding ◌catch◌
    Returns-catch m handler r = record { returns = λ w. has_recovered (m w) handler r }

    has_finished :
        (o : Outcome A) (w : W) (u : Outcome Unit × W)
        → HasReturned (o, w)
        → HasReturned u
        → HasReturned (finished o u)
    has_finished (returned a) w (returned t, w') h k = (a, w', refl)
    has_finished (threw e) w u h k = absurd (cc (h.2))
    has_finished (returned a) w (threw e, w') h k = absurd (cc (k.2))

    pub Returns-finally :
        (m : Op W A) (cleanup : Op W Unit)
        → Returns m
        → Returns cleanup
        → Returns (m finally cleanup)
    unfolding ◌finally◌
    Returns-finally m cleanup rm rc = record {
      returns =
          λ w. has_finished (m w).0 (m w).1 (cleanup (m w).1) (rm.returns w) (rc.returns (m w).1);
    }

    has_continued :
        {B : Type 0} (o : Outcome B × W) (f : B → Op W A)
        → HasReturned o
        → ((b : B) → Returns (f b))
        → HasReturned (after f o)
    has_continued (returned b, w) f h r = (r b).returns w
    has_continued (threw e, w) f h r = absurd (cc (h.2))

    pub Returns-bind :
        {B : Type 0} (m : Op W B) (f : B → Op W A)
        → Returns m
        → ((b : B) → Returns (f b))
        → Returns (m >>= f)
    unfolding ◌>>=◌
    Returns-bind m f rm rf = record { returns = λ w. has_continued (m w) f (rm.returns w) rf }

    holds-returned :
        (P : A → Type 0) (o : Outcome A × W)
        → HasReturned o
        → Holds P o
        → (a : A) × (w : W) × (o ≡ (returned a, w)) × P a
    holds-returned P (returned a, w) h p = (a, w, refl, p)
    holds-returned P (threw e, w) h p = absurd (cc (h.2))

    -- A program that returns, and returns only what is in `P`.
    pub Returns-Yields :
        (P : A → Type 0) (m : Op W A)
        → Returns m
        → Yields P m
        → (w : W) → (a : A) × (w' : W) × (m w ≡ (returned a, w')) × P a
    Returns-Yields P m r y w = holds-returned P (m w) (r.returns w) (y.holds w)

pub ruleset returning =
    (Returns-pure, Returns-total, Returns-if, Returns-catch, Returns-finally, Returns-bind)
