-- ===== src/Settlement.antt =====
-- The flag `settled` of `toIncoming` in typescript/src/adapters/kafka.ts, rabbitmq.ts and artemis.ts:
-- what the closures `ack` and `nack` share, with the calls of the broker's client as data.
use messaging_poc.Common.{
  List, [], ◌∷◌, ◌++◌, Bool, true, false, Option, none, some, if◌then◌else◌, ◌≡◌, refl, ap,
}

-- A call that the handler makes on the message it got.
pub data Settlement : Type 0 where
  acked : Settlement
  nacked : Bool → Settlement

module _ {Call : Type 0} (calls : Settlement → List Call) where
  -- `if (settled) return; settled = true; …`
  unfoldable pub settle_once : Bool → Settlement → Bool × List Call
  settle_once settled s = if settled then (true, []) else (true, calls s)

  -- What a handler does that makes these calls on one message.
  unfoldable pub settle_all : Bool → List Settlement → List Call
  unfolding settle_once
  settle_all settled [] = []
  settle_all settled (s ∷ ss) =
      let (settled', made) = settle_once settled s in made ++ settle_all settled' ss

  settle_all-settled : (ss : List Settlement) → settle_all true ss ≡ []
  unfolding settle_all
  settle_all-settled [] = refl
  settle_all-settled (s ∷ ss) = settle_all-settled ss

append-[] {ℓ} : {A : Type ℓ} (xs : List A) → xs ++ [] ≡ xs
append-[] [] = refl
append-[] (x ∷ xs) = ap (λ t. x ∷ t) (append-[] xs)

-- The first call settles the message, and the others make no call of the broker's client.
pub settle_all-first :
    {Call : Type 0} (calls : Settlement → List Call) (s : Settlement) (ss : List Settlement)
    → settle_all calls false (s ∷ ss) ≡ calls s
unfolding settle_all
settle_all-first calls s ss = rw (settle_all-settled calls ss) (append-[] (calls s))

-- The settlement that counts: the first one, or the `nack` of a handler that throws before it settles.
abbrev pub effective : List Settlement → Bool → Option Settlement
effective (s ∷ ss) threw = some s
effective [] true = some (nacked true)
effective [] false = none

abbrev pub calls_of : {Call : Type 0} → (Settlement → List Call) → Option Settlement → List Call
calls_of calls none = []
calls_of calls (some s) = calls s

-- A delivery makes the calls of the settlement that counts, and no other.
pub settle_all-effective :
    {Call : Type 0} (calls : Settlement → List Call) (ss : List Settlement) (threw : Bool)
    → settle_all calls false (if threw then ss ++ nacked true ∷ [] else ss)
      ≡ calls_of calls (effective ss threw)
unfolding settle_all
settle_all-effective calls (s ∷ ss) true = settle_all-first calls s (ss ++ nacked true ∷ [])
settle_all-effective calls (s ∷ ss) false = settle_all-first calls s ss
settle_all-effective calls [] true = settle_all-first calls (nacked true) []
settle_all-effective calls [] false = refl
