-- ===== src/Idempotency/Window.antt =====
-- With the in-memory store, a key is handled once in every window of its lifetime.
use messaging_poc.Common.{
  ℕ, ◌+◌, ◌*◌, ◌≤◌, ◌<◌, String, List, [], ◌∷◌, Bool, true, false, some, ◌≡◌, refl, if◌then◌else◌,
  ◌==◌, ==_iff, string_eq, lookup, insert, lookup-insert, arith, Bool-cases, inl, inr, All, ◌∙◌,
  subst,
}
use messaging_poc.Idempotency.{
  SeenKeys, is_live, try_mark_seen, runs_inner, acks_duplicate, handle_reply, handle_message,
  handle_all,
}

-- The key is marked, and its mark lasts until `until` at least.
abbrev pub IsMarked : String → ℕ → SeenKeys → Type 0
IsMarked key until seen = (expiry : ℕ) × (lookup seen key ≡ some expiry) × (until ≤ expiry)

is_live-marked :
    (key : String) (until now : ℕ) (seen : SeenKeys)
    → IsMarked key until seen
    → now < until
    → is_live (lookup seen key) now ≡ true
is_live-marked key until now seen (expiry, e, h) k = rw e (ground arith)

-- A mark stays, while time goes on.
handle_message-IsMarked :
    (key other : String) (ttl until now : ℕ) (seen : SeenKeys)
    → IsMarked key until seen
    → now < until
    → IsMarked key until (handle_message other ttl now seen).1
unfolding handle_message try_mark_seen
handle_message-IsMarked key other ttl until now seen (expiry, e, h) k =
    elim (Bool-cases (is_live (lookup seen other) now)) [
      | inl live ↦ rw (live, handle_message) (expiry, e, h)
      | inr dead ↦ elim (Bool-cases (other == key)) [
        | inl same ↦
            let alike : other ≡ key = (==_iff other key).0 same in
            absurd (let l = is_live-marked key until now seen (expiry, e, h) k in cc)
        | inr apart ↦
            rw (dead, handle_message) (expiry, (lookup-insert seen other key _) ∙ rw apart e, h)
      ]
    ]

-- All the deliveries happen before `until`.
abbrev pub IsBefore : ℕ → List (String × ℕ) → Type 0
IsBefore until = All (λ m. m.1 < until)

handle_all-IsMarked :
    (key : String) (ttl until : ℕ) (ms : List (String × ℕ)) (seen : SeenKeys)
    → IsMarked key until seen
    → IsBefore until ms
    → IsMarked key until (handle_all ttl ms seen).1
unfolding handle_all
handle_all-IsMarked key ttl until [] seen m h = m
handle_all-IsMarked key ttl until ((other, now) ∷ ms) seen m h =
    handle_all-IsMarked key ttl until ms _
      (handle_message-IsMarked key other ttl until now seen m h.0) h.1

handle_message-marks :
    (key : String) (ttl now : ℕ) (seen : SeenKeys)
    → (handle_message key ttl now seen).0 ≡ runs_inner
    → IsMarked key (now + ttl * 1000) (handle_message key ttl now seen).1
unfolding handle_message try_mark_seen handle_reply
handle_message-marks key ttl now seen ran = elim (Bool-cases (is_live (lookup seen key) now)) [
  | inl live ↦ absurd (
      let r : acks_duplicate ≡ runs_inner =
        subst
          (λ b.
            (let (d, seen') : Bool × SeenKeys =
                (if b then (true, seen) else (false, insert seen key (now + ttl * 1000))) in
              handle_reply (some d))
            ≡ runs_inner)
          live ran in
      cc)
  | inr dead ↦
      rw (dead, handle_message)
        (
          now + ttl * 1000,
          lookup-insert seen key key _ ∙ rw ((==_iff key key).1 refl) refl,
          omega arith,
        )
]

-- With the in-memory store, which does not throw: after a message runs the inner handler, a message with
-- its key is acked without running it, whatever messages come between, as long as they and it come
-- within the lifetime of the key.
pub handle_message-once :
    (key : String) (ttl now later : ℕ) (between : List (String × ℕ)) (seen : SeenKeys)
    → (handle_message key ttl now seen).0 ≡ runs_inner
    → IsBefore (now + ttl * 1000) between
    → later < now + ttl * 1000
    → (handle_message key ttl later
        (handle_all ttl between (handle_message key ttl now seen).1).1).0
      ≡ acks_duplicate
unfolding try_mark_seen handle_reply handle_message
handle_message-once key ttl now later between seen ran h k =
    let marked =
      handle_all-IsMarked key ttl (now + ttl * 1000) between _
        (handle_message-marks key ttl now seen ran) h in
    let live = is_live-marked key _ later _ marked k in rw (live, handle_message) refl
