-- ===== src/Idempotency.antt =====
-- typescript/src/idempotency: `InMemoryIdempotencyStore`, `RedisIdempotencyStore` and
-- `idempotentHandler`. The time is an argument. The client of Redis is a parameter: `set_nx` is its
-- reply to `SET key 1 EX ttl NX`, none for the reply null.
pub mod Window
use messaging_poc.Common.{
  ℕ, ◌+◌, ◌*◌, String, List, [], ◌∷◌, ◌++◌, Bool, true, false, Option, none, some, if◌then◌else◌,
  string_eq, ltb, lookup, insert,
}

-- `seen`: a key and the time at which it expires, in milliseconds.
abbrev pub SeenKeys : Type 0
SeenKeys = List (String × ℕ)

-- `expiry !== undefined && expiry > now`
abbrev pub is_live : Option ℕ → ℕ → Bool
is_live none now = false
is_live (some expiry) now = ltb now expiry

-- `true` for a duplicate.
unfoldable pub try_mark_seen : String → ℕ → ℕ → SeenKeys → Bool × SeenKeys
try_mark_seen key ttl_seconds now seen =
    if is_live (lookup seen key) now
    then (true, seen)
    else (false, insert seen key (now + ttl_seconds * 1000))

abbrev is_null : Option String → Bool
is_null none = true
is_null (some reply) = false

-- `RedisIdempotencyStore.tryMarkSeen`: the reply null is a duplicate. The client may throw (`none`).
unfoldable pub redis_try_mark_seen :
    {Redis : Type 0} → (Redis → Option (Option String × Redis)) → Redis → Option (Bool × Redis)
redis_try_mark_seen set_nx redis = elim (set_nx redis) [
  | none ↦ none
  | some r ↦ some (is_null r.0, r.1)
]

-- What `idempotentHandler` does with a message: call `inner`, or `ack` it.
pub data Reaction : Type 0 where
  runs_inner acks_duplicate : Reaction

-- The reply of a store: `none` when `tryMarkSeen` throws, which the handler logs and forgets.
unfoldable pub handle_reply : Option Bool → Reaction
handle_reply none = runs_inner
handle_reply (some true) = acks_duplicate
handle_reply (some false) = runs_inner

-- `idempotentHandler` with the in-memory store, at one message.
unfoldable pub handle_message : String → ℕ → ℕ → SeenKeys → Reaction × SeenKeys
unfolding try_mark_seen handle_reply
handle_message key ttl_seconds now seen =
    let (duplicate, seen') = try_mark_seen key ttl_seconds now seen in
    (handle_reply (some duplicate), seen')

-- The deliveries of one handler in order, each with its key and its time.
unfoldable pub handle_all : ℕ → List (String × ℕ) → SeenKeys → List Reaction × SeenKeys
unfolding handle_message
handle_all ttl_seconds [] seen = ([], seen)
handle_all ttl_seconds ((key, now) ∷ ms) seen =
    let (r, seen') = handle_message key ttl_seconds now seen in
    let (rs, seen'') = handle_all ttl_seconds ms seen' in (r ∷ rs, seen'')

-- `idempotentHandler` with Redis.
unfoldable pub handle_with_redis :
    {Redis : Type 0} → (Redis → Option (Option String × Redis)) → Redis → Reaction × Redis
unfolding handle_reply redis_try_mark_seen
handle_with_redis set_nx redis = elim (redis_try_mark_seen set_nx redis) [
  | none ↦ (handle_reply none, redis)
  | some r ↦ (handle_reply (some r.0), r.1)
]
