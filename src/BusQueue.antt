-- ===== src/BusQueue.antt =====
-- typescript/src/adapters/in-memory-bus.ts: `BusMessage` and the class `BusQueue`.
-- A message object is compared by identity in the source (`indexOf`, `Map` keys): its identity is the
-- field `object`. `Map` and `Set` are lists in insertion order. The closures that a queue's timers
-- hold are lists of the queue: `parked` (retry timers) and `expiring` (TTL timers).
pub mod Priority
pub mod Groups
pub mod Consumers
use messaging_poc.Common.{
  ℕ, zero, suc, ◌+◌, ◌%◌, String, List, [], ◌∷◌, map, Bool, true, ◌||◌, Option, none, some,
  if◌then◌else◌, ◌==◌, string_eq, ℕ_eq, or_else, length, is_empty, get_elem?, remove_at, contains,
  lookup, insert, delete, ℤ, pos, ltb_ℤ,
}
use messaging_poc.Abstractions.{Destination, AckHandler, Headers, TopologyKind}
use messaging_poc.TopicMatch.{topic_match}

-- `mem-stream-${seq}` and `mem-bus-${seq}`.
pub data MessageId : Type 0 where
  mem_stream mem_bus : ℕ → MessageId

pub record BusMessage : Type 0 where
  pub object : ℕ
  pub id : MessageId
  pub topic : Destination
  pub body : String
  pub routing_key : String
  pub delivery_count : ℕ
  pub priority : Option ℤ
  pub group_id : Option String
  pub dedup_id : Option String
  pub reply_to : Option String
  pub correlation_id : Option String
  pub ttl_ms : Option ℤ
  pub headers : Option Headers

pub record BusQueue : Type 0 where
  pub topic : Destination
  pub kind : TopologyKind
  pub routing_key : Option String
  pub max_deliveries : ℕ
  pub dead_letter : Bool
  pub retry_delay_ms : Option ℤ
  pub partition_by_group : Bool
  pub single_active_consumer : Bool
  pub pending : List BusMessage
  pub inflight : List (BusMessage × AckHandler)
  pub consumers : List AckHandler
  pub rr : ℕ
  pub group_affinity : List (String × AckHandler)
  pub parked : List BusMessage
  pub expiring : List BusMessage

-- `!this.routingKey`: a missing or an empty key.
binding_matches : Option String → String → Bool
binding_matches none message_key = true
binding_matches (some binding) message_key =
    if binding == "" then true else topic_match binding message_key

kind_matches : TopologyKind → Option String → String → Bool
kind_matches TopologyKind.fanout binding message_key = true
kind_matches TopologyKind.topic binding message_key = binding_matches binding message_key

unfoldable pub matches : BusQueue → String → Bool
unfolding kind_matches binding_matches
matches q message_key = kind_matches q.kind q.routing_key message_key

-- `new Set(this.inflight.values())`
abbrev pub busy : BusQueue → List AckHandler
busy q = map (λ e. e.1) q.inflight

-- The loop of `nextConsumer` and of `pickFreeConsumer`, with the rounds left: the consumer found, if
-- any, and the new `rr`.
unfoldable pub pick_free : ℕ → List AckHandler → List AckHandler → ℕ → Option AckHandler × ℕ
pick_free zero consumers taken rr = (none, rr)
pick_free (suc rounds) consumers taken rr =
    let next = pick_free rounds consumers taken (rr + 1) in
    elim (get_elem? consumers (rr % length consumers)) [
      | none ↦ (none, rr + 1)
      | some c ↦ if contains taken c then next else (some c, rr + 1)
    ]

abbrev pub first {ℓ} : {A : Type ℓ} → List A → Option A
first [] = none
first (x ∷ xs) = some x

-- The consumer, if any, and the new `rr`.
unfoldable pub next_consumer : BusQueue → Option AckHandler × ℕ
unfolding pick_free
next_consumer q =
    if is_empty q.consumers
    then (none, q.rr)
    else if q.single_active_consumer
    then (if is_empty q.inflight then first q.consumers else none, q.rr)
    else pick_free (length q.consumers) q.consumers (busy q) q.rr

-- `priority ?? 0`
abbrev pub rank : BusMessage → ℤ
rank m = or_else m.priority (pos 0)

-- The loop of `nextPending` from index `i`, with the best index so far and the rank found there.
unfoldable pub scan_best : List BusMessage → ℕ → ℕ → ℤ → ℕ
scan_best [] i best top = best
scan_best (m ∷ ms) i best top =
    let better = ltb_ℤ top (rank m) in
    scan_best ms (i + 1) (if better then i else best) (if better then rank m else top)

abbrev best_index : List BusMessage → ℕ
best_index [] = 0
best_index (m ∷ ms) = scan_best ms 1 0 (rank m)

-- The message taken out of `pending`, if any, and what is left there.
unfoldable pub next_pending : List BusMessage → Option BusMessage × List BusMessage
unfolding scan_best
next_pending pending =
    (get_elem? pending (best_index pending), remove_at pending (best_index pending))

-- `msg.groupId ?? ''`
abbrev pub group : BusMessage → String
group m = or_else m.group_id ""

-- The owner of a group that is still attached: `undefined` once the pinned consumer has gone.
abbrev pub attached_owner : List AckHandler → Option AckHandler → Option AckHandler
attached_owner consumers none = none
attached_owner consumers (some owner) = if contains consumers owner then some owner else none

-- The affinity after the check: a pin to a consumer that has gone is deleted.
abbrev pub unpin_gone :
    List AckHandler
    → List (String × AckHandler)
    → String
    → Option AckHandler
    → List (String × AckHandler)
unpin_gone consumers affinity g none = affinity
unpin_gone consumers affinity g (some owner) =
    if contains consumers owner then affinity else delete affinity g

-- First sight of the group: the free consumer, if any, becomes its owner.
abbrev pub pin :
    List (String × AckHandler) → String → Option AckHandler → List (String × AckHandler)
pin affinity g none = affinity
pin affinity g (some c) = insert affinity g c

-- The two ways on, for a group whose owner is attached and for any other.
abbrev pub assign_to :
    List AckHandler
    → List AckHandler
    → BusMessage
    → List (String × AckHandler)
    → ℕ
    → Option AckHandler
    → Option AckHandler × List (String × AckHandler) × ℕ
assign_to consumers taken m affinity rr (some owner) =
    (if contains taken owner then none else some owner, affinity, rr)
assign_to consumers taken m affinity rr none =
    let affinity' = unpin_gone consumers affinity (group m) (lookup affinity (group m)) in
    let (free, rr') = pick_free (length consumers) consumers taken rr in
    (free, pin affinity' (group m) free, rr')

-- The body of the loop of `nextGroupDelivery`: the consumer that gets this message, if any, with the
-- affinity and `rr` that the body leaves.
unfoldable pub assign :
    List AckHandler
    → List AckHandler
    → BusMessage
    → List (String × AckHandler)
    → ℕ
    → Option AckHandler × List (String × AckHandler) × ℕ
unfolding pick_free
assign consumers taken m affinity rr =
    assign_to consumers taken m affinity rr (attached_owner consumers (lookup affinity (group m)))

-- What the loop finds in the rest of `pending`: the message, its consumer and the rest without it.
pub record GroupScan : Type 0 where
  pub found : Option (BusMessage × AckHandler)
  pub left : List BusMessage
  pub affinity : List (String × AckHandler)
  pub rr : ℕ

abbrev pub passed_over : BusMessage → GroupScan → GroupScan
passed_over m s = record s { left = m ∷ s.left }

unfoldable pub scan_groups :
    List AckHandler → List AckHandler → List BusMessage → List (String × AckHandler) → ℕ → GroupScan
unfolding assign
scan_groups consumers taken [] affinity rr = record {
  found = none;
  left = [];
  affinity = affinity;
  rr = rr;
}
scan_groups consumers taken (m ∷ ms) affinity rr =
    let (to, affinity', rr') = assign consumers taken m affinity rr in
    let later = scan_groups consumers taken ms affinity' rr' in
    elim to [
      | some c ↦ record { found = some (m, c); left = ms; affinity = affinity'; rr = rr' }
      | none ↦ passed_over m later
    ]

unfoldable pub next_group_delivery : BusQueue → Option (BusMessage × AckHandler) × BusQueue
unfolding scan_groups
next_group_delivery q =
    if is_empty q.consumers || is_empty q.pending
    then (none, q)
    else let s = scan_groups q.consumers (busy q) q.pending q.group_affinity q.rr in
      (s.found, record q { pending = s.left; group_affinity = s.affinity; rr = s.rr })
