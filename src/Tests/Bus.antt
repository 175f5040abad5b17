-- ===== src/Tests/Bus.antt =====
-- The in-memory bus at concrete inputs.
use messaging_poc.Common.{
  ℕ, String, List, [], ◌∷◌, map, true, false, Option, none, some, ◌≡◌, refl, ◌↔◌, pos, ℤ, ℕ_eq,
  string_eq, arith, erase, get_elem?, length,
}
use messaging_poc.Abstractions.{
  no_publish_options, no_subscribe_options, TopologyKind, dead_letter_address, PublishOptions,
  expiry_address,
}
use messaging_poc.TopicMatch.{match}
use messaging_poc.TopicMatch.Relation.{Matches, match_iff}
use messaging_poc.BusQueue.{
  mem_bus, BusMessage, BusQueue, next_pending, scan_groups, matches, next_consumer,
}
use messaging_poc.BusQueue.Priority.{IsBest, next_pending-IsBest}
use messaging_poc.BusQueue.Groups.Order.{IsGroupDelivery, scan_groups-IsGroupDelivery}
use messaging_poc.Pump.{pull, pump, detach, enqueue, pull_plain, settle, expire}
use messaging_poc.Pump.Pull.{IsPulled, pull-IsPulled}
use messaging_poc.Pump.Custody.{holds, pump-holds}
use messaging_poc.Pump.Drained.{IsDrained, pump-IsDrained}
use messaging_poc.Pump.Detach.{IsUnique, others, returned, detach_lem}
use messaging_poc.InMemoryBus.{
  InMemoryBus, Delivery, Event, publishes, subscribes, acks, nacks, throws, new_bus, run, guarded,
  handler_throws, publish, subscribe, ttl_timer, fire_ttl,
}
use messaging_poc.InMemoryBus.Invariant.{IsValid}
use messaging_poc.InMemoryBus.Invariant.Events.{reached-IsValid}
use messaging_poc.InMemoryBus.Dedup.{publish-dedup}
use messaging_poc.InMemoryBus.Drained.{AllDrained, reached-AllDrained}

abbrev item : ℕ → Option ℤ → Option String → BusMessage
item object priority group = record {
  object = object;
  id = mem_bus object;
  topic = "t";
  body = "b";
  routing_key = "t";
  delivery_count = 0;
  priority = priority;
  group_id = group;
  dedup_id = none;
  reply_to = none;
  correlation_id = none;
  ttl_ms = none;
  headers = none;
}

abbrev low : BusMessage
low = item 1 none none

abbrev high : BusMessage
high = item 2 (some (pos 9)) none

abbrev grouped : BusMessage
grouped = item 3 none (some "g")

abbrev two_consumers : BusQueue
two_consumers = record {
  topic = "t";
  kind = TopologyKind.topic;
  routing_key = none;
  max_deliveries = 3;
  dead_letter = true;
  retry_delay_ms = none;
  partition_by_group = false;
  single_active_consumer = false;
  pending = low ∷ high ∷ grouped ∷ [];
  inflight = [];
  consumers = 10 ∷ 11 ∷ [];
  rr = 0;
  group_affinity = [];
  parked = [];
  expiring = [];
}

-- A consumer subscribes with dead letters, a message comes and is nacked until it is dead-lettered.
abbrev poison_run : List Event
poison_run =
    subscribes "t" 1 (record no_subscribe_options { dead_letter = some true })
    ∷ subscribes "t.dlq" 2 no_subscribe_options
    ∷ publishes "t" "p" none no_publish_options
    ∷ nacks 0 true
    ∷ throws 1
    ∷ nacks 2 true
    ∷ acks 3
    ∷ []

-- The texts, consumers and delivery counts of what the handlers got.
abbrev received : InMemoryBus → List (String × ℕ × ℕ)
received b =
    map (λ (d : Delivery). (d.incoming.body, d.incoming.consumer, d.incoming.delivery_count))
      b.deliveries

poison_received :
    received (run poison_run new_bus) ≡ ("p", 1, 1) ∷ ("p", 1, 2) ∷ ("p", 1, 3) ∷ ("p", 2, 1) ∷ []
unfolding run guarded handler_throws publish subscribe matches pump enqueue pull pull_plain
    next_consumer next_pending settle dead_letter_address
poison_received = refl

reached-IsValid_example : IsValid (run poison_run new_bus)
reached-IsValid_example = reached-IsValid poison_run

reached-AllDrained_example : AllDrained (run poison_run new_bus)
reached-AllDrained_example =
    reached-AllDrained poison_run (tt, (tt, (tt, (tt, (tt, (tt, (tt, tt)))))))

match_iff_example :
    (match ("a" ∷ "#" ∷ []) ("a" ∷ "b" ∷ "c" ∷ []) ≡ true)
    ↔ Matches ("a" ∷ "#" ∷ []) ("a" ∷ "b" ∷ "c" ∷ [])
match_iff_example = match_iff ("a" ∷ "#" ∷ []) ("a" ∷ "b" ∷ "c" ∷ [])

next_pending-IsBest_example :
    IsBest (low ∷ high ∷ grouped ∷ []) high (next_pending (low ∷ high ∷ grouped ∷ [])).1
unfolding next_pending
next_pending-IsBest_example = next_pending-IsBest (low ∷ high ∷ grouped ∷ []) high refl

scan_groups-IsGroupDelivery_example :
    IsGroupDelivery
      (10 ∷ 11 ∷ [])
      (10 ∷ [])
      (low ∷ grouped ∷ [])
      (scan_groups (10 ∷ 11 ∷ []) (10 ∷ []) (low ∷ grouped ∷ []) (("g", 10) ∷ []) 0).left
      low
      11
      (scan_groups (10 ∷ 11 ∷ []) (10 ∷ []) (low ∷ grouped ∷ []) (("g", 10) ∷ []) 0).affinity
unfolding scan_groups
scan_groups-IsGroupDelivery_example =
    scan_groups-IsGroupDelivery (10 ∷ 11 ∷ []) (10 ∷ []) (low ∷ grouped ∷ []) (("g", 10) ∷ []) 0 low
      11 refl

pull-IsPulled_example : IsPulled two_consumers high 10 (pull two_consumers).1
unfolding pull pull_plain next_consumer next_pending
pull-IsPulled_example = pull-IsPulled two_consumers high 10 refl

pump-holds_example : holds 2 (pump two_consumers).0 ≡ holds 2 two_consumers
pump-holds_example = pump-holds 2 two_consumers

pump-IsDrained_example : IsDrained (pump two_consumers).0
pump-IsDrained_example = pump-IsDrained two_consumers

-- Both consumers hold a message of the queue.
abbrev held : BusQueue
held = record two_consumers { pending = grouped ∷ []; inflight = (low, 10) ∷ (high, 11) ∷ [] }

held-IsUnique : IsUnique held
held-IsUnique o = ground arith

detach_lem_example : detach 10 held ≡ record held {
  consumers = erase held.consumers 10;
  inflight = others 10 held.inflight;
  pending = returned 10 held.inflight held.pending;
}
detach_lem_example = detach_lem 10 held held-IsUnique

abbrev once_only : PublishOptions
once_only = record no_publish_options { dedup_id = some "d1" }

publish-dedup_example :
    publish "u" "again" none once_only
      (run (acks 0 ∷ []) (publish "t" "first" none once_only (run poison_run new_bus)))
    ≡ run (acks 0 ∷ []) (publish "t" "first" none once_only (run poison_run new_bus))
publish-dedup_example =
    publish-dedup "d1" "t" "u" "first" "again" none none once_only once_only (acks 0 ∷ [])
      (run poison_run new_bus) refl refl

-- The consumer holds the first message, which expires; the second one then waits though the consumer
-- is free, and the late ack of the first does not deliver it either.
abbrev expiry_run : List Event
expiry_run =
    subscribes "t" 1 no_subscribe_options
    ∷ publishes "t" "short" none (record no_publish_options { ttl_ms = some (pos 5) })
    ∷ publishes "t" "waits" none no_publish_options
    ∷ ttl_timer 0 1
    ∷ acks 0
    ∷ []

-- What waits in the first queue, and what is in flight.
abbrev waiting : InMemoryBus → Option (List String × ℕ)
waiting b = elim (get_elem? b.heap 0) [
  | none ↦ none
  | some q ↦ some (map (λ (m : BusMessage). m.body) q.pending, length q.inflight)
]

expiry_waiting : waiting (run expiry_run new_bus) ≡ some ("waits" ∷ [], 0)
unfolding run guarded publish subscribe fire_ttl matches pump enqueue pull pull_plain next_consumer
    next_pending settle expire expiry_address
expiry_waiting = refl

abbrev filtered : BusQueue
filtered = record two_consumers { routing_key = some "t"; pending = [] }

abbrev log : List BusMessage
log = record low { delivery_count = 2 } ∷ record high { routing_key = "u" } ∷ grouped ∷ []
