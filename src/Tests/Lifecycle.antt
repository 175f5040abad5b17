-- ===== src/Tests/Lifecycle.antt =====
-- The life of the messages of the in-memory bus at a concrete history.
use messaging_poc.Common.{true, List, [], ◌∷◌, ◌++◌, false, none, some, ◌≡◌, refl, arith, get_elem?}
use messaging_poc.Abstractions.{no_publish_options, no_subscribe_options, TopologyKind}
use messaging_poc.BusQueue.{BusQueue, matches, next_consumer, next_pending}
use messaging_poc.Pump.{pump, enqueue, pull, pull_plain, settle}
use messaging_poc.Pump.Lifecycle.{place, total}
use messaging_poc.InMemoryBus.{
  Event, publishes, subscribes, unsubscribes, acks, nacks, throws, new_bus, run, guarded, publish,
  subscribe,
}
use messaging_poc.InMemoryBus.Budget.{AllBounded, reached-AllBounded}
use messaging_poc.InMemoryBus.Lifecycle.{IsRefined, run-refines, settled-stays_away}

abbrev settled_run : List Event
settled_run =
    subscribes "t" 10 no_subscribe_options ∷ publishes "t" "b" none no_publish_options ∷ acks 0 ∷ []

abbrev later_run : List Event
later_run = publishes "t" "c" none no_publish_options ∷ unsubscribes 0 10 ∷ []

run-refines_example : IsRefined (run settled_run new_bus) (run (settled_run ++ later_run) new_bus)
run-refines_example = run-refines settled_run later_run

-- The queue after the ack: the object 0 is gone.
abbrev after_ack : BusQueue
after_ack = record {
  topic = "t";
  kind = TopologyKind.topic;
  routing_key = none;
  max_deliveries = 3;
  dead_letter = false;
  retry_delay_ms = none;
  partition_by_group = false;
  single_active_consumer = false;
  pending = [];
  inflight = [];
  consumers = 10 ∷ [];
  rr = 1;
  group_affinity = [];
  parked = [];
  expiring = [];
}

settled-stays_away_example :
    (q : BusQueue) × (get_elem? (run (settled_run ++ later_run) new_bus).heap 0 ≡ some q)
    × (total (place 0 q) ≡ 0)
unfolding run guarded publish subscribe matches pump enqueue pull pull_plain next_consumer
    next_pending settle
settled-stays_away_example =
    settled-stays_away settled_run later_run 0 0 after_ack (omega arith) refl refl

-- Two nacks of a message that may be delivered three times, the second by a handler that throws.
abbrev nacked_run : List Event
nacked_run =
    subscribes "t" 10 no_subscribe_options
    ∷ publishes "t" "b" none no_publish_options
    ∷ nacks 0 true
    ∷ throws 1
    ∷ []

reached-AllBounded_example : AllBounded (run nacked_run new_bus)
reached-AllBounded_example = reached-AllBounded nacked_run (tt, (tt, (tt, (tt, tt))))
