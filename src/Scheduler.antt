-- ===== src/Scheduler.antt =====
-- typescript/src/adapters/in-memory.ts: the class `InMemoryScheduler`. The id `mem-n` of a schedule is
-- modelled by n. `timers` are the timers that the event loop has armed, each with the values that its
-- callback closes over. The sets of handlers are objects on a heap (`sets`), to which the map
-- `handlers` and the closures of subscriptions refer. `queueMicrotask` appends to `microtasks`, and
-- `calls` is the log of the calls of handlers. The time `now` is an argument.
pub mod Schedules
pub mod Timers
pub mod Firing
use messaging_poc.Common.{
  ℕ, ◌+◌, ◌-◌, String, List, [], ◌∷◌, ◌++◌, map, Bool, true, false, Option, none, some,
  if◌then◌else◌, ◌==◌, ℕ_eq, string_eq, or_else, length, get_elem?, set, keep, contains, erase,
  lookup, insert, delete,
}
use messaging_poc.Abstractions.{
  Destination, AckHandler, MessageHandler, PublishOptions, SubscribeOptions, ReceivedMessage,
  ScheduleHandle, ScheduledInfo,
}
use messaging_poc.InMemoryBus.{InMemoryBus, publish, subscribe, unsubscribe, dispose, new_bus}

pub record PendingSchedule : Type 0 where
  pub id : ℕ
  pub destination : Destination
  pub body : String
  pub deliver_at : ℕ
  pub timer : ℕ

-- A timer of `setTimeout`, with the id, the destination and the payload that its callback uses.
pub record Timer : Type 0 where
  pub delay : ℕ
  pub id : ℕ
  pub destination : Destination
  pub payload : String

pub record InMemoryScheduler : Type 0 where
  pub handlers : List (Destination × ℕ)
  pub sets : List (List MessageHandler)
  pub pending : List (ℕ × PendingSchedule)
  pub timers : List (ℕ × Timer)
  pub next_timer : ℕ
  pub bus : InMemoryBus
  pub seq : ℕ
  pub microtasks : List ReceivedMessage
  pub calls : List (MessageHandler × ReceivedMessage)

abbrev pub new_scheduler : InMemoryScheduler
new_scheduler = record {
  handlers = [];
  sets = [];
  pending = [];
  timers = [];
  next_timer = 0;
  bus = new_bus;
  seq = 0;
  microtasks = [];
  calls = [];
}

-- `dispatch`: the message `mem-msg-n`, delivered by a microtask.
unfoldable pub dispatch : Destination → String → InMemoryScheduler → InMemoryScheduler
dispatch destination body s = record s {
  seq = s.seq + 1;
  microtasks =
      s.microtasks
      ++ record { id = s.seq + 1; destination = destination; body = body; headers = [] } ∷ [];
}

-- The handlers of a destination when the microtask runs.
abbrev pub handlers_of : InMemoryScheduler → Destination → List MessageHandler
handlers_of s destination = elim (lookup s.handlers destination) [
  | none ↦ []
  | some reference ↦ or_else (get_elem? s.sets reference) []
]

unfoldable pub run_microtask : List ReceivedMessage → InMemoryScheduler → InMemoryScheduler
run_microtask [] s = s
run_microtask (m ∷ ms) s = record s {
  microtasks = ms;
  calls = s.calls ++ map (λ h. (h, m)) (handlers_of s m.destination);
}

unfoldable pub send_now : Destination → String → InMemoryScheduler → InMemoryScheduler
unfolding dispatch
send_now destination payload s = dispatch destination payload s

-- `setTimeout`: a new timer.
abbrev pub set_timeout : Timer → InMemoryScheduler → InMemoryScheduler
set_timeout timer s = record s {
  timers = insert s.timers s.next_timer timer;
  next_timer = s.next_timer + 1;
}

abbrev pub clear_timeout : ℕ → InMemoryScheduler → InMemoryScheduler
clear_timeout timer s = record s { timers = delete s.timers timer }

-- `Math.max(0, deliverAt - now)` is the subtraction of natural numbers.
unfoldable pub schedule :
    Destination → String → ℕ → ℕ → InMemoryScheduler → InMemoryScheduler × ScheduleHandle
schedule destination payload deliver_at now s =
    let id = s.seq + 1 in
    let armed =
      set_timeout
        (record { delay = deliver_at - now; id = id; destination = destination; payload = payload })
        (record s { seq = id }) in
    (
      record armed {
        pending = insert armed.pending id (record {
          id = id;
          destination = destination;
          body = payload;
          deliver_at = deliver_at;
          timer = s.next_timer;
        });
      },
      record { id = id; destination = destination; deliver_at = deliver_at },
    )

-- The callback of the timer of a schedule.
unfoldable pub fire : Timer → InMemoryScheduler → InMemoryScheduler
unfolding dispatch
fire timer s =
    dispatch timer.destination timer.payload (record s { pending = delete s.pending timer.id })

-- The event loop calls an armed timer back, once.
unfoldable pub run_timer : ℕ → InMemoryScheduler → InMemoryScheduler
unfolding fire
run_timer n s = elim (lookup s.timers n) [ none ↦ s | some timer ↦ fire timer (clear_timeout n s) ]

unfoldable pub cancel : ScheduleHandle → InMemoryScheduler → InMemoryScheduler
cancel handle s = elim (lookup s.pending handle.id) [
  | none ↦ s
  | some entry ↦
      let cleared = clear_timeout entry.timer s in
      record cleared { pending = delete cleared.pending handle.id }
]

abbrev pub info : ℕ × PendingSchedule → ScheduledInfo
info (id, p) = record { id = p.id; destination = p.destination; deliver_at = p.deliver_at }

unfoldable pub list_scheduled : Destination → InMemoryScheduler → List ScheduledInfo
list_scheduled destination s = map info (keep (λ p. p.1.destination == destination) s.pending)

-- `Set.add`
abbrev pub add_member : MessageHandler → List MessageHandler → List MessageHandler
add_member h hs = if contains hs h then hs else hs ++ h ∷ []

-- The set of the destination, made if it is missing, and its reference, which `unsubscribe` keeps.
abbrev pub handler_set : Destination → InMemoryScheduler → InMemoryScheduler × ℕ
handler_set destination s = elim (lookup s.handlers destination) [
  | some reference ↦ (s, reference)
  | none ↦ (
    record s { sets = s.sets ++ [] ∷ []; handlers = insert s.handlers destination (length s.sets) },
    length s.sets,
  )
]

unfoldable pub consume : Destination → MessageHandler → InMemoryScheduler → InMemoryScheduler × ℕ
consume destination h s =
    let (s', reference) = handler_set destination s in
    (
      record s' {
        sets = set s'.sets reference (add_member h (or_else (get_elem? s'.sets reference) []));
      },
      reference,
    )

unfoldable pub stop_consuming : ℕ → MessageHandler → InMemoryScheduler → InMemoryScheduler
stop_consuming reference h s = record s {
  sets = set s.sets reference (erase (or_else (get_elem? s.sets reference) []) h);
}

-- `for (const p of this.pending.values()) clearTimeout(p.timer)`
unfoldable pub clear_all : List (ℕ × PendingSchedule) → InMemoryScheduler → InMemoryScheduler
clear_all [] s = s
clear_all ((id, entry) ∷ ps) s = clear_all ps (clear_timeout entry.timer s)

unfoldable pub dispose_all : InMemoryScheduler → InMemoryScheduler
unfolding clear_all
dispose_all s =
    let cleared = clear_all s.pending s in
    record cleared { pending = []; handlers = []; bus = dispose cleared.bus }

-- The calls that the program and the event loop make.
pub data SchedulerEvent : Type 0 where
  sends : Destination → String → SchedulerEvent
  schedules : Destination → String → ℕ → ℕ → SchedulerEvent
  cancels : ScheduleHandle → SchedulerEvent
  timer : ℕ → SchedulerEvent
  microtask : SchedulerEvent
  consumes : Destination → MessageHandler → SchedulerEvent
  stops : ℕ → MessageHandler → SchedulerEvent
  bus_publishes : Destination → String → Option String → PublishOptions → SchedulerEvent
  bus_subscribes : Destination → AckHandler → SubscribeOptions → SchedulerEvent
  bus_unsubscribes : ℕ → AckHandler → SchedulerEvent
  disposal : SchedulerEvent

unfoldable pub scheduler_step : SchedulerEvent → InMemoryScheduler → InMemoryScheduler
scheduler_step (sends destination body) s = send_now destination body s
scheduler_step (schedules destination body deliver_at now) s =
    (schedule destination body deliver_at now s).0
scheduler_step (cancels handle) s = cancel handle s
scheduler_step (timer n) s = run_timer n s
scheduler_step microtask s = run_microtask s.microtasks s
scheduler_step (consumes destination h) s = (consume destination h s).0
scheduler_step (stops reference h) s = stop_consuming reference h s
scheduler_step (bus_publishes topic body routing_key o) s = record s {
  bus = publish topic body routing_key o s.bus;
}
scheduler_step (bus_subscribes topic h o) s = record s { bus = (subscribe topic h o s.bus).0 }
scheduler_step (bus_unsubscribes queue h) s = record s { bus = unsubscribe queue h s.bus }
scheduler_step disposal s = dispose_all s

unfoldable pub scheduler_run : List SchedulerEvent → InMemoryScheduler → InMemoryScheduler
unfolding scheduler_step
scheduler_run [] s = s
scheduler_run (e ∷ es) s = scheduler_run es (scheduler_step e s)
