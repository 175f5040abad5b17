-- ===== src/Tests/Services.antt =====
-- The scheduler, the idempotent handler, the SSE cluster, the fault injection and the runner at
-- concrete inputs.
use messaging_poc.Common.{
  ℕ, ◌+◌, ◌++◌, none, some, lookup, ℕ_eq, String, List, [], ◌∷◌, true, false, ◌≡◌, refl, ◌↔◌, arith,
  string_eq, ==_iff, ◌≢◌,
}
use messaging_poc.Abstractions.{ScheduleHandle}
use messaging_poc.Scheduler.{
  InMemoryScheduler, Timer, new_scheduler, schedule, run_timer, cancel, SchedulerEvent, schedules,
  cancels, timer, microtask, consumes, sends, scheduler_run, run_microtask, send_now, consume,
}
use messaging_poc.Scheduler.Firing.{cancel-never_fires, schedule-fires}
use messaging_poc.Idempotency.{acks_duplicate, handle_message, handle_all}
use messaging_poc.Idempotency.Window.{handle_message-once}
use messaging_poc.TopicMatch.{topic_match}
use messaging_poc.Sse.{user, scope_name, PublishTarget, routing_key_for}
use messaging_poc.Sse.Isolation.{routing_key_for-isolated, routing_key_for-wildcard}
use messaging_poc.Runner.{ScenarioResult, passed_result}

abbrev busy_morning : List SchedulerEvent
busy_morning =
    consumes "d" 7
    ∷ schedules "d" "first" 1000 0
    ∷ schedules "e" "second" 2000 0
    ∷ sends "d" "now"
    ∷ microtask
    ∷ []

abbrev morning : InMemoryScheduler
morning = scheduler_run busy_morning new_scheduler

abbrev first_handle : ScheduleHandle
first_handle = record { id = 1; destination = "d"; deliver_at = 1000 }

cancel-never_fires_example :
    (lookup (scheduler_run (timer 1 ∷ []) (cancel first_handle morning)).pending 1 ≡ none)
    × ((n : ℕ) (t : Timer)
        → lookup (scheduler_run (timer 1 ∷ []) (cancel first_handle morning)).timers n ≡ some t
        → t.id ≢ 1)
unfolding scheduler_run run_microtask send_now schedule consume
cancel-never_fires_example =
    cancel-never_fires busy_morning (timer 1 ∷ []) first_handle (omega arith)

-- Another schedule is made and cancelled before the timer is due.
abbrev meanwhile : List SchedulerEvent
meanwhile = schedules "e" "other" 500 0 ∷ cancels first_handle ∷ []

schedule-fires_example :
    let (later, handle) = schedule "d" "third" 3000 100 morning in
    let due = scheduler_run meanwhile later in
    let fired = run_timer 2 due in
    ((t : Timer) × (lookup due.timers 2 ≡ some t) × (t.delay ≡ 2900))
    × (lookup fired.pending handle.id ≡ none)
    × (lookup fired.timers 2 ≡ none)
    × (fired.microtasks
        ≡ due.microtasks
          ++ record { id = due.seq + 1; destination = "d"; body = "third"; headers = [] } ∷ [])
unfolding scheduler_run run_microtask send_now schedule consume cancel run_timer
schedule-fires_example =
    schedule-fires busy_morning meanwhile "d" "third" 3000 100 (tt, (λ e. omega (arith, e), tt))

handle_message-once_example :
    (handle_message "k" 300 200000
      (handle_all 300 (("j", 150000) ∷ []) (handle_message "k" 300 0 []).1).1).0
    ≡ acks_duplicate
unfolding handle_message
handle_message-once_example =
    handle_message-once "k" 300 0 200000 (("j", 150000) ∷ []) [] refl (omega arith, tt)
      (omega arith)

abbrev eve : String
eve = "eve"

eve-not_hash : eve ≢ "#"
eve-not_hash e = let h : false ≡ true = (==_iff eve "#").1 e in cc

eve-not_star : eve ≢ "*"
eve-not_star e = let h : false ≡ true = (==_iff eve "*").1 e in cc

abbrev to_bob : PublishTarget
to_bob = record { scope = "user"; id = "bob" }

routing_key_for-isolated_example :
    (topic_match
        (routing_key_for (record { scope = scope_name user; id = eve }))
        (routing_key_for to_bob)
      ≡ true)
    ↔ ((scope_name user ≡ to_bob.scope) × (eve ≡ to_bob.id))
routing_key_for-isolated_example =
    routing_key_for-isolated user eve to_bob (refl, (refl, (refl, tt))) eve-not_hash eve-not_star
      (refl, (refl, (refl, (refl, tt)))) (refl, (refl, (refl, tt)))

routing_key_for-wildcard_example :
    topic_match (routing_key_for (record { scope = "user"; id = "*" })) (routing_key_for to_bob)
    ≡ true
routing_key_for-wildcard_example = routing_key_for-wildcard "bob" (refl, (refl, (refl, tt)))

abbrev one_result : List ScenarioResult
one_result = passed_result "S1" "ok" 3 ∷ []
