-- ===== src/Scheduler/Firing.antt =====
-- When a schedule is delivered: never once it is cancelled, and else when its timer is due.
use messaging_poc.Common.{
  ℕ, ◌+◌, ◌≤◌, String, List, [], ◌∷◌, ◌++◌, none, some, ◌≡◌, ◌≢◌, ◌-◌, refl, sym, ◌∙◌, ap, subst,
  ℕ_eq, string_eq, lookup, lookup-delete, arith, Option-cases, inl, inr, All,
}
use messaging_poc.Abstractions.{Destination, ScheduleHandle}
use messaging_poc.Scheduler.{
  InMemoryScheduler, Timer, dispatch, send_now, schedule, fire, run_timer, cancel, consume,
  stop_consuming, SchedulerEvent, sends, schedules, cancels, timer, microtask, consumes, stops,
  bus_publishes, bus_subscribes, bus_unsubscribes, disposal, scheduler_step, scheduler_run,
  new_scheduler,
}
use messaging_poc.Scheduler.Schedules.{run-IsGone, cancel-IsGone}
use messaging_poc.Scheduler.Timers.{
  IsPaired, some_injective, lookup-delete_other, insert_self, insert_other, schedule-IsPaired,
  cancel-IsPaired, microtask-timers, handler_set-timers, step-IsPaired, run-IsPaired, new-IsPaired,
}

-- After a schedule that was given out is cancelled, and whatever happens then, it is not pending, and no
-- timer is armed whose callback would deliver it.
pub cancel-never_fires :
    (before after : List SchedulerEvent) (c : ScheduleHandle)
    → c.id ≤ (scheduler_run before new_scheduler).seq
    → let s = scheduler_run after (cancel c (scheduler_run before new_scheduler)) in
      (lookup s.pending c.id ≡ none)
      × ((n : ℕ) (t : Timer) → lookup s.timers n ≡ some t → t.id ≢ c.id)
cancel-never_fires before after c k =
    let s = scheduler_run before new_scheduler in
    let (seq, gone) = run-IsGone after c.id (cancel c s) (cancel-IsGone c s k) in
    let h =
      run-IsPaired after (cancel c s)
        (cancel-IsPaired c s (run-IsPaired before new_scheduler new-IsPaired)) in
    (
      gone,
      λ n t armed same.
          let (e, there, timed) = h.entry n t armed in
          let here : lookup (scheduler_run after (cancel c s)).pending c.id ≡ some e =
            subst (λ i. lookup (scheduler_run after (cancel c s)).pending i ≡ some e) same there in
          absurd (cc),
    )

-- The event is not the end of this schedule: neither its timer, nor a cancel of it, nor the disposal.
abbrev pub IsSpared : ℕ → ℕ → SchedulerEvent → Type 0
IsSpared n id (timer m) = m ≢ n
IsSpared n id (cancels c) = c.id ≢ id
IsSpared n id disposal = ⊥
IsSpared n id _ = Unit

step-armed :
    (n : ℕ) (t : Timer) (e : SchedulerEvent) (s : InMemoryScheduler)
    → IsPaired s
    → IsSpared n t.id e
    → lookup s.timers n ≡ some t
    → lookup (scheduler_step e s).timers n ≡ some t
unfolding scheduler_step send_now dispatch consume stop_consuming run_timer fire cancel schedule
step-armed n t (sends d body) s h spared armed = armed
step-armed n t (schedules d body at now) s h spared armed =
    let other : s.next_timer ≢ n =
      λ same. let gone = h.unset n (omega (arith, same)) in absurd (cc) in
    insert_other s.timers s.next_timer n _ other ∙ armed
step-armed n t (cancels c) s h spared armed = elim (Option-cases (lookup s.pending c.id)) [
  | inl none_left ↦ rw (none_left, cancel) armed
  | inr (e, there) ↦
      let (x, x_there, x_id) = h.armed c.id e there in
      let other : e.timer ≢ n = λ same. spared (
        sym x_id
        ∙ ap (λ (q : Timer). q.id)
            (some_injective (lookup s.timers n) x t
              (subst (λ i. lookup s.timers i ≡ some x) same x_there) armed)) in
      rw (there, cancel) (lookup-delete_other s.timers e.timer n other ∙ armed)
]
step-armed n t (timer m) s h spared armed = elim (Option-cases (lookup s.timers m)) [
  | inl off ↦ rw (off, run_timer) armed
  | inr (x, on) ↦ rw (on, run_timer) (lookup-delete_other s.timers m n spared ∙ armed)
]
step-armed n t microtask s h spared armed = rw (microtask-timers s.microtasks s).0 armed
step-armed n t (consumes d c) s h spared armed = rw (handler_set-timers d s).0 armed
step-armed n t (stops r c) s h spared armed = armed
step-armed n t (bus_publishes topic body k o) s h spared armed = armed
step-armed n t (bus_subscribes topic c o) s h spared armed = armed
step-armed n t (bus_unsubscribes q c) s h spared armed = armed
step-armed n t disposal s h spared armed = elim spared [ ]

run-armed :
    (n : ℕ) (t : Timer) (es : List SchedulerEvent) (s : InMemoryScheduler)
    → IsPaired s
    → All (IsSpared n t.id) es
    → lookup s.timers n ≡ some t
    → lookup (scheduler_run es s).timers n ≡ some t
unfolding scheduler_run
run-armed n t [] s h spared armed = armed
run-armed n t (e ∷ es) s h spared armed =
    run-armed n t es (scheduler_step e s) (step-IsPaired e s h) spared.1
      (step-armed n t e s h spared.0 armed)

-- A schedule that is not cancelled, nor the scheduler disposed, is delivered when its timer is due: whatever
-- else happens in between, other schedules and cancels included, its timer is armed for its delay and,
-- when called back, takes the schedule off the list and queues a message with its text for its destination.
pub schedule-fires :
    (before after : List SchedulerEvent) (d : Destination) (body : String) (at now : ℕ)
    → let s = scheduler_run before new_scheduler in
      All (IsSpared s.next_timer (s.seq + 1)) after
      → let (s', handle) = schedule d body at now s in
        let later = scheduler_run after s' in
        let fired = run_timer s.next_timer later in
        ((t : Timer) × (lookup later.timers s.next_timer ≡ some t) × (t.delay ≡ at - now))
        × (lookup fired.pending handle.id ≡ none)
        × (lookup fired.timers s.next_timer ≡ none)
        × (fired.microtasks
            ≡ later.microtasks
              ++ record { id = later.seq + 1; destination = d; body = body; headers = [] } ∷ [])
unfolding schedule run_timer fire dispatch
schedule-fires before after d body at now spared =
    let s = scheduler_run before new_scheduler in
    let h = run-IsPaired before new_scheduler new-IsPaired in
    let set : Timer = record {
      delay = at - now;
      id = s.seq + 1;
      destination = d;
      payload = body;
    } in
    let s' = (schedule d body at now s).0 in
    let armed =
      run-armed s.next_timer set after s' (schedule-IsPaired d body at now s h) spared
        (insert_self s.timers s.next_timer set) in
    let later = scheduler_run after s' in
    (
      (set, armed, refl),
      rw (armed, run_timer) (ground (arith, lookup-delete later.pending (s.seq + 1) (s.seq + 1))),
      rw (armed, run_timer) (ground (arith, lookup-delete later.timers s.next_timer s.next_timer)),
      rw (armed, run_timer) refl,
    )
