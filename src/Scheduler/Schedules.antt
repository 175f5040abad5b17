-- ===== src/Scheduler/Schedules.antt =====
-- The life of a schedule: listed until it fires or is cancelled, and then gone for good.
use messaging_poc.Common.{
  ℕ, ◌+◌, ◌≤◌, ◌<◌, String, List, [], ◌∷◌, ◌++◌, map, none, ◌≡◌, ◌≢◌, refl, ap, sym, ◌∙◌,
  if◌then◌else◌, ◌==◌, ==_iff, ℕ_eq, string_eq, keep, lookup, insert, delete, lookup-insert,
  lookup-delete, arith, Option-cases, Bool-cases, inl, inr,
}
use messaging_poc.Abstractions.{Destination, ScheduleHandle}
use messaging_poc.Scheduler.{
  InMemoryScheduler, PendingSchedule, dispatch, run_microtask, send_now, schedule, fire, run_timer,
  cancel, clear_timeout, clear_all, info, list_scheduled, handler_set, consume, stop_consuming,
  dispose_all, SchedulerEvent, sends, schedules, cancels, timer, microtask, consumes, stops,
  bus_publishes, bus_subscribes, bus_unsubscribes, disposal, scheduler_step, scheduler_run,
  new_scheduler,
}

-- The id was given out, and nothing is pending under it.
abbrev pub IsGone : ℕ → InMemoryScheduler → Type 0
IsGone id s = (id ≤ s.seq) × (lookup s.pending id ≡ none)

-- No id that is yet to be given out is pending.
abbrev pub IsFresh : InMemoryScheduler → Type 0
IsFresh s = (id : ℕ) → s.seq < id → lookup s.pending id ≡ none

pub microtask-pending :
    (ms : List _) (s : InMemoryScheduler)
    → ((run_microtask ms s).pending ≡ s.pending) × ((run_microtask ms s).seq ≡ s.seq)
unfolding run_microtask
microtask-pending [] s = (refl, refl)
microtask-pending (m ∷ ms) s = (refl, refl)

pub handler_set-pending :
    (d : Destination) (s : InMemoryScheduler)
    → ((handler_set d s).0.pending ≡ s.pending) × ((handler_set d s).0.seq ≡ s.seq)
handler_set-pending d s = elim (Option-cases (lookup s.handlers d)) [
  | inl e ↦ rw (e, handler_set) (refl, refl)
  | inr (r, e) ↦ rw (e, handler_set) (refl, refl)
]

-- An event gives out ids in order, and what it puts under an id is new.
record IsOrderly (s s' : InMemoryScheduler) : Type 0 where
  grows : s.seq ≤ s'.seq
  old : (id : ℕ) → id ≤ s.seq → lookup s.pending id ≡ none → lookup s'.pending id ≡ none
  new : IsFresh s → IsFresh s'

same-IsOrderly :
    (s s' : InMemoryScheduler) → s'.pending ≡ s.pending → s.seq ≤ s'.seq → IsOrderly s s'
same-IsOrderly s s' e h = record {
  grows = h;
  old = λ id _ n. rw e n;
  new = λ f id k. rw e (f id (omega arith));
}

delete-IsOrderly :
    (id : ℕ) (s s' : InMemoryScheduler)
    → s'.pending ≡ delete s.pending id
    → s.seq ≤ s'.seq
    → IsOrderly s s'
delete-IsOrderly id s s' e h = record {
  grows = h;
  old = λ j _ n. rw e (ground (arith, lookup-delete s.pending id j));
  new = λ f j k. rw e (let n = f j (omega arith) in ground (arith, lookup-delete s.pending id j));
}

timer-IsOrderly : (n : ℕ) (s : InMemoryScheduler) → IsOrderly s (run_timer n s)
unfolding run_timer fire dispatch
timer-IsOrderly n s = elim (Option-cases (lookup s.timers n)) [
  | inl e ↦ rw (e, run_timer) (same-IsOrderly s s refl (omega arith))
  | inr (t, e) ↦ rw (e, run_timer) (delete-IsOrderly t.id s _ refl (omega arith))
]

cancel-IsOrderly : (h : ScheduleHandle) (s : InMemoryScheduler) → IsOrderly s (cancel h s)
unfolding cancel
cancel-IsOrderly h s = elim (Option-cases (lookup s.pending h.id)) [
  | inl e ↦ rw (e, cancel) (same-IsOrderly s s refl (omega arith))
  | inr (p, e) ↦ rw (e, cancel) (delete-IsOrderly h.id s _ refl (omega arith))
]

insert-none {ℓ} :
    {V : Type ℓ} (m : List (ℕ × V)) (k j : ℕ) (v : V)
    → k ≢ j
    → lookup m j ≡ none
    → lookup (insert m k v) j ≡ none
insert-none m k j v apart e = ground (arith, lookup-insert m k j v)

schedule-IsOrderly :
    (d : Destination) (body : String) (at now : ℕ) (s : InMemoryScheduler)
    → IsOrderly s (schedule d body at now s).0
unfolding schedule
schedule-IsOrderly d body at now s = record {
  grows = omega arith;
  old = λ id h n. insert-none s.pending (s.seq + 1) id _ (omega arith) n;
  new = λ f id h. insert-none s.pending (s.seq + 1) id _ (omega arith) (f id (omega arith));
}

clear_all-seq :
    (ps : List (ℕ × PendingSchedule)) (s : InMemoryScheduler) → (clear_all ps s).seq ≡ s.seq
unfolding clear_all
clear_all-seq [] s = refl
clear_all-seq ((id, entry) ∷ ps) s = clear_all-seq ps (clear_timeout entry.timer s)

step-IsOrderly : (e : SchedulerEvent) (s : InMemoryScheduler) → IsOrderly s (scheduler_step e s)
unfolding scheduler_step send_now dispatch consume stop_consuming dispose_all
step-IsOrderly (sends d body) s = same-IsOrderly s _ refl (omega arith)
step-IsOrderly (schedules d body at now) s = schedule-IsOrderly d body at now s
step-IsOrderly (cancels h) s = cancel-IsOrderly h s
step-IsOrderly (timer n) s = timer-IsOrderly n s
step-IsOrderly microtask s =
    let (p, n) = microtask-pending s.microtasks s in same-IsOrderly s _ p (omega (arith, n))
step-IsOrderly (consumes d h) s =
    let (p, n) = handler_set-pending d s in same-IsOrderly s _ p (omega (arith, n))
step-IsOrderly (stops r h) s = same-IsOrderly s _ refl (omega arith)
step-IsOrderly (bus_publishes topic body k o) s = same-IsOrderly s _ refl (omega arith)
step-IsOrderly (bus_subscribes topic h o) s = same-IsOrderly s _ refl (omega arith)
step-IsOrderly (bus_unsubscribes q h) s = same-IsOrderly s _ refl (omega arith)
step-IsOrderly disposal s =
    let kept = clear_all-seq s.pending s in
    record { grows = omega (arith, kept); old = λ _ _ _. refl; new = λ _ _ _. refl }

pub run-IsGone :
    (es : List SchedulerEvent) (id : ℕ) (s : InMemoryScheduler)
    → IsGone id s
    → IsGone id (scheduler_run es s)
unfolding scheduler_run
run-IsGone [] id s g = g
run-IsGone (e ∷ es) id s g =
    let o = step-IsOrderly e s in
    run-IsGone es id (scheduler_step e s) (omega (arith, o.grows, g.0), o.old id g.0 g.1)

pub run-IsFresh :
    (es : List SchedulerEvent) (s : InMemoryScheduler) → IsFresh s → IsFresh (scheduler_run es s)
unfolding scheduler_run
run-IsFresh [] s f = f
run-IsFresh (e ∷ es) s f = run-IsFresh es (scheduler_step e s) ((step-IsOrderly e s).new f)

pub cancel-IsGone :
    (h : ScheduleHandle) (s : InMemoryScheduler) → h.id ≤ s.seq → IsGone h.id (cancel h s)
unfolding cancel
cancel-IsGone h s k = elim (Option-cases (lookup s.pending h.id)) [
  | inl e ↦ rw (e, cancel) (k, e)
  | inr (p, e) ↦ rw (e, cancel) (k, ground (arith, lookup-delete s.pending h.id h.id))
]

insert-fresh {ℓ} :
    {V : Type ℓ} (m : List (ℕ × V)) (k : ℕ) (v : V)
    → lookup m k ≡ none
    → insert m k v ≡ m ++ (k, v) ∷ []
insert-fresh [] k v e = refl
insert-fresh ((j, w) ∷ m) k v e = elim (Bool-cases (j == k)) [
  | inl h ↦ absurd (ground arith)
  | inr h ↦ rw h (ap (λ t. (j, w) ∷ t) (insert-fresh m k v (ground arith)))
]

delete-fresh {ℓ} : {V : Type ℓ} (m : List (ℕ × V)) (k : ℕ) → lookup m k ≡ none → delete m k ≡ m
delete-fresh [] k e = refl
delete-fresh ((j, w) ∷ m) k e = elim (Bool-cases (j == k)) [
  | inl h ↦ absurd (ground arith)
  | inr h ↦ rw h (ap (λ t. (j, w) ∷ t) (delete-fresh m k (ground arith)))
]

delete-insert {ℓ} :
    {V : Type ℓ} (m : List (ℕ × V)) (k : ℕ) (v : V)
    → lookup m k ≡ none
    → delete (insert m k v) k ≡ m
delete-insert [] k v e = ground (arith, ==_iff k k)
delete-insert ((j, w) ∷ m) k v e = elim (Bool-cases (j == k)) [
  | inl h ↦ absurd (ground arith)
  | inr h ↦ rw (h, h) (ap (λ t. (j, w) ∷ t) (delete-insert m k v (ground arith)))
]

listed-append :
    (d : Destination) (ps : List (ℕ × PendingSchedule)) (p : ℕ × PendingSchedule)
    → map info (keep (λ q. q.1.destination == d) (ps ++ p ∷ []))
      ≡ map info (keep (λ q. q.1.destination == d) ps)
        ++ (if p.1.destination == d then info p ∷ [] else [])
listed-append d [] p = elim (Bool-cases (p.1.destination == d)) [
  | inl h ↦ rw h refl
  | inr h ↦ rw h refl
]
listed-append d (q ∷ ps) p = elim (Bool-cases (q.1.destination == d)) [
  | inl h ↦ rw h (ap (λ t. info q ∷ t) (listed-append d ps p))
  | inr h ↦ rw h (listed-append d ps p)
]

-- In every state that a history reaches, a schedule is listed under its destination after the
-- schedules that were listed before, and the lists of the other destinations stay as they are.
pub schedule-listed :
    (es : List SchedulerEvent) (d e : Destination) (body : String) (at now : ℕ)
    → let s = scheduler_run es new_scheduler in
      list_scheduled e (schedule d body at now s).0
      ≡ list_scheduled e s
        ++ (if d == e then record { id = s.seq + 1; destination = d; deliver_at = at } ∷ [] else [])
unfolding schedule list_scheduled
schedule-listed es d e body at now =
    let s = scheduler_run es new_scheduler in
    let fresh = run-IsFresh es new_scheduler (λ _ _. refl) (s.seq + 1) (omega arith) in
    ap (λ ps. map info (keep (λ q. q.1.destination == e) ps))
      (insert-fresh s.pending (s.seq + 1) _ fresh)
    ∙ listed-append e s.pending _

cancel-deletes :
    (h : ScheduleHandle) (s : InMemoryScheduler) → (cancel h s).pending ≡ delete s.pending h.id
unfolding cancel
cancel-deletes h s = elim (Option-cases (lookup s.pending h.id)) [
  | inl e ↦ rw (e, cancel) (sym (delete-fresh s.pending h.id e))
  | inr (p, e) ↦ rw (e, cancel) refl
]

-- In every state that a history reaches, cancelling a schedule with the handle that `schedule` returned
-- leaves what is pending as it was before.
pub schedule-cancel :
    (es : List SchedulerEvent) (d : Destination) (body : String) (at now : ℕ)
    → let s = scheduler_run es new_scheduler in
      let (s', handle) = schedule d body at now s in (cancel handle s').pending ≡ s.pending
unfolding schedule
schedule-cancel es d body at now =
    let s = scheduler_run es new_scheduler in
    let fresh = run-IsFresh es new_scheduler (λ _ _. refl) (s.seq + 1) (omega arith) in
    cancel-deletes (schedule d body at now s).1 (schedule d body at now s).0
    ∙ delete-insert s.pending (s.seq + 1) _ fresh
