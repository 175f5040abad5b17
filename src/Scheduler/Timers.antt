-- ===== src/Scheduler/Timers.antt =====
-- The armed timers and the pending schedules belong to each other.
use messaging_poc.Common.{
  ℕ, ◌+◌, ◌≤◌, String, List, [], ◌∷◌, Option, none, some, ◌≡◌, ◌≢◌, ◌⊎◌, ◌-◌, refl, sym, ◌∙◌, ap,
  subst, ◌==◌, ℕ_eq, string_eq, lookup, insert, delete, lookup-insert, lookup-delete, arith,
  Option-cases, Bool-cases, inl, inr,
}
use messaging_poc.Abstractions.{Destination, ScheduleHandle, ReceivedMessage}
use messaging_poc.Scheduler.{
  InMemoryScheduler, PendingSchedule, Timer, dispatch, run_microtask, send_now, schedule, fire,
  run_timer, cancel, clear_timeout, clear_all, handler_set, consume, stop_consuming, dispose_all,
  SchedulerEvent, sends, schedules, cancels, timer, microtask, consumes, stops, bus_publishes,
  bus_subscribes, bus_unsubscribes, disposal, scheduler_step, scheduler_run, new_scheduler,
}
use messaging_poc.Scheduler.Schedules.{IsFresh, microtask-pending, handler_set-pending}

-- Each armed timer is the one of a pending schedule, and each pending schedule has an armed timer.
pub record IsPaired (s : InMemoryScheduler) : Type 0 where
  pub unset : (n : ℕ) → s.next_timer ≤ n → lookup s.timers n ≡ none
  pub fresh : IsFresh s
  pub entry :
      (n : ℕ) (t : Timer)
      → lookup s.timers n ≡ some t
      → (e : PendingSchedule) × (lookup s.pending t.id ≡ some e) × (e.timer ≡ n)
  pub armed :
      (id : ℕ) (e : PendingSchedule)
      → lookup s.pending id ≡ some e
      → (t : Timer) × (lookup s.timers e.timer ≡ some t) × (t.id ≡ id)

-- An event that leaves the timers and the pending schedules alone.
same-IsPaired :
    (s s' : InMemoryScheduler)
    → s'.pending ≡ s.pending
    → s'.timers ≡ s.timers
    → s'.next_timer ≡ s.next_timer
    → s.seq ≤ s'.seq
    → IsPaired s
    → IsPaired s'
same-IsPaired s s' p t n k h = record {
  unset = λ m l. rw t (h.unset m (omega (arith, l, n)));
  fresh = λ id l. rw p (h.fresh id (omega arith));
  entry = λ m x. rw (t, p) (h.entry m x);
  armed = λ id e. rw (t, p) (h.armed id e);
}

pub some_injective : {A : Type 0} (o : Option A) (a b : A) → o ≡ some a → o ≡ some b → a ≡ b
some_injective none a b h k = absurd (cc)
some_injective (some c) a b h k = cc

lookup-delete-some :
    {V : Type 0} (m : List (ℕ × V)) (k j : ℕ) (v : V)
    → lookup (delete m k) j ≡ some v
    → (k ≢ j) × (lookup m j ≡ some v)
lookup-delete-some m k j v h = ground (arith, lookup-delete m k j)

pub lookup-delete_other :
    {V : Type 0} (m : List (ℕ × V)) (k j : ℕ) → k ≢ j → lookup (delete m k) j ≡ lookup m j
lookup-delete_other m k j h = ground (arith, lookup-delete m k j)

-- A timer is cleared or called back, and its schedule is taken off.
drop-IsPaired :
    (s s' : InMemoryScheduler) (n id : ℕ)
    → s'.pending ≡ delete s.pending id
    → s'.timers ≡ delete s.timers n
    → s'.next_timer ≡ s.next_timer
    → s.seq ≤ s'.seq
    → (e : PendingSchedule) → lookup s.pending id ≡ some e
    → e.timer ≡ n
    → IsPaired s
    → IsPaired s'
drop-IsPaired s s' n id p t next k e there timed h = record {
  unset = λ m l.
      let old = h.unset m (omega (arith, l, next)) in
      rw t (ground (arith, lookup-delete s.timers n m, old));
  fresh = λ j l.
      let old = h.fresh j (omega arith) in rw p (ground (arith, lookup-delete s.pending id j, old));
  entry = λ m x found.
      let (apart, was) =
        lookup-delete-some s.timers n m x (subst (λ ts. lookup ts m ≡ some x) t found) in
      let (d, d_there, d_timed) = h.entry m x was in
      let other : id ≢ x.id = λ same. apart (
        sym timed
        ∙ ap (λ (q : PendingSchedule). q.timer)
            (some_injective (lookup s.pending id) e d there
              (subst (λ i. lookup s.pending i ≡ some d) (sym same) d_there))
        ∙ d_timed) in
      (d, rw (p, lookup-delete_other s.pending id x.id other) d_there, d_timed);
  armed = λ j d found.
      let (apart, was) =
        lookup-delete-some s.pending id j d (subst (λ ps. lookup ps j ≡ some d) p found) in
      let (x, x_there, x_id) = h.armed j d was in
      let (y, y_there, y_id) = h.armed id e there in
      let other : n ≢ d.timer = λ same. apart (
        sym y_id
        ∙ ap (λ (q : Timer). q.id)
            (some_injective (lookup s.timers d.timer) y x
              (subst (λ i. lookup s.timers i ≡ some y) (timed ∙ same) y_there) x_there)
        ∙ x_id) in
      (x, rw (t, lookup-delete_other s.timers n d.timer other) x_there, x_id);
}

pub insert_self : {V : Type 0} (m : List (ℕ × V)) (k : ℕ) (v : V) → lookup (insert m k v) k ≡ some v
insert_self m k v = ground (arith, lookup-insert m k k v)

pub insert_other :
    {V : Type 0} (m : List (ℕ × V)) (k j : ℕ) (v : V) → k ≢ j → lookup (insert m k v) j ≡ lookup m j
insert_other m k j v h = ground (arith, lookup-insert m k j v)

-- What is found is new or was there.
insert-cases :
    {V : Type 0} (m : List (ℕ × V)) (k j : ℕ) (v w : V)
    → lookup (insert m k v) j ≡ some w
    → ((k ≡ j) × (v ≡ w)) ⊎ ((k ≢ j) × (lookup m j ≡ some w))
insert-cases m k j v w h = ground (arith, lookup-insert m k j v)

pub schedule-IsPaired :
    (d : Destination) (body : String) (at now : ℕ) (s : InMemoryScheduler)
    → IsPaired s
    → IsPaired (schedule d body at now s).0
unfolding schedule
schedule-IsPaired d body at now s h =
    let entered : PendingSchedule = record {
      id = s.seq + 1;
      destination = d;
      body = body;
      deliver_at = at;
      timer = s.next_timer;
    } in
    let set : Timer = record {
      delay = at - now;
      id = s.seq + 1;
      destination = d;
      payload = body;
    } in
    record {
      unset = λ m l. insert_other s.timers s.next_timer m _ (omega arith) ∙ h.unset m (omega arith);
      fresh = λ j l. insert_other s.pending (s.seq + 1) j _ (omega arith) ∙ h.fresh j (omega arith);
      entry = λ m x found. elim (insert-cases s.timers s.next_timer m _ x found) [
        | inl (same, new) ↦ (
          _,
          subst (λ (y : Timer). lookup (insert s.pending (s.seq + 1) entered) y.id ≡ some entered)
              new (insert_self s.pending (s.seq + 1) entered),
          same,
        )
        | inr (apart, was) ↦
            let (e, there, timed) = h.entry m x was in
            let other : s.seq + 1 ≢ x.id =
              λ same. let gone = h.fresh x.id (omega (arith, same)) in absurd (cc) in
            (e, insert_other s.pending (s.seq + 1) x.id _ other ∙ there, timed)
      ];
      armed = λ j e found. elim (insert-cases s.pending (s.seq + 1) j _ e found) [
        | inl (same, new) ↦ (
          _,
          subst
              (λ (y : PendingSchedule).
                lookup (insert s.timers s.next_timer set) y.timer ≡ some set)
              new (insert_self s.timers s.next_timer set),
          same,
        )
        | inr (apart, was) ↦
            let (x, there, x_id) = h.armed j e was in
            let other : s.next_timer ≢ e.timer =
              λ same. let gone = h.unset e.timer (omega (arith, same)) in absurd (cc) in
            (x, insert_other s.timers s.next_timer e.timer _ other ∙ there, x_id)
      ];
    }

run_timer-IsPaired : (n : ℕ) (s : InMemoryScheduler) → IsPaired s → IsPaired (run_timer n s)
unfolding run_timer fire dispatch
run_timer-IsPaired n s h = elim (Option-cases (lookup s.timers n)) [
  | inl e ↦ rw (e, run_timer) h
  | inr (t, e) ↦
      let (d, there, timed) = h.entry n t e in
      rw (e, run_timer) (drop-IsPaired s _ n t.id refl refl refl (omega arith) d there timed h)
]

pub cancel-IsPaired :
    (c : ScheduleHandle) (s : InMemoryScheduler) → IsPaired s → IsPaired (cancel c s)
unfolding cancel
cancel-IsPaired c s h = elim (Option-cases (lookup s.pending c.id)) [
  | inl e ↦ rw (e, cancel) h
  | inr (d, there) ↦
      rw (there, cancel)
        (drop-IsPaired s _ d.timer c.id refl refl refl (omega arith) d there refl h)
]

-- The disposal clears the timers of the schedules that are pending.
clear_all-timers :
    (ps : List (ℕ × PendingSchedule)) (s : InMemoryScheduler) (n : ℕ) (t : Timer)
    → lookup (clear_all ps s).timers n ≡ some t
    → (lookup s.timers n ≡ some t)
      × ((id : ℕ) (e : PendingSchedule) → lookup ps id ≡ some e → e.timer ≢ n)
unfolding clear_all
clear_all-timers [] s n t h = (h, λ id e found. absurd (cc))
clear_all-timers ((j, d) ∷ ps) s n t h =
    let (there, others) = clear_all-timers ps (clear_timeout d.timer s) n t h in
    let (apart, was) = lookup-delete-some s.timers d.timer n t there in
    (
      was,
      λ id e found same. elim (Bool-cases (j == id)) [
        | inl first ↦ apart (
            ap (λ (q : PendingSchedule). q.timer)
              (some_injective (lookup ((j, d) ∷ ps) id) d e (rw first refl) found)
            ∙ same)
        | inr later ↦ others id e (sym (rw later refl) ∙ found) same
      ],
    )

clear_all-next_timer :
    (ps : List (ℕ × PendingSchedule)) (s : InMemoryScheduler)
    → ((clear_all ps s).next_timer ≡ s.next_timer) × ((clear_all ps s).seq ≡ s.seq)
unfolding clear_all
clear_all-next_timer [] s = (refl, refl)
clear_all-next_timer ((j, d) ∷ ps) s = clear_all-next_timer ps (clear_timeout d.timer s)

-- No timer is armed after the disposal.
dispose-disarms :
    (s : InMemoryScheduler) (n : ℕ) → IsPaired s → lookup (dispose_all s).timers n ≡ none
unfolding dispose_all
dispose-disarms s n h = elim (Option-cases (lookup (clear_all s.pending s).timers n)) [
  | inl e ↦ e
  | inr (t, e) ↦
      let (was, cleared) = clear_all-timers s.pending s n t e in
      let (d, there, timed) = h.entry n t was in absurd (cleared t.id d there timed)
]

dispose-IsPaired : (s : InMemoryScheduler) → IsPaired s → IsPaired (dispose_all s)
unfolding dispose_all
dispose-IsPaired s h = record {
  unset = λ m l. dispose-disarms s m h;
  fresh = λ j l. refl;
  entry = λ m x found. absurd (let off = dispose-disarms s m h in cc);
  armed = λ j e found. absurd (cc);
}

pub microtask-timers :
    (ms : List ReceivedMessage) (s : InMemoryScheduler)
    → ((run_microtask ms s).timers ≡ s.timers) × ((run_microtask ms s).next_timer ≡ s.next_timer)
unfolding run_microtask
microtask-timers [] s = (refl, refl)
microtask-timers (m ∷ ms) s = (refl, refl)

pub handler_set-timers :
    (d : Destination) (s : InMemoryScheduler)
    → ((handler_set d s).0.timers ≡ s.timers) × ((handler_set d s).0.next_timer ≡ s.next_timer)
handler_set-timers d s = elim (Option-cases (lookup s.handlers d)) [
  | inl e ↦ rw (e, handler_set) (refl, refl)
  | inr (r, e) ↦ rw (e, handler_set) (refl, refl)
]

pub step-IsPaired :
    (e : SchedulerEvent) (s : InMemoryScheduler) → IsPaired s → IsPaired (scheduler_step e s)
unfolding scheduler_step send_now dispatch consume stop_consuming
step-IsPaired (sends d body) s h = same-IsPaired s _ refl refl refl (omega arith) h
step-IsPaired (schedules d body at now) s h = schedule-IsPaired d body at now s h
step-IsPaired (cancels c) s h = cancel-IsPaired c s h
step-IsPaired (timer n) s h = run_timer-IsPaired n s h
step-IsPaired microtask s h =
    let (p, n) = microtask-pending s.microtasks s in
    let (ts, next) = microtask-timers s.microtasks s in
    same-IsPaired s _ p ts next (omega (arith, n)) h
step-IsPaired (consumes d c) s h =
    let (p, n) = handler_set-pending d s in
    let (ts, next) = handler_set-timers d s in same-IsPaired s _ p ts next (omega (arith, n)) h
step-IsPaired (stops r c) s h = same-IsPaired s _ refl refl refl (omega arith) h
step-IsPaired (bus_publishes topic body k o) s h = same-IsPaired s _ refl refl refl (omega arith) h
step-IsPaired (bus_subscribes topic c o) s h = same-IsPaired s _ refl refl refl (omega arith) h
step-IsPaired (bus_unsubscribes q c) s h = same-IsPaired s _ refl refl refl (omega arith) h
step-IsPaired disposal s h = dispose-IsPaired s h

pub run-IsPaired :
    (es : List SchedulerEvent) (s : InMemoryScheduler) → IsPaired s → IsPaired (scheduler_run es s)
unfolding scheduler_run
run-IsPaired [] s h = h
run-IsPaired (e ∷ es) s h = run-IsPaired es (scheduler_step e s) (step-IsPaired e s h)

pub new-IsPaired : IsPaired new_scheduler
new-IsPaired = record {
  unset = λ m l. refl;
  fresh = λ j l. refl;
  entry = λ m x found. absurd (cc);
  armed = λ j e found. absurd (cc);
}
