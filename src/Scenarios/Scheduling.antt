-- ===== src/Scenarios/Scheduling.antt =====
-- s1-immediate.ts, s2-scheduled.ts, s3-cancel.ts and s4-list.ts: the scenarios of the scheduler port. The
-- variables are the bodies that the collector received.
use messaging_poc.Common.{
  ℕ, ◌+◌, String, List, [], ◌∷◌, ◌++◌, if◌then◌else◌, contains, string_eq, text_of, decimal, leb,
  length, true, false, Option, none, some,
}
use messaging_poc.Port.{Op, is_not_supported}
use messaging_poc.Runner.{ScenarioResult}
use messaging_poc.Scenarios.Program.{
  ◌>>=◌, ◌>>◌, ◌finally◌, ◌catch◌, pure, done, observe, each, rethrow, pass, fail, unsupported,
}
use messaging_poc.Scenarios.Stage.{SchedulerStage, named}

-- `c.received.push(m)`
abbrev pub keep_body : String → List String → List String
keep_body body bodies = bodies ++ body ∷ []

abbrev pub delay_ms : ℕ
delay_ms = 3000

-- The first argument is `this.name`.
module _ {W Handle Info Token : Type 0} (s : SchedulerStage (List String) W Handle Info Token) where
  unfoldable pub immediate_delivery : String → Op W ScenarioResult
  unfolding ◌>>=◌ ◌>>◌ ◌finally◌ named pass fail
  immediate_delivery name = do
    t0 ← observe s.clock
    dest ← named s.nonce "mbc.s1."
    token ← named s.nonce "now-"
    collector ← s.consume dest keep_body
    (do
      s.send_now dest token
      got ← s.wait_until (λ bodies. contains bodies token) 5000
      if got
          then pass s.clock name "delivered immediately" t0
          else fail s.clock name "message never arrived within 5s" t0)
        finally s.unsubscribe collector

  unfoldable pub scheduled_delivery : String → Op W ScenarioResult
  unfolding ◌>>=◌ ◌>>◌ ◌finally◌ named pass fail
  scheduled_delivery name = do
    t0 ← observe s.clock
    dest ← named s.nonce "mbc.s2."
    token ← named s.nonce "sched-"
    collector ← s.consume dest keep_body
    (do
      deliver_at ← observe (λ w. s.clock w + delay_ms)
      s.schedule dest token deliver_at
      s.delay 1200
      bodies ← observe s.variables
      if contains bodies token
          then fail s.clock name "message delivered early (not withheld)" t0
          else do
            arrived ← s.wait_until (λ later. contains later token) (delay_ms + 4000)
            if arrived
                then pass s.clock name
                    (text_of ("withheld then delivered after ~" ∷ decimal delay_ms ∷ "ms" ∷ [])) t0
                else fail s.clock name "scheduled message never arrived" t0)
        finally s.unsubscribe collector

  unfoldable pub cancel_scheduled : String → Op W ScenarioResult
  unfolding ◌>>=◌ ◌>>◌ ◌finally◌ ◌catch◌ named pass fail unsupported
  cancel_scheduled name = do
    t0 ← observe s.clock
    dest ← named s.nonce "mbc.s3."
    token ← named s.nonce "cancel-"
    collector ← s.consume dest keep_body
    (do
      deliver_at ← observe (λ w. s.clock w + delay_ms)
      handle ← s.schedule dest token deliver_at
      cancelled ← (do s.cancel handle; pure true) catch λ err.
          if is_not_supported err then pure false else rethrow err
      if cancelled
          then (do
            s.delay (delay_ms + 2000)
            bodies ← observe s.variables
            if contains bodies token
                then fail s.clock name "cancel returned but message still delivered" t0
                else pass s.clock name "scheduled message successfully cancelled" t0)
          else unsupported s.clock name "no cancel API on this broker" t0)
        finally s.unsubscribe collector

  -- The pending messages, or none where the broker cannot list them.
  unfoldable pub listed : String → Op W (Option (List Info))
  unfolding ◌>>=◌ ◌catch◌
  listed dest = (do pending ← s.list_scheduled dest; pure (some pending)) catch λ err.
      if is_not_supported err then pure none else rethrow err

  -- The clean-up of `listPending`.
  unfoldable pub cancel_left : String → Op W Unit
  unfolding ◌>>=◌ ◌catch◌ each
  cancel_left dest =
      (do
        left ← s.list_scheduled dest
        each left λ p. do now ← observe s.clock; s.cancel (s.handle_of p dest now))
      catch λ err. done

  -- The result, by what could be listed.
  unfoldable pub counted : String → ℕ → Option (List Info) → Op W ScenarioResult
  unfolding pass fail unsupported
  counted name t0 none = unsupported s.clock name "no inspection API on this broker" t0
  counted name t0 (some infos) =
      if leb 2 (length infos)
      then pass s.clock name (text_of ("reported " ∷ decimal (length infos) ∷ " pending" ∷ [])) t0
      else fail s.clock name (text_of ("expected >=2 pending, saw " ∷ decimal (length infos) ∷ []))
          t0

  unfoldable pub list_pending : String → Op W ScenarioResult
  unfolding ◌>>=◌ ◌>>◌ ◌finally◌ named listed cancel_left counted
  list_pending name = do
    t0 ← observe s.clock
    dest ← named s.nonce "mbc.s4."
    (do
      a ← named s.nonce "a-"
      at_a ← observe (λ w. s.clock w + 60000)
      s.schedule dest a at_a
      b ← named s.nonce "b-"
      at_b ← observe (λ w. s.clock w + 60000)
      s.schedule dest b at_b
      pending ← listed dest
      counted name t0 pending)
        finally cancel_left dest
