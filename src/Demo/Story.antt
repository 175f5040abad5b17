-- ===== src/Demo/Story.antt =====
-- The three demos of fault.ts.
use messaging_poc.Common.{
  ℕ, zero, suc, ◌+◌, ◌-◌, String, [], ◌∷◌, ◌++◌, map, Bool, true, false, not, ◌&&◌, none, some,
  if◌then◌else◌, text_of, decimal, contains, string_eq, or_else,
}
use messaging_poc.Abstractions.{
  fanout, no_publish_options, no_subscribe_options, dead_letter_address,
}
use messaging_poc.Port.{Op}
use messaging_poc.Resilience.{ResilienceOptions}
use messaging_poc.Scenarios.Program.{◌>>=◌, ◌>>◌, ◌catch◌, pure, done, observe}
use messaging_poc.Scenarios.Stage.{Message, Handler, nacks, assigns, named, start, has_some}
use messaging_poc.Demo.Stage.{
  Timeline, Line, step, ok, recover, retry, dead, add_line, on_event, DemoStage,
}

abbrev pub never_settle : Handler Timeline
never_settle m now l = []

-- The options of the decorator.
abbrev pub demo_resilience : ResilienceOptions
demo_resilience = record {
  max_retry_attempts = 3;
  initial_delay_ms = 60;
  max_delay_ms = 200;
  consecutive_failures = 3;
  half_open_after_ms = 800;
}

-- The handler of the poison demo: the number is that of the broker, or else its own.
unfoldable pub fail_always : Handler Timeline
fail_always m now l =
    assigns (λ l.
      add_line
        (retry (
          text_of (
            "delivery attempt #"
            ∷ decimal (or_else m.delivery_count (l.attempts + 1))
            ∷ " failed → nack"
            ∷ [])))
        (record l { attempts = l.attempts + 1 }))
    ∷ nacks true
    ∷ []

abbrev pub shown_bool : Bool → String
shown_bool true = "true"
shown_bool false = "false"

module _ {W Token : Type 0} (stage : DemoStage W Token) where
  abbrev pub say : Line → Op W Unit
  say line = stage.assign (add_line line)

  -- `consumerCrashDemo`
  unfoldable pub consumer_crash_demo : Op W Bool
  unfolding ◌>>=◌ ◌>>◌ named start
  consumer_crash_demo = do
    stage.assign (λ l. record l { crashed = []; fresh = [] })
    topic ← named stage.bus.nonce "mbc.fault.crash."
    queue_id ← named stage.bus.nonce "worker-"
    crashed ←
        start stage.bus topic (λ m l. record l { crashed = l.crashed ++ m ∷ [] })
          (some never_settle) (some false)
          (record no_subscribe_options { subscriber_id = some queue_id })
    stage.bus.publish topic "job-A" none no_publish_options
    got ← stage.bus.wait_until (λ l. has_some l.crashed) 4000
    if not got
        then (do
          say (step "consumer never received the message")
          stage.bus.unsubscribe crashed
          pure false)
        else do
          say (ok "message delivered to consumer")
          say (step "consumer crashes (drops the link with the message un-acked)")
          stage.bus.unsubscribe crashed
          fresh ←
              start stage.bus topic (λ m l. record l { fresh = l.fresh ++ m ∷ [] }) none none
                (record no_subscribe_options { subscriber_id = some queue_id })
          t0 ← observe stage.bus.clock
          redelivered ← stage.bus.wait_until (λ l. has_some l.fresh) 6000
          stage.bus.unsubscribe fresh
          now ← observe stage.bus.clock
          if redelivered
              then (do
                say (
                    recover (
                      text_of (
                        "broker redelivered the message to a fresh consumer  ("
                        ∷ decimal (now - t0)
                        ∷ "ms)"
                        ∷ [])))
                pure true)
              else do say (step "redelivery did NOT happen — message lost"); pure false

  -- At most so many publishes, while the breaker is closed.
  unfoldable pub outage : String → ℕ → Op W Unit
  unfolding ◌>>=◌ ◌>>◌ ◌catch◌
  outage topic zero = done
  outage topic (suc n) =
      let rest = outage topic n in
      do
        l ← observe stage.bus.variables
        if l.breaker_opened
            then done
            else do stage.resilient_publish topic "during-outage" catch λ e. done; rest

  -- At most so many publishes, until one succeeds.
  unfoldable pub recovery : String → ℕ → Op W Bool
  unfolding ◌>>=◌ ◌>>◌ ◌catch◌
  recovery topic zero = pure false
  recovery topic (suc n) =
      let rest = recovery topic n in
      do
        recovered ← (do stage.resilient_publish topic "recovered"; pure true) catch λ e. (do
          stage.bus.delay 300
          pure false)
        if recovered then pure true else rest

  -- `disconnectDemo`
  unfoldable pub disconnect_demo : Op W Bool
  unfolding ◌>>=◌ ◌>>◌ ◌catch◌ named start outage recovery on_event
  disconnect_demo = do
    stage.assign (λ l. record l { breaker_opened = false; observed = [] })
    stage.decorate demo_resilience on_event
    topic ← named stage.bus.nonce "mbc.fault.net."
    id ← named stage.bus.nonce "obs-"
    collector ←
        start stage.bus topic (λ m l. record l { observed = l.observed ++ m ∷ [] }) none none
          (record no_subscribe_options { subscriber_id = some id })
    say (step "publish during a brief blip (2 transient faults)")
    stage.inject_failures 2
    (do
      stage.resilient_publish topic "blip"
      say (ok "publish succeeded despite the blip (retries absorbed it)"))
        catch λ e. say (step "publish failed unexpectedly during the blip")
    say (step "broker connection severed (sustained outage)")
    stage.inject_failures 100
    outage topic 8
    stage.inject_failures 0
    stage.bus.delay 1000
    recovered ← recovery topic 5
    delivered ←
        stage.bus.wait_until (λ l. contains (map (λ (m : Message). m.body) l.observed) "recovered")
          4000
    stage.bus.unsubscribe collector
    l ← observe stage.bus.variables
    if l.breaker_opened && (recovered && delivered)
        then (do say (ok "post-recovery message delivered end-to-end"); pure true)
        else do
          say (
              step (
                text_of (
                  "incomplete (breakerOpen="
                  ∷ shown_bool l.breaker_opened
                  ∷ ", recovered="
                  ∷ shown_bool recovered
                  ∷ ", delivered="
                  ∷ shown_bool delivered
                  ∷ ")"
                  ∷ [])))
          pure l.breaker_opened

  -- `poisonDemo`
  unfoldable pub poison_demo : Op W Bool
  unfolding ◌>>=◌ ◌>>◌ named start fail_always dead_letter_address
  poison_demo =
      if not stage.bus.capabilities.supports_dead_letter
      then (do say (step "broker has no dead-letter support — skipping poison demo"); pure false)
      else do
        stage.assign (λ l. record l { attempts = 0; main = []; dlq = [] })
        topic ← named stage.bus.nonce "mbc.fault.poison."
        poison_id ← named stage.bus.nonce "poison-"
        main ←
            start stage.bus topic (λ m l. record l { main = l.main ++ m ∷ [] }) (some fail_always)
              (some false)
              (record no_subscribe_options {
                subscriber_id = some poison_id;
                dead_letter = some true;
                max_deliveries = some 3;
              })
        dlq_id ← named stage.bus.nonce "dlq-"
        dlq ←
            start stage.bus (dead_letter_address topic) (λ m l. record l { dlq = l.dlq ++ m ∷ [] })
              none none
              (record no_subscribe_options { kind = some fanout; subscriber_id = some dlq_id })
        say (step "publish a poison message (handler always fails)")
        stage.bus.publish topic "poison" none no_publish_options
        landed ← stage.bus.wait_until (λ l. has_some l.dlq) 8000
        stage.bus.unsubscribe main
        stage.bus.unsubscribe dlq
        l ← observe stage.bus.variables
        if landed
            then (do
              say (
                  dead (
                    text_of (
                      "dead-lettered after "
                      ∷ decimal l.attempts
                      ∷ " attempts → "
                      ∷ dead_letter_address topic
                      ∷ [])))
              pure true)
            else do
              say (
                  step (
                    text_of (
                      "poison message was not dead-lettered (attempts="
                      ∷ decimal l.attempts
                      ∷ ")"
                      ∷ [])))
              pure false
