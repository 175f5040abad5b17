-- ===== src/Scenarios/Options.antt =====
-- s13-dedup.ts, s15-request-reply.ts and s16-ttl-expiry.ts: the options of a publish.
use messaging_poc.Common.{
  ℕ, pos, String, List, [], ◌∷◌, ◌++◌, Bool, false, not, Option, none, some, if◌then◌else◌, text_of,
  decimal, nat_eq, length, string_eq, ◌==◌,
}
use messaging_poc.Abstractions.{
  fanout, no_publish_options, no_subscribe_options, expiry_address, truthy,
}
use messaging_poc.Port.{Op}
use messaging_poc.Runner.{ScenarioResult}
use messaging_poc.Scenarios.Program.{◌>>=◌, ◌>>◌, ◌finally◌, observe, pass, fail, unsupported}
use messaging_poc.Scenarios.Stage.{
  Message, BusStage, Handler, acks, assigns, publishes, named, start, has_some,
}
use messaging_poc.Scenarios.Values.{or_undefined}
use messaging_poc.Scenarios.Verdict.{Verdict, passes, fails, conclude}

-- `push`, where the variables are one list of messages.
abbrev pub push : Message → List Message → List Message
push m l = l ++ m ∷ []

module _ {W Token : Type 0} (bus : BusStage (List Message) W Token) where
  unfoldable pub broker_native_dedup : String → Op W ScenarioResult
  unfolding ◌>>=◌ ◌>>◌ ◌finally◌ named start pass fail unsupported
  broker_native_dedup name = do
    t0 ← observe bus.clock
    if not bus.capabilities.supports_dedup
        then unsupported bus.clock name "no broker-native producer dedup" t0
        else do
          topic ← named bus.nonce "mbc.s13."
          dedup_id ← named bus.nonce "dup-"
          id ← named bus.nonce "dedup-"
          sub ←
              start bus topic push none none
                (record no_subscribe_options { subscriber_id = some id })
          (do
            bus.publish topic "order-42" none
                (record no_publish_options { dedup_id = some dedup_id })
            bus.publish topic "order-42" none
                (record no_publish_options { dedup_id = some dedup_id })
            arrived ← bus.wait_until has_some 6000
            if not arrived then fail bus.clock name "no delivery at all" t0 else do
              bus.delay 800
              received ← observe bus.variables
              if not (nat_eq (length received) 1)
                  then fail bus.clock name
                      (text_of ("expected 1 delivery, got " ∷ decimal (length received) ∷ [])) t0
                  else pass bus.clock name "duplicate dropped by the broker (1 delivery)" t0)
              finally bus.unsubscribe sub

  -- The echo of the responder, to the address of the reply if there is one.
  unfoldable pub respond : Handler (List Message)
  unfolding truthy
  respond m now l = elim (truthy m.reply_to) [
    | none ↦ acks ∷ []
    | some address ↦
        publishes address (text_of ("echo:" ∷ m.body ∷ []))
          (record no_publish_options { correlation_id = m.correlation_id })
        ∷ acks
        ∷ []
  ]

  abbrev pub keep_reply : Handler (List Message)
  keep_reply m now l = assigns (push m) ∷ acks ∷ []

  abbrev pub same_text : Option String → String → Bool
  same_text none b = false
  same_text (some a) b = a == b

  unfoldable pub judge_reply : String → List Message → Verdict
  judge_reply correlation_id [] = fails "no reply received"
  judge_reply correlation_id (reply ∷ others) =
      if not (reply.body == "echo:ping")
      then fails (text_of ("unexpected reply body \"" ∷ reply.body ∷ "\"" ∷ []))
      else if not (same_text reply.correlation_id correlation_id)
      then fails (
          text_of (
            "correlationId mismatch: \""
            ∷ or_undefined reply.correlation_id
            ∷ "\" != \""
            ∷ correlation_id
            ∷ "\""
            ∷ []))
      else passes (text_of ("correlated reply \"" ∷ reply.body ∷ "\" (correlationId matched)" ∷ []))

  unfoldable pub request_reply : String → Op W ScenarioResult
  unfolding ◌>>=◌ ◌>>◌ ◌finally◌ respond judge_reply conclude fail
  request_reply name = do
    t0 ← observe bus.clock
    id ← bus.nonce
    let request_topic = text_of ("mbc.s15.req." ∷ id ∷ [])
    let reply_topic = text_of ("mbc.s15.reply." ∷ id ∷ [])
    let correlation_id = text_of ("corr-" ∷ id ∷ [])
    responder ←
        bus.subscribe request_topic respond
          (record no_subscribe_options { subscriber_id = some (text_of ("responder-" ∷ id ∷ [])) })
    requester ←
        bus.subscribe reply_topic keep_reply
          (record no_subscribe_options { subscriber_id = some (text_of ("requester-" ∷ id ∷ [])) })
    (do
      bus.publish request_topic "ping" none (record no_publish_options {
        reply_to = some reply_topic;
        correlation_id = some correlation_id;
      })
      got ← bus.wait_until has_some 6000
      replies ← observe bus.variables
      if not got
          then fail bus.clock name "no reply received" t0
          else conclude bus.clock name t0 (judge_reply correlation_id replies))
        finally (do bus.unsubscribe responder; bus.unsubscribe requester)

  abbrev pub only_ack : Handler (List Message)
  only_ack m now l = acks ∷ []

  abbrev pub expiry_ms : ℕ
  expiry_ms = 600

  unfoldable pub judge_expired : List Message → Verdict
  judge_expired [] = fails "unexpected expiry body \"undefined\""
  judge_expired (m ∷ ms) =
      if not (m.body == "perishable")
      then fails (text_of ("unexpected expiry body \"" ∷ m.body ∷ "\"" ∷ []))
      else passes "expired message landed on the expiry address"

  unfoldable pub ttl_expiry : String → Op W ScenarioResult
  unfolding ◌>>=◌ ◌>>◌ ◌finally◌ named start expiry_address judge_expired conclude fail
  ttl_expiry name = do
    t0 ← observe bus.clock
    topic ← named bus.nonce "mbc.s16."
    subscriber_id ← named bus.nonce "expiring-"
    warmup ← bus.subscribe topic only_ack (record no_subscribe_options {
      subscriber_id = some subscriber_id;
      ttl_ms = some (pos expiry_ms);
    })
    bus.unsubscribe warmup
    watch_id ← named bus.nonce "expiry-watch-"
    expiry ←
        start bus (expiry_address topic) push none none
          (record no_subscribe_options { kind = some fanout; subscriber_id = some watch_id })
    (do
      bus.publish topic "perishable" none
          (record no_publish_options { ttl_ms = some (pos expiry_ms) })
      landed ← bus.wait_until has_some 8000
      received ← observe bus.variables
      if not landed
          then fail bus.clock name "message never reached the expiry address" t0
          else conclude bus.clock name t0 (judge_expired received))
        finally bus.unsubscribe expiry
