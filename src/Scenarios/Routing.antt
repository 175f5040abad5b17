-- ===== src/Scenarios/Routing.antt =====
-- s5-pubsub.ts and s6-fanout.ts: who gets a publish.
use messaging_poc.Common.{
  ℕ, String, List, [], ◌∷◌, ◌++◌, map, Bool, false, not, ◌&&◌, ◌||◌, none, some, if◌then◌else◌,
  text_of, decimal, leb, nat_eq, length, set, get_elem?, or_else, ◌==◌, string_eq,
}
use messaging_poc.Abstractions.{topic, fanout, no_publish_options, no_subscribe_options}
use messaging_poc.Port.{Op}
use messaging_poc.Runner.{ScenarioResult}
use messaging_poc.Scenarios.Program.{
  ◌>>=◌, ◌>>◌, ◌finally◌, done, observe, together, pass, fail, unsupported,
}
use messaging_poc.Scenarios.Stage.{Message, BusStage, named, start}
use messaging_poc.Scenarios.Values.{range, any_of, every, commas}

-- The messages of the two collectors of S5.
pub record TwoCollectors : Type 0 where
  pub created : List Message
  pub all : List Message

abbrev pub first_is : List Message → String → Bool
first_is [] body = false
first_is (m ∷ ms) body = m.body == body

module _ {W Token : Type 0} (bus : BusStage TwoCollectors W Token) where
  unfoldable pub pub_sub : String → Op W ScenarioResult
  unfolding ◌>>=◌ ◌>>◌ ◌finally◌ named start pass fail unsupported
  pub_sub name = do
    t0 ← observe bus.clock
    if not bus.capabilities.supports_topic
        then unsupported bus.clock name "no topic routing on this broker" t0
        else do
          address ← named bus.nonce "mbc.s5."
          created_id ← named bus.nonce "created-"
          created ←
              start bus address (λ m l. record l { created = l.created ++ m ∷ [] }) none none
                (record no_subscribe_options {
                  kind = some topic;
                  routing_key = some "order.created";
                  subscriber_id = some created_id;
                })
          all_id ← named bus.nonce "all-"
          all ←
              start bus address (λ m l. record l { all = l.all ++ m ∷ [] }) none none
                (record no_subscribe_options {
                  kind = some topic;
                  routing_key = some "order.#";
                  subscriber_id = some all_id;
                })
          (do
            bus.publish address "created-1" (some "order.created") no_publish_options
            bus.publish address "shipped-1" (some "order.shipped") no_publish_options
            ok ← bus.wait_until (λ l. leb 1 (length l.created) && leb 2 (length l.all)) 5000
            l ← observe bus.variables
            if not ok
                then fail bus.clock name
                    (text_of (
                      "timed out (created="
                      ∷ decimal (length l.created)
                      ∷ ", all="
                      ∷ decimal (length l.all)
                      ∷ ")"
                      ∷ []))
                    t0
                else if not (nat_eq (length l.created) 1) || not (first_is l.created "created-1")
                then fail bus.clock name "filtered subscriber saw the wrong events" t0
                else pass bus.clock name
                    (text_of
                      ("order.created→1 sub, order.#→both (" ∷ decimal (length l.all) ∷ ")" ∷ []))
                    t0)
              finally (do bus.unsubscribe created; bus.unsubscribe all)

abbrev pub subscribers : ℕ
subscribers = 3

-- The `i`-th collector keeps a message.
abbrev pub keep_at : ℕ → Message → List (List Message) → List (List Message)
keep_at i m l = set l i (or_else (get_elem? l i) [] ++ m ∷ [])

module _ {W Token : Type 0} (bus : BusStage (List (List Message)) W Token) where
  unfoldable pub start_at : String → ℕ → Op W Token
  unfolding ◌>>=◌ named start
  start_at address i = do
    id ← named bus.nonce (text_of ("s" ∷ decimal i ∷ "-" ∷ []))
    start bus address (keep_at i) none none
        (record no_subscribe_options { kind = some fanout; subscriber_id = some id })

  unfoldable pub fanout_multicast : String → Op W ScenarioResult
  unfolding ◌>>=◌ ◌>>◌ ◌finally◌ together named start_at pass fail unsupported
  fanout_multicast name = do
    t0 ← observe bus.clock
    if not bus.capabilities.supports_fanout
        then unsupported bus.clock name "no fanout on this broker" t0
        else do
          address ← named bus.nonce "mbc.s6."
          subs ← together (map (start_at address) (range 0 subscribers))
          (do
            bus.publish address "broadcast-1" none no_publish_options
            ok ← bus.wait_until (λ l. every (λ received. leb 1 (length received)) l) 5000
            l ← observe bus.variables
            let counts = map length l
            if not ok || any_of (λ n. not (nat_eq n 1)) counts
                then fail bus.clock name
                    (text_of ("subscriber counts were [" ∷ commas (map decimal counts) ∷ "]" ∷ []))
                    t0
                else pass bus.clock name
                    (text_of
                      ("1 publish → " ∷ decimal subscribers ∷ " subscribers each received it" ∷ []))
                    t0)
              finally (do together (map bus.unsubscribe subs); done)
