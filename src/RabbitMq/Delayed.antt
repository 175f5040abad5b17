-- ===== src/RabbitMq/Delayed.antt =====
-- typescript/src/adapters/rabbitmq.ts: the scheduler port. The number of the header `x-delay` is modelled
-- by its decimal text, and `msg.properties.messageId` is an argument.
use messaging_poc.Common.{ℕ, ◌-◌, String, List, [], ◌∷◌, ◌++◌, Option, none, some, or_else, decimal}
use messaging_poc.Abstractions.{Destination, Headers}
use messaging_poc.Port.{not_supported, threw, Scheduling}
use messaging_poc.RabbitMq.Topology.{
  delayed, schedule_queue, persistent_only, RabbitCall, sends, consumes, acks, asserts_exchange,
  Topologies, ensure_topology, rabbit_capabilities,
}

pub record RabbitHandle : Type 0 where
  pub id : String
  pub destination : Destination
  pub deliver_at : ℕ

pub record RabbitReceived : Type 0 where
  pub id : String
  pub destination : Destination
  pub body : String
  pub headers : Headers

-- `connect`
abbrev pub rabbit_connect : List RabbitCall
rabbit_connect = asserts_exchange delayed "x-delayed-message" ∷ []

-- `Math.max(0, deliverAt - now)` is the subtraction of natural numbers; `id` is the random text.
unfoldable pub rabbit_schedule :
    Destination → String → ℕ → ℕ → String → Topologies → RabbitHandle × Topologies × List RabbitCall
unfolding ensure_topology
rabbit_schedule destination payload deliver_at now id t =
    let (t', declared) = ensure_topology destination t in
    let headers = ("x-delay", decimal (deliver_at - now)) ∷ ("scheduleId", id) ∷ [] in
    (
      record { id = id; destination = destination; deliver_at = deliver_at },
      t',
      declared
          ++ sends delayed destination payload (record persistent_only { headers = headers }) ∷ [],
    )

-- `consume`: what it declares, and what a message gives the handler and the broker. The ack does not
-- wait for the handler, and no message (a cancelled consumer) gives nothing.
unfoldable pub rabbit_consume : Destination → Topologies → Topologies × List RabbitCall
unfolding ensure_topology
rabbit_consume destination t =
    let (t', declared) = ensure_topology destination t in
    (t', declared ++ consumes (schedule_queue destination) ∷ [])

abbrev pub rabbit_received :
    Destination
    → Option (Option String × String × Headers)
    → Option RabbitReceived × List RabbitCall
rabbit_received destination none = (none, [])
rabbit_received destination (some (message_id, content, headers)) = (
  some (record {
    id = or_else message_id "";
    destination = destination;
    body = content;
    headers = headers;
  }),
  acks ∷ [],
)

-- `cancel` and `listScheduled`.
abbrev pub rabbit_scheduling : Scheduling Topologies RabbitHandle Unit
rabbit_scheduling = record {
  name = "RabbitMQ (delayed-message plugin)";
  capabilities = rabbit_capabilities;
  cancel = λ handle t. (
    threw (
        not_supported "cancel" "RabbitMQ (delayed-message plugin)"
          (some "the delayed-message plugin has no API to remove a pending message")),
    t,
  );
  list_scheduled = λ destination t. (
    threw (
        not_supported "listScheduled" "RabbitMQ (delayed-message plugin)"
          (some "pending delayed messages live in a node-local Mnesia table, not a queue")),
    t,
  );
}
