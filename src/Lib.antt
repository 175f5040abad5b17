-- ===== src/Lib.antt =====
-- Verification of the messaging library (typescript/src): an in-memory message bus that serves as the
-- executable specification, the scheduler around it, the adapters for three brokers, and what is
-- built on the ports: idempotent handlers, fault injection, a cluster of SSE servers and the scenarios
-- with their runner.
--
-- Parts and files.
-- - Common: shared names, lists, maps, numbers and the interface of equality.
-- - Abstractions: typescript/src/abstractions, the options and addresses of the ports.
-- - TopicMatch: `topicMatch` and `match` of typescript/src/adapters/in-memory-bus.ts. Words is the
--   splitting at dots, Relation the meaning of a binding.
-- - BusQueue: the class `BusQueue` of the same file, the choices of message and consumer. Priority,
--   Consumers and Groups prove what they choose.
-- - Pump: the operations of `InMemoryBus` on one queue (`pump`, `settle`, the timers, `unsubscribe`),
--   each up to its call of `pump`. Pull, Rounds, Drained, Custody, Sound, Steps, Detach and
--   Budget are proofs.
-- - InMemoryBus: the state and the operations of the class `InMemoryBus`, and `step`, one event of a
--   program or of the event loop: publish, subscribe, unsubscribe, ack, nack, a handler that throws,
--   the firing of a retry or TTL timer, dispose. Invariant, Drained, Dedup, Lifecycle and Budget are
--   properties of all histories, Replay of the log and Unmatched of the queues that a publish passes
--   by. Pump.Lifecycle is the state machine of a message.
-- - Scheduler: `InMemoryScheduler` of typescript/src/adapters/in-memory.ts, with the timers that the
--   event loop has armed. Schedules, Timers and Firing are proofs.
-- - Settlement: the flag `settled` of the three broker adapters. Kafka, RabbitMq and Artemis: the
--   files of these names in typescript/src/adapters, as the calls that they make of the broker's
--   client. Kafka.Lifecycle, Artemis.Links and RabbitMq.Channels are the connections and caches of
--   these classes.
-- - Port: the two ports of typescript/src/abstractions as a record of operations, their errors and
--   the contract of `cancel` and `listScheduled`. Artemis.Jolokia: artemis-jolokia.ts of the
--   adapters.
-- - Fault: typescript/src/fault/fault-injecting-bus.ts. Resilience: typescript/src/resilience. Both
--   are decorators of a port, and Resilience.Pipeline composes them.
-- - Registry: typescript/src/adapters/index.ts, what it makes and that it keeps the contract.
-- - Idempotency: typescript/src/idempotency. Cli: `parseCli` of typescript/src/interactive/common.ts.
-- - Sse: typescript/src/sse, the contract, the hub, the bus port and the routes of the HTTP adapter.
--   Sse.Delivery composes the hub with the bus. Sse.Stream is the event stream of a connection, and
--   Sse.Stream.Reader reads it as a browser does. Sse.Docs and Sse.Yaml: the generator of the
--   documents, typescript/src/sse/docs/generate.ts.
-- - Runner: typescript/src/runner.ts and the results and `waitUntil` of
--   typescript/src/scenarios/scenario.ts.
-- - Scenarios: typescript/src/scenarios. Program has the operators of `async` functions, Stage what a
--   scenario sees of an adapter, and Suite the two suites. Scheduling is S1 to S4, Routing S5 and S6,
--   Acks S7, DeadLetter S8, Competing S9, Idempotent S10, RetryQueue S11, Groups S12, Options S13,
--   S15 and S16, Priority S14, Recovery S17 and S19, Failover S18, Isolation S20. Yields, Returns,
--   Names, Reports, Shared and Groups.Judged are proofs.
-- - Entry: `main` and `runAgainst` of typescript/src/index.ts. Demo: typescript/src/fault.ts and its
--   narrator, typescript/src/fault/fault-narrator.ts.
-- - Tests: runs at concrete inputs.
--
-- How the code is modelled. Objects that the code compares by identity are numbers: message objects
-- by the field `object`, handlers by a number, queues and handler sets by an index into a heap. What
-- a handler does is not fixed: its calls of `ack` and `nack` and its throws are events of a history,
-- in any order and number, also on old deliveries. A JavaScript call runs to its end, so an event is
-- one step, and a timer fires in an event of its own, at any time after it is armed. Time is an
-- argument where the code reads the clock. A scenario is a program over an adapter that is not fixed:
-- an operation takes the world of the adapter to an outcome and a world, a handler is the list of the
-- steps it takes from the message, the time and the variables, and `Promise.all` runs its operations
-- in their order, all of them. JSON, the schema of YAML, the Redis client, `fetch`, random texts, the
-- names that every JavaScript object answers to and the policies of the cockatiel package are
-- parameters; Resilience.Documented says what the decorator relies on.
--
-- Bounds. `pump` runs as many rounds as messages are pending; a round takes one message out, and
-- Pump.Drained shows that nothing is left that one more round could take. `pickFreeConsumer` runs a
-- round for each consumer, as the code does. `waitUntil` has one round for each millisecond to wait
-- and one more, enough as every wait takes time.
--
-- Not modelled: failing calls of the client of RabbitMQ inside the bus operations, the configuration
-- of the adapters from the environment, an `unsubscribe` that fails when the client of a stream
-- leaves, the CORS headers and the start of the SSE servers, what is printed by the runner, and the
-- interactive console programs. `Number` and `toLowerCase` are modelled on decimal digits and on the
-- letters of ASCII, which is what the program gives them.
pub mod Common
pub mod Abstractions
pub mod TopicMatch
pub mod BusQueue
pub mod Pump
pub mod InMemoryBus
pub mod Scheduler
pub mod Settlement
pub mod Idempotency
pub mod Kafka
pub mod RabbitMq
pub mod Artemis
pub mod Sse
pub mod Port
pub mod Fault
pub mod Resilience
pub mod Registry
pub mod Cli
pub mod Runner
pub mod Scenarios
pub mod Entry
pub mod Demo
pub mod Tests
