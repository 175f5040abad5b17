-- ===== src/Scenarios.antt =====
-- typescript/src/scenarios: the scenarios as programs over an adapter that is not fixed.
pub mod Program
pub mod Stage
pub mod Values
pub mod Scheduling
pub mod Routing
pub mod DeadLetter
pub mod Acks
pub mod Verdict
pub mod Competing
pub mod Groups
pub mod RetryQueue
pub mod Priority
pub mod Isolation
pub mod Suite
pub mod Yields
pub mod Names
pub mod Reports
pub mod Returns
pub mod Shared
pub mod Failover
pub mod Idempotent
pub mod Options
pub mod Recovery
