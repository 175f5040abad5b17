-- ===== src/Tests.antt =====
-- Runs of the model at concrete inputs, and the theorems applied to them.
pub mod Bus
pub mod Adapters
pub mod Scenarios
pub mod Services
pub mod Resilience
pub mod Tools
pub mod Lifecycle
pub mod Cluster
