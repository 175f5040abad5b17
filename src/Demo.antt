-- ===== src/Demo.antt =====
-- typescript/src/fault.ts and fault/fault-narrator.ts: the fault-tolerance demos, over an adapter that is
-- not fixed.
pub mod Stage
pub mod Story
pub mod Tally
