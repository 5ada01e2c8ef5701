-- ===== src/RunModes.antt =====
-- packages/core/src/run-modes: the tree of run sessions with their states and observers (Machine),
-- and the synchronous run mode (Sync).
pub mod Machine
pub mod Sync
pub mod States
pub mod Plan
pub mod Refines
pub mod Async
pub mod Quiet
pub mod Outcome
pub mod Awaited
