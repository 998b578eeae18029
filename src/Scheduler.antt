-- ===== src/Scheduler.antt =====
-- src/runtime/scheduler.js: which ready tasks run, and how a quantum ends.
pub mod Queue
pub mod Drain
pub mod Quantum
pub mod Capacity
pub mod Ends
mod Samples
