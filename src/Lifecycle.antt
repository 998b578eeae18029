-- ===== src/Lifecycle.antt =====
-- src/infra/store.js: the life of a task, from the claim of an execution quantum to a final status.
-- `Goals` settles dependents and goals, `Turn` is what a worker calls, `Control` what an operator or
-- an interrupt calls, `Sweep` what the scheduler's tick calls, `Notice` what the cognition and the
-- sessions call. The other children prove.
pub mod Goals
pub mod Turn
pub mod Control
pub mod Sweep
pub mod Notice
pub mod Evolve
pub mod Writes
pub mod Settle
pub mod Turns
pub mod Controls
pub mod Sweeps
pub mod Dependents
pub mod Expiry
pub mod Swept
pub mod Notices
pub mod Machine
pub mod History
pub mod Fencing
pub mod Verdict
pub mod Fixpoint
pub mod OnePass
pub mod Stuck
pub mod Failure
mod Samples
