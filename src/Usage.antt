-- ===== src/Usage.antt =====
-- src/infra/store.js and src/kernel/resource-kernel.js: what goals use, and what limits it.
pub mod Books
pub mod Ledger
pub mod Balance
pub mod Batch
pub mod Runs
pub mod Budget
pub mod Narrowing
pub mod Quota
pub mod Kernel
pub mod Limits
mod Samples
