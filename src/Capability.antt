-- ===== src/Capability.antt =====
-- src/kernel/capability-kernel.js: what a goal may do.
pub mod Rules
pub mod Freeze
pub mod Authorize
pub mod Paths
pub mod Lists
pub mod Narrowing
pub mod Refinement
pub mod Wildcards
mod Samples
