-- ===== src/Workflow.antt =====
-- src/runtime/workflow-engine.js: the interpreter of workflow steps.
pub mod Values
pub mod Types
pub mod Turn
pub mod Path
pub mod Release
pub mod Ends
pub mod Rounds
mod Samples
