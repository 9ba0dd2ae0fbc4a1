-- ===== src/Tests.antt =====
-- Runs of the model at fixed inputs, and the theorems applied at them.
pub mod Samples
pub mod Runs
pub mod Contexts
pub mod Tokens
pub mod Branches
pub mod Bases
pub mod Workflows
pub mod Spans
pub mod Histories
pub mod Arguments
