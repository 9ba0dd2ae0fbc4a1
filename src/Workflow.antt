-- ===== src/Workflow.antt =====
-- internal/flowengine: workflows, graphs without cycles whose nodes run in rounds over a run context.
pub mod Values
pub mod Types
pub mod Context
pub mod Mapping
pub mod Store
pub mod Validation
pub mod State
pub mod Routing
pub mod Executor
pub mod Run
