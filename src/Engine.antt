-- ===== src/Engine.antt =====
-- core/flowengine: the flow engine, one module per part.
pub mod Values
pub mod Heap
pub mod Paths
pub mod Context
pub mod Spec
pub mod Mapping
pub mod Registry
pub mod Graph
pub mod Trace
pub mod Event
pub mod Executor
pub mod Instance
pub mod Stateful
pub mod Conditions
pub mod Control
