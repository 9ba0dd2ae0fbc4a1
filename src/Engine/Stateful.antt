-- ===== src/Engine/Stateful.antt =====
-- core/flowengine/stateful_executor.go and store.go: flows that wait, join and are resumed.
pub mod Store
pub mod Base
pub mod Token
pub mod Run
pub mod Resume
pub mod Frame
pub mod Next
pub mod JoinMoves
pub mod Moves
pub mod Joins
pub mod Arrived
pub mod Settle
pub mod Waits
pub mod Resumed
