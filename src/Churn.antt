-- ===== src/Churn.antt =====
-- The churn engine (internal/chaos/engine.go).
pub mod Graph
pub mod Results
pub mod State
pub mod Dispatch
pub mod Choice
pub mod Step
pub mod Population
pub mod Rolling
pub mod Layered
pub mod Parented
pub mod Lasting
pub mod Allowed
pub mod Permitted
pub mod Invariant
pub mod Pinned
pub mod Schedule
pub mod Task
pub mod Record
