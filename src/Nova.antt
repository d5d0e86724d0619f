-- ===== src/Nova.antt =====
-- Nova: the plan of a run (internal/nova/plan/plan.go), and the churn graphs built of it with the
-- operations of their nodes (internal/chaos/novagraph/graph.go).
pub mod Plan
pub mod Graph
pub mod Cloud
pub mod Operations
pub mod Mutations
