-- ===== src/Octavia.antt =====
-- Octavia: the plan of a run (internal/octavia/plan/plan.go), and the churn graph built of it
-- (internal/chaos/octaviagraph/graph.go).
pub mod Names
pub mod Plan
pub mod Graph
