-- ===== src/Tests.antt =====
-- Concrete inputs: each theorem that has a hypothesis, applied where it holds, and runs of the code.
mod Churn
mod Results
mod Validation
mod Executor
mod Record
mod Metrics
mod Pressure
mod Builder
mod Run
mod Nova
mod Octavia
