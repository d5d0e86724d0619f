-- ===== src/Builder.antt =====
-- The builders of the churn graphs (internal/chaos).
pub mod Ordering
pub mod Shape
pub mod Neutron
