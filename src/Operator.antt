-- ===== src/Operator.antt =====
-- pkg/operator: the operator's secret and its event handler.
pub mod Config
pub mod Health
pub mod Registry
pub mod Handler
