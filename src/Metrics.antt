-- ===== src/Metrics.antt =====
-- Metrics: src/metrics.
pub mod Views
pub mod Runtime
pub mod Provider
mod Tests
