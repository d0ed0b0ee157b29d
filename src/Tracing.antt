-- ===== src/Tracing.antt =====
-- Tracing: src/tracing.
pub mod Snapshots
pub mod RuleBasedSampler
pub mod NextJs
pub mod Options
mod Tests
