-- ===== src/Profiling.antt =====
-- Profiling: src/profiling.
pub mod Serializer
pub mod Start
pub mod Controller
mod Tests
