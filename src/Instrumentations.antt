-- ===== src/Instrumentations.antt =====
-- Instrumentations: src/instrumentations, but for the choice of them.
pub mod Http
pub mod Nocode
mod Tests
