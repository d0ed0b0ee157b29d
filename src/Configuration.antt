-- ===== src/Configuration.antt =====
-- Configuration: src/configuration and the environment readers of src/utils.ts.
pub mod Substitute
pub mod Env
pub mod Document
pub mod Numbers
pub mod Instrumentations
pub mod Effective
pub mod Tracing
mod Tests
