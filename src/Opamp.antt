-- ===== src/Opamp.antt =====
-- The OpAMP agent: src/opamp of the repository.
pub mod Backoff
pub mod Uuid
pub mod RemoteConfig
pub mod EffectiveState
pub mod Client
pub mod Session
mod Tests
