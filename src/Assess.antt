-- ===== src/Assess.antt =====
-- Offline evidence assessment: src/dragonsniff/assess.
pub mod Evidence
pub mod Timeline
pub mod Profile
pub mod Pointer
pub mod Attempts
pub mod Engine
pub mod Report
mod Tests
