-- ===== src/Storage.antt =====
-- Durable sessions: src/dragonsniff/storage.py.
pub mod Evidence
pub mod Metadata
pub mod Sessions
pub mod Recovery
pub mod Retention
pub mod Annotations
pub mod Recorder
mod Tests
