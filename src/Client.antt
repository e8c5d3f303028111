-- ===== src/Client.antt =====
-- The client of the device: src/dragonsniff/client.py.
pub mod Budget
pub mod Parsed
pub mod Fetch
pub mod Sse
mod Tests
