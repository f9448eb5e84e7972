-- ===== src/Journal.antt =====
-- The journal of entries that wait for the engine, python/src/artzain/openshell/journal.py.
pub mod Entry
pub mod Reading
pub mod Operations
pub mod Chaining
pub mod RoundTrip
pub mod Saving
pub mod Opening
pub mod History
pub mod Settling
pub mod Durable
pub mod Sample
mod Tests
