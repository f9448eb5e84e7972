-- ===== src/Decide.antt =====
-- The decision client, python/src/artzain/decide.py.
pub mod Request
pub mod Parents
pub mod Votes
pub mod Outcome
pub mod Body
mod Tests
pub mod Offline
