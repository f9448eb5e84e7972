-- ===== src/BreakGlass.antt =====
-- Break-glass windows, python/src/artzain/openshell/breakglass.py.
pub mod State
pub mod Operations
pub mod Windows
pub mod Writes
pub mod Proper
pub mod History
pub mod Limits
mod Tests
