-- ===== src/Interceptor.antt =====
-- The interceptor, python/src/artzain/openshell/interceptor.py, over the ledger and break-glass.
pub mod Values
pub mod Methods
pub mod Subject
pub mod Facts
pub mod Deciding
pub mod Stamps
pub mod Evaluate
pub mod Rulings
pub mod FailClosed
pub mod Guarantees
pub mod Confirmed
pub mod Remembered
pub mod Patching
pub mod Twice
pub mod Sample
mod Tests
pub mod Secrets
pub mod Window
pub mod Memory
