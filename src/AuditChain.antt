-- ===== src/AuditChain.antt =====
-- The audit chain, python/src/artzain/audit_chain.py.
pub mod Entry
pub mod Verify
pub mod Line
pub mod Inversion
pub mod Intact
pub mod Append
pub mod RoundTrip
pub mod History
pub mod Faults
pub mod Binding
mod Sample
mod Tests
