-- ===== src/Ledger.antt =====
-- What the sidecar remembers: OperationLedger of python/src/artzain/openshell/interceptor.py and
-- GatewayLedger of python/src/artzain/openshell/state.py.
pub mod Operations
pub mod Views
pub mod Gateway
pub mod Loading
pub mod Tidy
pub mod History
pub mod Sound
pub mod Bounds
pub mod Overlap
pub mod Replace
pub mod Provenance
mod Tests
