-- ===== src/Guards.antt =====
-- How several readings of one payload are put together: `combine_screens` of
-- python/src/artzain/destructive_action_guard.py and `combine_policy_reports` of
-- python/src/artzain/tool_call_contract.py.
pub mod Screens
pub mod Combined
pub mod Again
pub mod Policy
pub mod Readings
pub mod Suppressed
mod Tests
