-- ===== src/KillSwitch.antt =====
-- The kill switch, python/src/artzain/kill_switch.py.
pub mod State
pub mod Operations
pub mod History
pub mod Flags
pub mod Window
pub mod Panic
pub mod Callbacks
pub mod Settings
mod Tests
