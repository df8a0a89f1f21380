-- ===== src/Gamepad.antt =====
-- pc-server/pc_server/gamepad.py.
pub mod Mapping
pub mod Failure
pub mod Service
mod Tests
