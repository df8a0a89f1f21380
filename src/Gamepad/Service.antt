-- ===== src/Gamepad/Service.antt =====
-- `ControllerService` of pc-server/pc_server/gamepad.py: it applies fresh receiver states to the
-- virtual gamepad and fails closed. The lock makes each method one step. Times are microseconds.
pub mod State
pub mod Session
pub mod Methods
pub mod Safe
pub mod Run
pub mod Outcomes
pub mod Spec
pub mod Refines
