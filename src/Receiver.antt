-- ===== src/Receiver.antt =====
-- pc-server/pc_server/receiver.py.
pub mod Sequence
pub mod Rate
pub mod Cache
pub mod State
pub mod Effects
pub mod Clients
pub mod Handle
pub mod Process
pub mod Invariant
mod Core
pub mod Takeover
pub mod Unpaired
pub mod Metrics
pub mod Tally
pub mod Calls
pub mod Choice
pub mod Accounts
pub mod Delivery
pub mod Admission
pub mod Run
mod Tests
