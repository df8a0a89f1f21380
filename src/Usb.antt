-- ===== src/Usb.antt =====
-- pc-server/pc_server/usb_transport.py.
pub mod Frame
pub mod Device
pub mod Handshake
pub mod Source
pub mod Backend
mod Tests
