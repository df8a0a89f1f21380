-- ===== src/Settings/Laws.antt =====
-- Laws of the settings.
pub mod Text
pub mod Number
pub mod Address
pub mod RoundTrip
pub mod Validity
pub mod File
