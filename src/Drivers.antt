-- ===== src/Drivers.antt =====
-- src/drivers: the drivers' profiles.
pub mod Entity
pub mod Service
pub mod Duty
pub mod Listing
