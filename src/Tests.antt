-- ===== src/Tests.antt =====
-- Concrete runs and inputs.
pub mod Line
pub mod States
pub mod Runs
pub mod Core
pub mod Process
pub mod Belts
pub mod Legacy
pub mod Devices
pub mod Shifts
