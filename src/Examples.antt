-- ===== src/Examples.antt =====
-- Sample data, and runs of the theorems on it.
pub mod Data
pub mod Enrol
pub mod Rounds
pub mod Nets
pub mod Routes
pub mod Access
pub mod Machines
pub mod Packages
pub mod Services
pub mod Polling
