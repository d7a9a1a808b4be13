-- ===== src/Examples.antt =====
-- The theorems at concrete inputs.
pub mod Data
mod Saves
mod Tables
mod Deliveries
mod Texts
mod Requests
mod Access
mod Maps
mod Alerts
pub mod Pages
pub mod Program
mod Startup
mod Services
mod Formats
