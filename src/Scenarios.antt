-- ===== src/Scenarios.antt =====
-- Runs of the operations on a small hotel.
pub mod Hotel
pub mod Bookings
pub mod Histories
pub mod Money
pub mod Cleaning
pub mod Store
pub mod Repairs
pub mod Dining
pub mod Till
pub mod Trips
