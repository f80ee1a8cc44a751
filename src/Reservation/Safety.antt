-- ===== src/Reservation/Safety.antt =====
-- No double booking: every operation of the reservations service keeps the invariant of
-- Reservation/Clash.antt, in a child module for each file of operations.
pub mod Resolution
pub mod Changes
pub mod InHouse
pub mod Create
pub mod Swap
pub mod Allocate
pub mod Departure
