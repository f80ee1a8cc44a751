-- ===== src/Reservation.antt =====
-- Reservations, the booking engine (src/modules/reservations): the pure rules, the availability
-- checks, and the service's operations on the database, each in a child module.
pub mod Rules
pub mod Availability
pub mod Writes
pub mod Clash
pub mod Decision
pub mod Booking
pub mod Changes
pub mod InHouse
pub mod Swaps
pub mod Departure
pub mod Frames
pub mod Settlement
pub mod Leaving
pub mod History
pub mod Life
pub mod Nights
pub mod Safety
