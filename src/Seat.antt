-- ===== src/Seat.antt =====
-- src/seat: the seats of an event, who holds them, and the operations of SeatWriteService.
pub mod Rows
pub mod Store
pub mod Edit
pub mod Assign
pub mod Claim
pub mod Reserve
pub mod Release
pub mod Fixtures
mod Tests
