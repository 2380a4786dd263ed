-- ===== src/Gnss.antt =====
-- gnss/: what the board reads from the GNSS module.
mod Tests
pub mod Time
pub mod Ack
