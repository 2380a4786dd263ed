-- ===== src/Board.antt =====
-- state.rs and the tasks: what the tasks share, and what each of them does to it.
pub mod Runtime
pub mod Stats
pub mod Channel
pub mod Downlink
pub mod State
pub mod Transfer
pub mod Received
pub mod Frame
pub mod Transmit
pub mod Commands
pub mod Uplink
pub mod Invariant
pub mod Answers
pub mod Refused
pub mod Radio
pub mod Power
pub mod Gnss
pub mod Steps
mod Tests
