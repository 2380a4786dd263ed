-- ===== src/Can.antt =====
-- can/: the codec of the CAN bus and the state that the messages drive.
pub mod Protocol
pub mod Health
pub mod Cache
pub mod Command
pub mod Recovery
