-- ===== src/Can/Protocol.antt =====
-- can/protocol.rs: the messages of the CAN bus, the decoder and the encoder of their frames, and what
-- the frames look like.
pub mod WireEnum
pub mod MissionEnums
pub mod CommandEnums
pub mod RecoveryEnums
pub mod Messages
pub mod Decode
pub mod Wire
pub mod Sound
pub mod Complete
pub mod Encode
pub mod Reader
pub mod ControlRoll
mod Tests
