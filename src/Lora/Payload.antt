-- ===== src/Lora/Payload.antt =====
-- payload.rs: the packets of the downlink and their bit-packed frames.
mod Tests
pub mod Writer
pub mod Packets
pub mod Encode
