-- ===== src/Lora.antt =====
-- The LoRa side: the schedule of transmissions and its timing, the uplink frames and the downlink packets.
pub mod Scheduler
pub mod Checksum
pub mod Uplink
pub mod Payload
pub mod Periodic
pub mod Timing
