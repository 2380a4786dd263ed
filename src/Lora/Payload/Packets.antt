-- ===== src/Lora/Payload/Packets.antt =====
-- payload.rs: the packets of the downlink. The integers are native numbers; their widths are those of
-- `Encode`. The field `data` of a log packet, of 16 bytes, is `log_data`.
use l_comboard.Base.{ℕ, List, Bool}
use l_comboard.Can.Protocol.CommandEnums.{CommandPhase, CommandReason}

pub data PacketHeader : Type 0 where
  command_receive liftoff_detection engine_burn control descent recovery_beacon recovery_log_data
        control_roll_telemetry_v2 mission_link_fallback_telemetry command_result
        ground_time_request :
      PacketHeader

-- `header as u32`
unfoldable pub header_to_u8 : PacketHeader → ℕ
header_to_u8 PacketHeader.command_receive = 0xa0
header_to_u8 PacketHeader.liftoff_detection = 0xa1
header_to_u8 PacketHeader.engine_burn = 0xa2
header_to_u8 PacketHeader.control = 0xa3
header_to_u8 PacketHeader.descent = 0xa4
header_to_u8 PacketHeader.recovery_beacon = 0xa5
header_to_u8 PacketHeader.recovery_log_data = 0xa6
header_to_u8 PacketHeader.control_roll_telemetry_v2 = 0xa7
header_to_u8 PacketHeader.mission_link_fallback_telemetry = 0xa8
header_to_u8 PacketHeader.command_result = 0xb0
header_to_u8 PacketHeader.ground_time_request = 0xb1

pub record FlightTelemetry : Type 0 where
  pub header : PacketHeader
  pub status : ℕ
  pub roll : ℕ
  pub roll_rate : ℕ
  pub tilt_magnitude : ℕ
  pub tilt_direction : ℕ
  pub fin_angle : ℕ
  pub fin_rate : ℕ
  pub pressure : ℕ
  pub temperature : ℕ
  pub airspeed : ℕ
  pub requested_torque : ℕ
  pub elapsed : ℕ
  pub east : ℕ
  pub north : ℕ
  pub height : ℕ

pub record CommandReceiveTelemetry : Type 0 where
  pub status : ℕ
  pub motor_profile : ℕ
  pub tilt_magnitude : ℕ
  pub tilt_direction : ℕ
  pub fin_mode : ℕ
  pub para_mode : ℕ
  pub fin_angle : ℕ
  pub para_angle : ℕ
  pub pressure : ℕ
  pub temperature : ℕ
  pub airspeed : ℕ
  pub logic_voltage : ℕ
  pub motor_voltage : ℕ
  pub east : ℕ
  pub north : ℕ
  pub height : ℕ
  pub display_roll : ℕ

pub record DescentTelemetry : Type 0 where
  pub status : ℕ
  pub pressure : ℕ
  pub temperature : ℕ
  pub para_angle : ℕ
  pub elapsed : ℕ
  pub east : ℕ
  pub north : ℕ
  pub height : ℕ

pub record RecoveryBeacon : Type 0 where
  pub logic_voltage : ℕ
  pub motor_voltage : ℕ
  pub east : ℕ
  pub north : ℕ
  pub height : ℕ
  pub elapsed : ℕ

pub record MissionLinkFallbackTelemetry : Type 0 where
  pub sequence : ℕ
  pub primary_loss_reason : ℕ
  pub status_flags : ℕ
  pub last_valid_mission_state : ℕ
  pub gnss_state : ℕ
  pub mission_status_age : ℕ
  pub any_mission_periodic_age : ℕ
  pub power_time_age : ℕ
  pub east : ℕ
  pub north : ℕ
  pub height : ℕ
  pub logic_voltage : ℕ
  pub motor_voltage : ℕ
  pub can_health : ℕ

pub record RecoveryLogPacket : Type 0 where
  pub transfer_id : ℕ
  pub source : Bool
  pub end_of_file : Bool
  pub offset : ℕ
  pub data_length : ℕ
  pub log_data : List ℕ

pub record CommandResultPacket : Type 0 where
  pub transaction_id : ℕ
  pub command : ℕ
  pub phase : CommandPhase
  pub reason : CommandReason
  pub detail : ℕ

pub record ControlRollTelemetryV2Packet : Type 0 where
  pub control_roll_reference_unwrapped_raw : ℕ
  pub roll_deviation_unwrapped_raw : ℕ
  pub flags : ℕ
  pub reference_capture_event_sequence : ℕ

pub data ApplicationPacket : Type 0 where
  command_receive : CommandReceiveTelemetry → ApplicationPacket
  flight : FlightTelemetry → ApplicationPacket
  descent : DescentTelemetry → ApplicationPacket
  recovery_beacon : RecoveryBeacon → ApplicationPacket
  mission_link_fallback : MissionLinkFallbackTelemetry → ApplicationPacket
  recovery_log_data : RecoveryLogPacket → ApplicationPacket
  command_result : CommandResultPacket → ApplicationPacket
  ground_time_request : (request_id : ℕ) → ApplicationPacket
  control_roll_telemetry_v2 : ControlRollTelemetryV2Packet → ApplicationPacket

-- `bytes` has 27 bytes, of which the first `length` are sent.
pub record LoraFrame : Type 0 where
  pub bytes : List ℕ
  pub length : ℕ
