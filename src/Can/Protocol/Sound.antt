-- ===== src/Can/Protocol/Sound.antt =====
-- can/protocol.rs: the decoder on the frames of `Wire`, message by message.
use l_comboard.Base.{take_all, ◌+◌, ◌*◌, ◌/◌, ◌%◌, ◌≡◌, arith}
use l_comboard.Base.Bits.{bit_and_0x7f}
use l_comboard.Base.Result.{ok}
use l_comboard.Can.Protocol.Messages.{
  CanRxMessage, command_result, time_request, mission_event, kinematics, control, mission_status,
  power_time, descent_core, recovery_status, recovery_log_data, attitude_tilt, lps, airspeed,
  control_roll_v2,
}
use l_comboard.Can.Protocol.MissionEnums.{
  mission_state_decode-to_u8, fin_mode_decode-to_u8, para_mode_decode-to_u8,
}
use l_comboard.Can.Protocol.CommandEnums.{command_phase_decode-to_u8, command_reason_decode-to_u8}
use l_comboard.Can.Protocol.RecoveryEnums.{
  recovery_opcode_decode-to_u8, recovery_source_decode-to_u8, recovery_status_code_decode-to_u8,
}
use l_comboard.Can.Protocol.Decode.{
  decode_standard, require_dlc, require_reserved_zero, require_received_transaction_id,
  decode_field, decode_command_result, decode_time_request, decode_mission_event, decode_kinematics,
  decode_control, decode_mission_status, decode_power_time, decode_descent_core,
  decode_recovery_status, decode_recovery_log_data, decode_attitude_tilt, decode_lps,
  decode_airspeed, decode_control_roll_v2,
}
use l_comboard.Can.Protocol.Wire.{wire, wire_id, IsWire}

-- Every message that a frame can carry is decoded from its own frame, as it was.
pub decode_standard-wire :
    (m : CanRxMessage) → IsWire m → decode_standard (wire_id m) (wire m) ≡ ok m
unfolding decode_standard decode_command_result decode_time_request decode_mission_event
    decode_kinematics decode_control decode_mission_status decode_power_time decode_descent_core
    decode_recovery_status decode_recovery_log_data decode_attitude_tilt decode_lps decode_airspeed
    decode_control_roll_v2 require_dlc require_reserved_zero require_received_transaction_id
    decode_field
decode_standard-wire (command_result m) w =
    ground (arith, command_phase_decode-to_u8 m.phase, command_reason_decode-to_u8 m.reason)
decode_standard-wire (time_request id) w = ground arith
decode_standard-wire (mission_event m) w = ground (arith, mission_state_decode-to_u8 m.state)
decode_standard-wire (kinematics m) w = ground arith
decode_standard-wire (control m) w = ground arith
decode_standard-wire (mission_status m) w = ground (
  arith,
  mission_state_decode-to_u8 m.state,
  fin_mode_decode-to_u8 m.fin_mode,
  para_mode_decode-to_u8 m.para_mode,
)
decode_standard-wire (power_time m) w = ground arith
decode_standard-wire (descent_core m) w = ground arith
decode_standard-wire (recovery_status m) w = ground (
  arith,
  recovery_opcode_decode-to_u8 m.opcode,
  recovery_status_code_decode-to_u8 m.status,
  recovery_source_decode-to_u8 m.source,
)
decode_standard-wire (recovery_log_data m) w = ground (arith, take_all 6 m.fragment)
decode_standard-wire (attitude_tilt m) w =
    ground (arith, bit_and_0x7f (m.magnitude + m.direction % 2 * 128 + m.direction / 2 * 256))
decode_standard-wire (lps m) w = ground arith
decode_standard-wire (airspeed m) w = ground arith
decode_standard-wire (control_roll_v2 m) w = ground arith
