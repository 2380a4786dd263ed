-- ===== src/Lora/Payload/Encode.antt =====
-- payload.rs: `ApplicationPacket::encode`. The encoder of each packet first tests its fields, and then
-- calls `write` for each of the numbers of a list, in order.
pub mod Layout
pub mod Frame
use Prim.Native.Nat.{bit_and, bit_or}
use l_comboard.Base.{
  ℕ, ◌+◌, ◌*◌, List, [], ◌∷◌, ◌++◌, map, Bool, true, false, not, ◌&&◌, ◌||◌, ◌==◌, ltb,
  if◌then◌else◌, take, drop, set,
}
use l_comboard.Base.Result.{Result, ok, err, ◌>>=◌, ◌>>◌}
use l_comboard.Can.Protocol.WireEnum.{to_u8}
use l_comboard.Can.Protocol.CommandEnums.{command_phase_wire, command_reason_wire}
use l_comboard.Can.Protocol.Decode.{flag_agrees}
use l_comboard.Lora.Checksum.{xor_checksum}
use l_comboard.Lora.Payload.Packets.{
  PacketHeader, header_to_u8, FlightTelemetry, CommandReceiveTelemetry, DescentTelemetry,
  RecoveryBeacon, MissionLinkFallbackTelemetry, RecoveryLogPacket, CommandResultPacket,
  ControlRollTelemetryV2Packet, ApplicationPacket, command_receive, flight, descent,
  recovery_beacon, mission_link_fallback, recovery_log_data, command_result, ground_time_request,
  control_roll_telemetry_v2, LoraFrame,
}
use l_comboard.Lora.Payload.Writer.{
  BitWriter, EncodeError, invalid_header, invalid_field, out_of_range, reserved_transaction_id, new,
  write_all, byte_length,
}

abbrev pub command_receive_fields : CommandReceiveTelemetry → List (ℕ × ℕ)
command_receive_fields v =
    (header_to_u8 PacketHeader.command_receive, 8)
    ∷ (v.status, 24)
    ∷ (v.motor_profile, 8)
    ∷ (v.tilt_magnitude, 7)
    ∷ (v.tilt_direction, 9)
    ∷ (v.fin_mode, 4)
    ∷ (v.para_mode, 4)
    ∷ (v.fin_angle, 8)
    ∷ (v.para_angle, 8)
    ∷ (v.pressure, 11)
    ∷ (v.temperature, 8)
    ∷ (v.airspeed, 8)
    ∷ (v.logic_voltage, 8)
    ∷ (v.motor_voltage, 8)
    ∷ (v.east, 16)
    ∷ (v.north, 16)
    ∷ (v.height, 9)
    ∷ (v.display_roll, 16)
    ∷ (0, 4)
    ∷ []

abbrev pub flight_fields : FlightTelemetry → List (ℕ × ℕ)
flight_fields v =
    (header_to_u8 v.header, 8)
    ∷ (v.status, 16)
    ∷ (v.roll, 16)
    ∷ (v.roll_rate, 16)
    ∷ (v.tilt_magnitude, 7)
    ∷ (v.tilt_direction, 9)
    ∷ (v.fin_angle, 8)
    ∷ (v.fin_rate, 16)
    ∷ (v.pressure, 11)
    ∷ (v.temperature, 8)
    ∷ (v.airspeed, 8)
    ∷ (v.requested_torque, 12)
    ∷ (v.elapsed, 8)
    ∷ (v.east, 16)
    ∷ (v.north, 16)
    ∷ (v.height, 9)
    ∷ []

abbrev pub descent_fields : DescentTelemetry → List (ℕ × ℕ)
descent_fields v =
    (header_to_u8 PacketHeader.descent, 8)
    ∷ (v.status, 13)
    ∷ (v.pressure, 11)
    ∷ (v.temperature, 8)
    ∷ (v.para_angle, 8)
    ∷ (v.elapsed, 16)
    ∷ (v.east, 16)
    ∷ (v.north, 16)
    ∷ (v.height, 9)
    ∷ (0, 7)
    ∷ []

abbrev pub recovery_beacon_fields : RecoveryBeacon → List (ℕ × ℕ)
recovery_beacon_fields v =
    (header_to_u8 PacketHeader.recovery_beacon, 8)
    ∷ (v.logic_voltage, 8)
    ∷ (v.motor_voltage, 8)
    ∷ (v.east, 16)
    ∷ (v.north, 16)
    ∷ (v.height, 9)
    ∷ (v.elapsed, 16)
    ∷ (0, 7)
    ∷ []

abbrev pub mission_link_fallback_fields : MissionLinkFallbackTelemetry → List (ℕ × ℕ)
mission_link_fallback_fields v =
    (header_to_u8 PacketHeader.mission_link_fallback_telemetry, 8)
    ∷ (1, 8)
    ∷ (v.sequence, 8)
    ∷ (v.primary_loss_reason, 8)
    ∷ (v.status_flags, 16)
    ∷ (v.last_valid_mission_state, 8)
    ∷ (v.gnss_state, 8)
    ∷ (v.mission_status_age, 16)
    ∷ (v.any_mission_periodic_age, 16)
    ∷ (v.power_time_age, 16)
    ∷ (v.east, 16)
    ∷ (v.north, 16)
    ∷ (v.height, 16)
    ∷ (v.logic_voltage, 8)
    ∷ (v.motor_voltage, 8)
    ∷ (v.can_health, 8)
    ∷ []

-- `u8::from(source) | (u8::from(end_of_file) << 1)`
abbrev pub meta : RecoveryLogPacket → ℕ
meta v = bit_or (if v.source then 1 else 0) ((if v.end_of_file then 1 else 0) * 2)

abbrev pub recovery_log_fields : RecoveryLogPacket → List (ℕ × ℕ)
recovery_log_fields v =
    (header_to_u8 PacketHeader.recovery_log_data, 8)
    ∷ (v.transfer_id, 8)
    ∷ (meta v, 8)
    ∷ (v.offset, 24)
    ∷ (v.data_length, 8)
    ∷ map (λ byte. (byte, 8)) v.log_data

abbrev pub command_result_fields : CommandResultPacket → List (ℕ × ℕ)
command_result_fields v =
    (header_to_u8 PacketHeader.command_result, 8)
    ∷ (v.transaction_id, 8)
    ∷ (v.command, 8)
    ∷ (to_u8 v.phase, 8)
    ∷ (to_u8 v.reason, 8)
    ∷ (v.detail, 32)
    ∷ []

abbrev pub control_roll_fields : ControlRollTelemetryV2Packet → List (ℕ × ℕ)
control_roll_fields v =
    (header_to_u8 PacketHeader.control_roll_telemetry_v2, 8)
    ∷ (2, 8)
    ∷ (v.control_roll_reference_unwrapped_raw, 16)
    ∷ (v.roll_deviation_unwrapped_raw, 16)
    ∷ (v.flags, 8)
    ∷ (v.reference_capture_event_sequence, 8)
    ∷ []

abbrev pub time_request_fields : ℕ → List (ℕ × ℕ)
time_request_fields request_id =
    (header_to_u8 PacketHeader.ground_time_request, 8) ∷ (request_id, 8) ∷ []

abbrev pub require : Bool → EncodeError → Result EncodeError (Unit {0})
require true e = ok tt
require false e = err e

-- `matches!` on the headers of the flight
abbrev pub is_flight_header : PacketHeader → Bool
is_flight_header PacketHeader.liftoff_detection = true
is_flight_header PacketHeader.engine_burn = true
is_flight_header PacketHeader.control = true
is_flight_header _ = false

-- The tests that an encoder makes before it writes.
unfoldable pub admit : ApplicationPacket → Result EncodeError (Unit {0})
admit (command_receive v) = ok tt
admit (flight v) = require (is_flight_header v.header) invalid_header
admit (descent v) = ok tt
admit (recovery_beacon v) = ok tt
admit (mission_link_fallback v) =
    require
      (not (
        ltb 7 v.primary_loss_reason
        || (not (bit_and v.status_flags 0x8000 == 0)
            || ((ltb 4 v.last_valid_mission_state && not (v.last_valid_mission_state == 0xff))
                || (ltb 8 v.gnss_state || (ltb 0x01ff v.height || ltb 6 v.can_health))))))
      invalid_field
admit (recovery_log_data v) =
    require (not (ltb 0x00ffffff v.offset || ltb 16 v.data_length)) out_of_range
admit (command_result v) = require (not (v.transaction_id == 0)) reserved_transaction_id
admit (ground_time_request request_id) = ok tt
admit (control_roll_telemetry_v2 v) =
    require
      (bit_and v.flags 0xe0 == 0
        && (flag_agrees v.control_roll_reference_unwrapped_raw v.flags 0x08
            && flag_agrees v.roll_deviation_unwrapped_raw v.flags 0x10))
      invalid_field

-- What an encoder writes.
unfoldable pub fields : ApplicationPacket → List (ℕ × ℕ)
fields (command_receive v) = command_receive_fields v
fields (flight v) = flight_fields v
fields (descent v) = descent_fields v
fields (recovery_beacon v) = recovery_beacon_fields v
fields (mission_link_fallback v) = mission_link_fallback_fields v
fields (recovery_log_data v) = recovery_log_fields v
fields (command_result v) = command_result_fields v
fields (ground_time_request request_id) = time_request_fields request_id
fields (control_roll_telemetry_v2 v) = control_roll_fields v

-- The end of `encode`: the checksum follows the bytes written, behind the prefix of the radio.
unfoldable pub finish : BitWriter → LoraFrame
finish w =
    let application_without_checksum = byte_length w in
    let checksum = xor_checksum (take application_without_checksum w.bytes) in
    record {
      bytes = 0x00 ∷ 0x00 ∷ 0x04 ∷ set w.bytes application_without_checksum checksum;
      length = 3 + application_without_checksum + 1;
    }

unfoldable pub encode : ApplicationPacket → Result EncodeError LoraFrame
encode packet = do admit packet; w ← write_all (fields packet) (new 24); ok (finish w)

-- `as_bytes`
unfoldable pub as_bytes : LoraFrame → List ℕ
as_bytes frame = take frame.length frame.bytes
