-- ===== src/Can/Protocol/Tests.antt =====
-- Frames of the golden vectors (testdata/99l_protocol_golden_vectors.txt) in both directions.
use l_comboard.Base.{ℕ, ◌≡◌, refl, List, [], ◌∷◌, some, arith, take, replicate}
use l_comboard.Base.Result.{ok, err}
use l_comboard.Can.Protocol.MissionEnums.{MissionState, mission_state_to_u8}
use l_comboard.Can.Protocol.CommandEnums.{
  CommandPhase, CommandReason, decode_command_phase, decode_command_reason,
}
use l_comboard.Can.Protocol.RecoveryEnums.{
  RecoveryOpcode, RecoverySource, recovery_opcode_to_u8, recovery_source_to_u8,
}
use l_comboard.Can.Protocol.Messages.{
  CanTxMessage, CanRxMessage, ControlRollTelemetryV2, mission_event, command_result,
  recovery_control, unknown_id, invalid_dlc,
}
use l_comboard.Can.Protocol.Decode.{
  decode_standard, decode_command_result, decode_mission_event, require_dlc,
  require_received_transaction_id, decode_field,
}
use l_comboard.Can.Protocol.Encode.{encode_payload, id, dlc}
use l_comboard.Can.Protocol.Wire.{wire, wire_id, IsWire}
use l_comboard.Can.Protocol.Sound.{decode_standard-wire}
use l_comboard.Can.Protocol.Complete.{decode_standard-Carries, Carries}
use l_comboard.Can.Protocol.Reader.{read, Typed, Sendable, encode_payload-read}

abbrev event : CanRxMessage
event = mission_event (record {
  sequence = 0xff;
  flags = 0x4061;
  state = MissionState.control;
  elapsed = 0x04d2;
  detail = 0xbeef;
})

event-IsWire : IsWire event
unfolding mission_state_to_u8
event-IsWire = record { bytes = ground arith; fields = tt }

decode_standard-wire_example : decode_standard (wire_id event) (wire event) ≡ ok event
decode_standard-wire_example = decode_standard-wire event event-IsWire

-- CAN_011
abbrev result_bytes : List ℕ
result_bytes = 0x2a ∷ 0x13 ∷ 0x03 ∷ 0x09 ∷ 0x78 ∷ 0x56 ∷ 0x34 ∷ 0x12 ∷ []

abbrev result : CanRxMessage
result = command_result (record {
  transaction_id = 0x2a;
  command = 0x13;
  phase = CommandPhase.failed;
  reason = CommandReason.interrupted_by_emergency;
  detail = 0x12345678;
})

result_decodes : decode_standard 0x011 result_bytes ≡ ok result
unfolding decode_standard decode_command_result require_dlc require_received_transaction_id
    decode_field decode_command_phase decode_command_reason
result_decodes = refl

decode_standard-Carries_example : Carries result 0x011 result_bytes
decode_standard-Carries_example =
    decode_standard-Carries 0x011 result_bytes result (ground arith) result_decodes

-- CAN_008
abbrev request : CanTxMessage
request = recovery_control (record {
  opcode = RecoveryOpcode.start_log_dump;
  source = RecoverySource.mission_sd_latest_flight;
  transfer_id = 0x34;
  offset = 0x012345;
  length = 0x456;
})

request-Typed : Typed request
request-Typed = ground arith

request-Sendable : Sendable request
request-Sendable = ground arith

encode_payload-read_example :
    (n : ℕ) × ((encode_payload request).1 ≡ ok n)
    × (n ≡ dlc request)
    × (read (id request) (take n (encode_payload request).0) ≡ some request)
encode_payload-read_example = encode_payload-read request request-Typed request-Sendable

abbrev too_far : CanTxMessage
too_far = recovery_control (record {
  opcode = RecoveryOpcode.start_log_dump;
  source = RecoverySource.internal_flash;
  transfer_id = 1;
  offset = 0x1000000;
  length = 0;
})

too_far-Typed : Typed too_far
too_far-Typed = ground arith

too_far-refused : ¬ Sendable too_far
too_far-refused = ground arith

-- A frame that is too short, and one of an identifier that is not the board's.
short_frame : decode_standard 0x020 (replicate 7 0) ≡ err (invalid_dlc 0x020 8 7)
unfolding decode_standard decode_mission_event require_dlc
short_frame = refl

foreign_frame : decode_standard 0x0ff (replicate 8 0) ≡ err (unknown_id 0x0ff)
unfolding decode_standard
foreign_frame = refl

request_encoded :
    encode_payload request ≡ (0x12 ∷ 0x34 ∷ 0x45 ∷ 0x23 ∷ 0x01 ∷ 0x56 ∷ 0x04 ∷ 0x00 ∷ [], ok 8)
unfolding encode_payload recovery_opcode_to_u8 recovery_source_to_u8
request_encoded = refl

-- CAN_10A_POS
abbrev roll : ControlRollTelemetryV2
roll = record {
  sequence = 0xf7;
  control_roll_reference_unwrapped_raw = 0x02f8;
  roll_deviation_unwrapped_raw = 0x05a0;
  flags = 7;
  reference_capture_event_sequence = 0x2a;
}

-- The reference of CAN_10A_OUT_OF_RANGE
abbrev out_of_count : ℕ
out_of_count = 0x800a
