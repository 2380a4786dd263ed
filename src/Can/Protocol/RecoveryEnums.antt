-- ===== src/Can/Protocol/RecoveryEnums.antt =====
-- can/protocol.rs: the recovery operations, sources and status codes.
use l_comboard.Base.{ℕ, ◌≡◌, refl, Option, none, some, arith, ◌==◌, if◌then◌else◌}
use l_comboard.Can.Protocol.WireEnum.{WireEnum}

pub data RecoveryOpcode : Type 0 where
  wake start_log_dump stop_log_dump exit_recovery : RecoveryOpcode

unfoldable pub recovery_opcode_to_u8 : RecoveryOpcode → ℕ
recovery_opcode_to_u8 RecoveryOpcode.wake = 1
recovery_opcode_to_u8 RecoveryOpcode.start_log_dump = 2
recovery_opcode_to_u8 RecoveryOpcode.stop_log_dump = 3
recovery_opcode_to_u8 RecoveryOpcode.exit_recovery = 4

pub decode_recovery_opcode : ℕ → Option RecoveryOpcode
decode_recovery_opcode raw =
    if raw == 1
    then some RecoveryOpcode.wake
    else if raw == 2
    then some RecoveryOpcode.start_log_dump
    else if raw == 3
    then some RecoveryOpcode.stop_log_dump
    else if raw == 4
    then some RecoveryOpcode.exit_recovery
    else none

pub recovery_opcode_decode-to_u8 :
    (a : RecoveryOpcode) → decode_recovery_opcode (recovery_opcode_to_u8 a) ≡ some a
unfolding recovery_opcode_to_u8 decode_recovery_opcode
recovery_opcode_decode-to_u8 RecoveryOpcode.wake = refl
recovery_opcode_decode-to_u8 RecoveryOpcode.start_log_dump = refl
recovery_opcode_decode-to_u8 RecoveryOpcode.stop_log_dump = refl
recovery_opcode_decode-to_u8 RecoveryOpcode.exit_recovery = refl

pub recovery_opcode_to_u8_of_decode :
    (raw : ℕ) (a : RecoveryOpcode)
    → decode_recovery_opcode raw ≡ some a
    → recovery_opcode_to_u8 a ≡ raw
unfolding recovery_opcode_to_u8 decode_recovery_opcode
recovery_opcode_to_u8_of_decode raw a h = ground arith

instance abbrev pub recovery_opcode_wire : WireEnum RecoveryOpcode
recovery_opcode_wire = record {
  to_u8 = recovery_opcode_to_u8;
  decode = decode_recovery_opcode;
  decode-to_u8 = recovery_opcode_decode-to_u8;
  to_u8_of_decode = recovery_opcode_to_u8_of_decode;
}

pub data RecoverySource : Type 0 where
  internal_flash mission_sd_latest_flight : RecoverySource

unfoldable pub recovery_source_to_u8 : RecoverySource → ℕ
recovery_source_to_u8 RecoverySource.internal_flash = 0
recovery_source_to_u8 RecoverySource.mission_sd_latest_flight = 1

pub decode_recovery_source : ℕ → Option RecoverySource
decode_recovery_source raw =
    if raw == 0
    then some RecoverySource.internal_flash
    else if raw == 1
    then some RecoverySource.mission_sd_latest_flight
    else none

pub recovery_source_decode-to_u8 :
    (a : RecoverySource) → decode_recovery_source (recovery_source_to_u8 a) ≡ some a
unfolding recovery_source_to_u8 decode_recovery_source
recovery_source_decode-to_u8 RecoverySource.internal_flash = refl
recovery_source_decode-to_u8 RecoverySource.mission_sd_latest_flight = refl

pub recovery_source_to_u8_of_decode :
    (raw : ℕ) (a : RecoverySource)
    → decode_recovery_source raw ≡ some a
    → recovery_source_to_u8 a ≡ raw
unfolding recovery_source_to_u8 decode_recovery_source
recovery_source_to_u8_of_decode raw a h = ground arith

instance abbrev pub recovery_source_wire : WireEnum RecoverySource
recovery_source_wire = record {
  to_u8 = recovery_source_to_u8;
  decode = decode_recovery_source;
  decode-to_u8 = recovery_source_decode-to_u8;
  to_u8_of_decode = recovery_source_to_u8_of_decode;
}

pub data RecoveryStatusCode : Type 0 where
  ready dumping complete busy invalid_state invalid_argument source_unavailable io_error aborted
        internal_error :
      RecoveryStatusCode

pub recovery_status_code_to_u8 : RecoveryStatusCode → ℕ
recovery_status_code_to_u8 RecoveryStatusCode.ready = 0
recovery_status_code_to_u8 RecoveryStatusCode.dumping = 1
recovery_status_code_to_u8 RecoveryStatusCode.complete = 2
recovery_status_code_to_u8 RecoveryStatusCode.busy = 3
recovery_status_code_to_u8 RecoveryStatusCode.invalid_state = 4
recovery_status_code_to_u8 RecoveryStatusCode.invalid_argument = 5
recovery_status_code_to_u8 RecoveryStatusCode.source_unavailable = 6
recovery_status_code_to_u8 RecoveryStatusCode.io_error = 7
recovery_status_code_to_u8 RecoveryStatusCode.aborted = 8
recovery_status_code_to_u8 RecoveryStatusCode.internal_error = 9

pub decode_recovery_status_code : ℕ → Option RecoveryStatusCode
decode_recovery_status_code raw =
    if raw == 0
    then some RecoveryStatusCode.ready
    else if raw == 1
    then some RecoveryStatusCode.dumping
    else if raw == 2
    then some RecoveryStatusCode.complete
    else if raw == 3
    then some RecoveryStatusCode.busy
    else if raw == 4
    then some RecoveryStatusCode.invalid_state
    else if raw == 5
    then some RecoveryStatusCode.invalid_argument
    else if raw == 6
    then some RecoveryStatusCode.source_unavailable
    else if raw == 7
    then some RecoveryStatusCode.io_error
    else if raw == 8
    then some RecoveryStatusCode.aborted
    else if raw == 9
    then some RecoveryStatusCode.internal_error
    else none

pub recovery_status_code_decode-to_u8 :
    (a : RecoveryStatusCode) → decode_recovery_status_code (recovery_status_code_to_u8 a) ≡ some a
unfolding recovery_status_code_to_u8 decode_recovery_status_code
recovery_status_code_decode-to_u8 RecoveryStatusCode.ready = refl
recovery_status_code_decode-to_u8 RecoveryStatusCode.dumping = refl
recovery_status_code_decode-to_u8 RecoveryStatusCode.complete = refl
recovery_status_code_decode-to_u8 RecoveryStatusCode.busy = refl
recovery_status_code_decode-to_u8 RecoveryStatusCode.invalid_state = refl
recovery_status_code_decode-to_u8 RecoveryStatusCode.invalid_argument = refl
recovery_status_code_decode-to_u8 RecoveryStatusCode.source_unavailable = refl
recovery_status_code_decode-to_u8 RecoveryStatusCode.io_error = refl
recovery_status_code_decode-to_u8 RecoveryStatusCode.aborted = refl
recovery_status_code_decode-to_u8 RecoveryStatusCode.internal_error = refl

pub recovery_status_code_to_u8_of_decode :
    (raw : ℕ) (a : RecoveryStatusCode)
    → decode_recovery_status_code raw ≡ some a
    → recovery_status_code_to_u8 a ≡ raw
unfolding recovery_status_code_to_u8 decode_recovery_status_code
recovery_status_code_to_u8_of_decode raw a h = ground arith

instance abbrev pub recovery_status_code_wire : WireEnum RecoveryStatusCode
recovery_status_code_wire = record {
  to_u8 = recovery_status_code_to_u8;
  decode = decode_recovery_status_code;
  decode-to_u8 = recovery_status_code_decode-to_u8;
  to_u8_of_decode = recovery_status_code_to_u8_of_decode;
}
