-- ===== src/Can/Protocol/Decode.antt =====
-- can/protocol.rs: `CanRxMessage::decode_standard`, one function for each of its arms. A byte is read
-- by `byte data i`, which is 0 past the end; each arm asks for the length before it reads.
use Prim.Native.Nat.{bit_and}
use l_comboard.Base.{
  ℕ, ◌+◌, ◌*◌, ◌/◌, List, Bool, true, false, not, ◌||◌, Option, ◌==◌, if◌then◌else◌, length, get_or,
  take, drop,
}
use l_comboard.Base.Result.{Result, ok, err, ◌>>=◌, ◌>>◌, ok_or}
use l_comboard.Can.Protocol.WireEnum.{decode}
use l_comboard.Can.Protocol.MissionEnums.{
  MissionState, mission_state_wire, fin_mode_wire, para_mode_wire,
}
use l_comboard.Can.Protocol.CommandEnums.{command_phase_wire, command_reason_wire}
use l_comboard.Can.Protocol.RecoveryEnums.{
  recovery_opcode_wire, recovery_source_wire, recovery_status_code_wire,
}
use l_comboard.Can.Protocol.Messages.{
  CanRxMessage, CanDecodeError, unknown_id, invalid_dlc, invalid_field, command_result,
  time_request, mission_event, kinematics, control, mission_status, power_time, descent_core,
  recovery_status, recovery_log_data, attitude_tilt, lps, airspeed, control_roll_v2,
}

abbrev Decoded : Type 0 → Type 0
Decoded A = Result CanDecodeError A

abbrev pub byte : List ℕ → ℕ → ℕ
byte xs i = get_or xs i 0

-- `get_u16(&data[i..i + 2])`
abbrev pub get_u16 : List ℕ → ℕ → ℕ
get_u16 xs i = byte xs i + byte xs (i + 1) * 256

-- `u32::from_le_bytes` of the four bytes from index `i` on
abbrev pub get_u32 : List ℕ → ℕ → ℕ
get_u32 xs i = get_u16 xs i + get_u16 xs (i + 2) * 65536

unfoldable pub require_dlc : ℕ → List ℕ → ℕ → Decoded (Unit {0})
require_dlc id xs expected =
    if length xs == expected then ok tt else err (invalid_dlc id expected (length xs))

unfoldable pub require_reserved_zero : ℕ → ℕ → ℕ → ℕ → Decoded (Unit {0})
require_reserved_zero id index value reserved_mask =
    if bit_and value reserved_mask == 0 then ok tt else err (invalid_field id index value)

unfoldable pub require_received_transaction_id : ℕ → ℕ → ℕ → Decoded (Unit {0})
require_received_transaction_id id index transaction_id =
    if transaction_id == 0 then err (invalid_field id index transaction_id) else ok tt

unfoldable pub decode_field : {A : Type 0} → ℕ → ℕ → ℕ → (ℕ → Option A) → Decoded A
decode_field id index raw f = ok_or (f raw) (invalid_field id index raw)

unfoldable pub decode_command_result : ℕ → List ℕ → Decoded CanRxMessage
decode_command_result id xs = do
  require_dlc id xs 8
  require_received_transaction_id id 0 (byte xs 0)
  phase ← decode_field id 2 (byte xs 2) decode
  reason ← decode_field id 3 (byte xs 3) decode
  ok (
      command_result (record {
        transaction_id = byte xs 0;
        command = byte xs 1;
        phase = phase;
        reason = reason;
        detail = get_u32 xs 4;
      }))

unfoldable pub decode_time_request : ℕ → List ℕ → Decoded CanRxMessage
decode_time_request id xs = do
  require_dlc id xs 1
  require_received_transaction_id id 0 (byte xs 0)
  ok (time_request (byte xs 0))

unfoldable pub decode_mission_event : ℕ → List ℕ → Decoded CanRxMessage
decode_mission_event id xs = do
  require_dlc id xs 8
  state ← decode_field id 3 (byte xs 3) decode
  ok (
      mission_event (record {
        sequence = byte xs 0;
        flags = get_u16 xs 1;
        state = state;
        elapsed = get_u16 xs 4;
        detail = get_u16 xs 6;
      }))

unfoldable pub decode_kinematics : ℕ → List ℕ → Decoded CanRxMessage
decode_kinematics id xs = do
  require_dlc id xs 8
  ok (
      kinematics (record {
        sequence = byte xs 0;
        roll = get_u16 xs 1;
        roll_rate = get_u16 xs 3;
        fin_angle = byte xs 5;
        fin_rate = get_u16 xs 6;
      }))

unfoldable pub decode_control : ℕ → List ℕ → Decoded CanRxMessage
decode_control id xs = do
  require_dlc id xs 4
  require_reserved_zero id 2 (byte xs 2) 0xf0
  ok (
      control
        (record { sequence = byte xs 0; requested_torque = get_u16 xs 1; elapsed = byte xs 3 }))

-- `state == MissionState::Unknown`
abbrev is_unknown : MissionState → Bool
is_unknown MissionState.unknown = true
is_unknown _ = false

unfoldable pub decode_mission_status : ℕ → List ℕ → Decoded CanRxMessage
decode_mission_status id xs = do
  require_dlc id xs 8
  state ← decode_field id 1 (byte xs 1) decode
  if is_unknown state then err (invalid_field id 1 (byte xs 1)) else ok tt
  fin_mode ← decode_field id 5 (byte xs 5) decode
  para_mode ← decode_field id 6 (byte xs 6) decode
  ok (
      mission_status (record {
        sequence = byte xs 0;
        state = state;
        status = get_u16 xs 2;
        config = byte xs 4;
        fin_mode = fin_mode;
        para_mode = para_mode;
        para_angle = byte xs 7;
      }))

unfoldable pub decode_power_time : ℕ → List ℕ → Decoded CanRxMessage
decode_power_time id xs = do
  require_dlc id xs 8
  require_reserved_zero id 7 (byte xs 7) 0x70
  ok (
      power_time (record {
        sequence = byte xs 0;
        logic_voltage = byte xs 1;
        motor_voltage = byte xs 2;
        descent_elapsed = get_u16 xs 3;
        recovery_elapsed = get_u16 xs 5;
        flags = byte xs 7;
      }))

unfoldable pub decode_descent_core : ℕ → List ℕ → Decoded CanRxMessage
decode_descent_core id xs = do
  require_dlc id xs 4
  require_reserved_zero id 1 (byte xs 1) 0xe0
  require_reserved_zero id 2 (byte xs 2) 0xff
  ok (descent_core (record { sequence = byte xs 0; status = get_u16 xs 1; para_angle = byte xs 3 }))

unfoldable pub decode_recovery_status : ℕ → List ℕ → Decoded CanRxMessage
decode_recovery_status id xs = do
  require_dlc id xs 8
  opcode ← decode_field id 0 (byte xs 0) decode
  status ← decode_field id 2 (byte xs 2) decode
  source ← decode_field id 3 (byte xs 3) decode
  ok (
      recovery_status (record {
        opcode = opcode;
        transfer_id = byte xs 1;
        status = status;
        source = source;
        total_size = get_u32 xs 4;
      }))

unfoldable pub decode_recovery_log_data : ℕ → List ℕ → Decoded CanRxMessage
decode_recovery_log_data id xs = do
  require_dlc id xs 8
  ok (
      recovery_log_data
        (record { transfer_id = byte xs 0; sequence = byte xs 1; fragment = take 6 (drop 2 xs) }))

unfoldable pub decode_attitude_tilt : ℕ → List ℕ → Decoded CanRxMessage
decode_attitude_tilt id xs = do
  require_dlc id xs 3
  let packed = get_u16 xs 1
  ok (
      attitude_tilt (record {
        sequence = byte xs 0;
        magnitude = bit_and packed 0x7f;
        direction = packed / 128;
      }))

unfoldable pub decode_lps : ℕ → List ℕ → Decoded CanRxMessage
decode_lps id xs = do
  require_dlc id xs 4
  require_reserved_zero id 2 (byte xs 2) 0xf8
  ok (lps (record { sequence = byte xs 0; pressure = get_u16 xs 1; temperature = byte xs 3 }))

unfoldable pub decode_airspeed : ℕ → List ℕ → Decoded CanRxMessage
decode_airspeed id xs = do
  require_dlc id xs 2
  ok (airspeed (record { sequence = byte xs 0; airspeed = byte xs 1 }))

-- `==` on two Booleans
abbrev pub same : Bool → Bool → Bool
same true b = b
same false b = not b

-- A raw value stands for "out of range" exactly when its flag is set.
abbrev pub flag_agrees : ℕ → ℕ → ℕ → Bool
flag_agrees raw flags mask = same (raw == 0x800a) (not (bit_and flags mask == 0))

unfoldable pub decode_control_roll_v2 : ℕ → List ℕ → Decoded CanRxMessage
decode_control_roll_v2 id xs = do
  require_dlc id xs 8
  if byte xs 1 == 2 then ok tt else err (invalid_field id 1 (byte xs 1))
  require_reserved_zero id 6 (byte xs 6) 0xe0
  let reference_raw = get_u16 xs 2
  let deviation_raw = get_u16 xs 4
  let flags = byte xs 6
  if not (flag_agrees reference_raw flags 0x08) || not (flag_agrees deviation_raw flags 0x10)
      then err (invalid_field id 6 flags)
      else ok tt
  ok (
      control_roll_v2 (record {
        sequence = byte xs 0;
        control_roll_reference_unwrapped_raw = reference_raw;
        roll_deviation_unwrapped_raw = deviation_raw;
        flags = flags;
        reference_capture_event_sequence = byte xs 7;
      }))

unfoldable pub decode_standard : ℕ → List ℕ → Decoded CanRxMessage
decode_standard id xs =
    if id == 0x011
    then decode_command_result id xs
    else if id == 0x012
    then decode_time_request id xs
    else if id == 0x020
    then decode_mission_event id xs
    else if id == 0x100
    then decode_kinematics id xs
    else if id == 0x101
    then decode_control id xs
    else if id == 0x102
    then decode_mission_status id xs
    else if id == 0x103
    then decode_power_time id xs
    else if id == 0x104
    then decode_descent_core id xs
    else if id == 0x105
    then decode_recovery_status id xs
    else if id == 0x106
    then decode_recovery_log_data id xs
    else if id == 0x107
    then decode_attitude_tilt id xs
    else if id == 0x108
    then decode_lps id xs
    else if id == 0x109
    then decode_airspeed id xs
    else if id == 0x10a
    then decode_control_roll_v2 id xs
    else err (unknown_id id)
