-- ===== src/Can/Protocol/Reader.antt =====
-- How the mission board reads the frames that the communication board sends, written down
-- independently of `CanTxMessage::encode_payload` in can/protocol.rs, and the encoder against it.
use l_comboard.Base.{
  ℕ, ◌+◌, ◌*◌, ◌/◌, ◌%◌, ◌^◌, ◌<◌, ◌≡◌, ◌≢◌, refl, List, ◌∷◌, Option, some, none, ◌==◌,
  if◌then◌else◌, take, length, arith, replicate, take_all,
}
use l_comboard.Base.Bits.{bit_or_shift}
use l_comboard.Base.Checked.{◌>>=◌}
use l_comboard.Base.Result.{ok, err}
use l_comboard.Can.Protocol.WireEnum.{decode, to_u8}
use l_comboard.Can.Protocol.MissionEnums.{time_source_wire, time_source_decode-to_u8}
use l_comboard.Can.Protocol.RecoveryEnums.{
  RecoveryOpcode, recovery_opcode_wire, recovery_source_wire, recovery_opcode_to_u8,
  recovery_opcode_decode-to_u8, recovery_source_decode-to_u8,
}
use l_comboard.Can.Protocol.Messages.{
  CanTxMessage, actuator_emergency_stop, liftoff_emergency_stop, recovery_control,
  generic_command_request, time_response, CanEncodeError, reserved_transaction_id, out_of_range,
}
use l_comboard.Can.Protocol.Decode.{byte, get_u16, get_u32}
use l_comboard.Can.Protocol.Encode.{id, dlc, encode_payload}

abbrev get_u24 : List ℕ → ℕ → ℕ
get_u24 xs i = byte xs i + byte xs (i + 1) * 256 + byte xs (i + 2) * 65536

abbrev read_recovery : List ℕ → Option CanTxMessage
read_recovery xs = do
  opcode ← decode (byte xs 0 % 16)
  source ← decode (byte xs 0 / 16)
  some (
      recovery_control (record {
        opcode = opcode;
        source = source;
        transfer_id = byte xs 1;
        offset = get_u24 xs 2;
        length = get_u24 xs 5;
      }))

abbrev read_command : List ℕ → Option CanTxMessage
read_command (t ∷ c ∷ args) =
    some (generic_command_request (record { transaction_id = t; command = c; args = args }))
read_command _ = none

abbrev read_time : List ℕ → Option CanTxMessage
read_time xs = do
  source ← decode (byte xs 1)
  some (
      time_response (record {
        request_id = byte xs 0;
        source = source;
        unix_seconds = get_u32 xs 2;
        milliseconds = get_u16 xs 6;
      }))

pub read : ℕ → List ℕ → Option CanTxMessage
read n xs =
    if n == 0x001
    then some (actuator_emergency_stop (byte xs 0))
    else if n == 0x002
    then some (liftoff_emergency_stop (byte xs 0))
    else if n == 0x008
    then read_recovery xs
    else if n == 0x010
    then read_command xs
    else if n == 0x013
    then read_time xs
    else none

-- The integers of the message fit their Rust types, and `args` is an array of six.
abbrev pub Typed : CanTxMessage → Type 0
Typed (actuator_emergency_stop t) = t < 256
Typed (liftoff_emergency_stop t) = t < 256
Typed (recovery_control c) = (c.transfer_id < 256) × (c.offset < 2 ^ 32) × (c.length < 2 ^ 32)
Typed (generic_command_request r) = length r.args ≡ 6
Typed (time_response r) = (r.unix_seconds < 2 ^ 32) × (r.milliseconds < 2 ^ 16)

-- What can be sent.
abbrev pub Sendable : CanTxMessage → Type 0
Sendable (actuator_emergency_stop t) = t ≢ 0
Sendable (liftoff_emergency_stop t) = t ≢ 0
Sendable (recovery_control c) = (c.offset < 2 ^ 24) × (c.length < 2 ^ 24)
Sendable (generic_command_request r) = r.transaction_id ≢ 0
Sendable (time_response r) = r.milliseconds < 1000

opcode-lt : (o : RecoveryOpcode) → recovery_opcode_to_u8 o < 16
unfolding recovery_opcode_to_u8
opcode-lt o = ground arith

-- A message of well-typed fields that can be sent is encoded, and the bytes up to the returned length are read as that
-- message under its identifier.
pub encode_payload-read :
    (m : CanTxMessage)
    → Typed m
    → Sendable m
    → (n : ℕ) × ((encode_payload m).1 ≡ ok n)
      × (n ≡ dlc m)
      × (read (id m) (take n (encode_payload m).0) ≡ some m)
unfolding encode_payload read id
encode_payload-read (actuator_emergency_stop t) w s = (1, ground arith, refl, ground arith)
encode_payload-read (liftoff_emergency_stop t) w s = (1, ground arith, refl, ground arith)
encode_payload-read (recovery_control c) w s = (
  8,
  ground arith,
  refl,
  ground (
    arith,
    opcode-lt c.opcode,
    bit_or_shift 4 (to_u8 c.opcode) (to_u8 c.source),
    recovery_opcode_decode-to_u8 c.opcode,
    recovery_source_decode-to_u8 c.source,
  ),
)
encode_payload-read (generic_command_request r) w s =
    (8, ground arith, refl, ground (arith, take_all 6 r.args))
encode_payload-read (time_response r) w s =
    (8, ground arith, refl, ground (arith, time_source_decode-to_u8 r.source))

abbrev pub refusal : CanTxMessage → CanEncodeError
refusal (recovery_control c) = out_of_range
refusal (time_response r) = out_of_range
refusal _ = reserved_transaction_id

-- A message of well-typed fields that cannot be sent is refused, for a zero transaction or for a number out of range, and
-- leaves the payload zero.
pub encode_payload-refused :
    (m : CanTxMessage)
    → Typed m
    → ¬ Sendable m
    → encode_payload m ≡ (replicate 8 0, err (refusal m))
unfolding encode_payload
encode_payload-refused (actuator_emergency_stop t) w s = ground arith
encode_payload-refused (liftoff_emergency_stop t) w s = ground arith
encode_payload-refused (recovery_control c) w s = ground arith
encode_payload-refused (generic_command_request r) w s = ground arith
encode_payload-refused (time_response r) w s = ground arith
