-- ===== src/Lora/Uplink.antt =====
-- lora_uplink.rs: the uplink frames of 11 bytes and the buffer that finds them in the received bytes.
pub mod Wire
pub mod Codec
pub mod Buffer
pub mod Delivery
mod Tests
use l_comboard.Base.{
  ℕ, zero, suc, ◌+◌, ◌-◌, ◌*◌, List, [], ◌∷◌, ◌++◌, Bool, true, false, not, ◌||◌, Option, none,
  some, ◌==◌, ltb, if◌then◌else◌, take, drop, set, replicate, get_or,
}
use mathlib.Core.Option
use l_comboard.Base.Result.{Result, ok, err, ◌>>=◌, ◌>>◌, ok_or, refuse}
use l_comboard.Can.Protocol.WireEnum.{decode}
use l_comboard.Can.Protocol.MissionEnums.{TimeSource, time_source_wire}
use l_comboard.Can.Protocol.Messages.{GenericCommandRequest}
use l_comboard.Can.Protocol.Decode.{byte, get_u16, get_u32}
use l_comboard.Lora.Checksum.{xor_checksum}

pub data UplinkKind : Type 0 where
  mission_generic actuator_emergency liftoff_detection_emergency com_board_local
        ground_time_response :
      UplinkKind

pub decode_kind : ℕ → Option UplinkKind
decode_kind raw =
    if raw == 0
    then some mission_generic
    else if raw == 1
    then some actuator_emergency
    else if raw == 2
    then some liftoff_detection_emergency
    else if raw == 3
    then some com_board_local
    else if raw == 4
    then some ground_time_response
    else none

pub record LocalCommand : Type 0 where
  pub transaction_id : ℕ
  pub command : ℕ
  pub args : List ℕ

pub record GroundTime : Type 0 where
  pub request_id : ℕ
  pub source : TimeSource
  pub unix_seconds : ℕ
  pub milliseconds : ℕ

pub data UplinkCommand : Type 0 where
  generic : GenericCommandRequest → UplinkCommand
  stop_actuator : (transaction_id : ℕ) → UplinkCommand
  stop_liftoff : (transaction_id : ℕ) → UplinkCommand
  local_command : LocalCommand → UplinkCommand
  ground_time : GroundTime → UplinkCommand

pub data UplinkDecodeError : Type 0 where
  invalid_header invalid_checksum invalid_kind reserved_transaction_id invalid_field :
      UplinkDecodeError

pub is_deprecated_parachute_command : ℕ → Bool
is_deprecated_parachute_command command =
    command == 0x20
    || (command == 0x21 || (command == 0x22 || (command == 0x23 || command == 0x24)))

-- `bytes.iter().any(|byte| *byte != 0)`
abbrev pub any_nonzero : List ℕ → Bool
any_nonzero [] = false
any_nonzero (x ∷ xs) = not (x == 0) || any_nonzero xs

-- The arms of `decode_uplink` for each kind, on the bytes of a frame.
pub decode_generic : List ℕ → Result UplinkDecodeError UplinkCommand
unfolding is_deprecated_parachute_command
decode_generic bytes = do
  refuse (is_deprecated_parachute_command (byte bytes 3)) invalid_field
  ok (
      generic (record {
        transaction_id = byte bytes 2;
        command = byte bytes 3;
        args = take 6 (drop 4 bytes);
      }))

pub decode_ground_time : List ℕ → Result UplinkDecodeError UplinkCommand
decode_ground_time bytes = do
  source ← ok_or (decode (byte bytes 3)) invalid_field
  let milliseconds = get_u16 bytes 8
  refuse (ltb 999 milliseconds) invalid_field
  ok (
      ground_time (record {
        request_id = byte bytes 2;
        source = source;
        unix_seconds = get_u32 bytes 4;
        milliseconds = milliseconds;
      }))

pub decode_as : UplinkKind → List ℕ → Result UplinkDecodeError UplinkCommand
unfolding decode_generic decode_ground_time
decode_as mission_generic bytes = decode_generic bytes
decode_as actuator_emergency bytes = do
  refuse (any_nonzero (take 7 (drop 3 bytes))) invalid_field
  ok (stop_actuator (byte bytes 2))
decode_as liftoff_detection_emergency bytes = do
  refuse (any_nonzero (take 7 (drop 3 bytes))) invalid_field
  ok (stop_liftoff (byte bytes 2))
decode_as com_board_local bytes = ok (
    local_command (record {
      transaction_id = byte bytes 2;
      command = byte bytes 3;
      args = take 6 (drop 4 bytes);
    }))
decode_as ground_time_response bytes = decode_ground_time bytes

pub decode_uplink : List ℕ → Result UplinkDecodeError UplinkCommand
unfolding decode_kind decode_as
decode_uplink bytes = do
  refuse (not (byte bytes 0 == 0x55)) invalid_header
  refuse (not (xor_checksum (take 10 bytes) == byte bytes 10)) invalid_checksum
  kind ← ok_or (decode_kind (byte bytes 1)) invalid_kind
  refuse (byte bytes 2 == 0) reserved_transaction_id
  decode_as kind bytes

pub record UplinkFrameBuffer : Type 0 where
  pub bytes : List ℕ
  pub length : ℕ

unfoldable pub new : UplinkFrameBuffer
new = record { bytes = replicate 11 0; length = 0 }

-- `position(|value| *value == UPLINK_HEADER)`
abbrev pub header_position : List ℕ → Option ℕ
header_position [] = none
header_position (x ∷ xs) =
    if x == 0x55 then some 0 else Option.map (λ i. suc i) (header_position xs)

-- What is kept of a full buffer that was refused: the bytes from the next header on, moved to the
-- front.
pub resynchronize : UplinkFrameBuffer → UplinkFrameBuffer
resynchronize b = elim (header_position (drop 1 b.bytes)) [
  | some i ↦
      let next_header = i + 1 in
      record {
        bytes = drop next_header b.bytes ++ drop (11 - next_header) b.bytes;
        length = 11 - next_header;
      }
  | none ↦ record b { length = 0 }
]

pub complete :
    UplinkFrameBuffer
    → Result UplinkDecodeError UplinkCommand
    → UplinkFrameBuffer × Option (Result UplinkDecodeError UplinkCommand)
unfolding resynchronize
complete b (ok c) = (record b { length = 0 }, some (ok c))
complete b (err e) = (resynchronize b, some (err e))

unfoldable pub push :
    UplinkFrameBuffer → ℕ → UplinkFrameBuffer × Option (Result UplinkDecodeError UplinkCommand)
unfolding complete
push b x =
    if b.length == 0
    then if x == 0x55 then (record { bytes = set b.bytes 0 x; length = 1 }, none) else (b, none)
    else let b' : UplinkFrameBuffer = record {
      bytes = set b.bytes b.length x;
      length = b.length + 1;
    } in
      if b'.length == 11 then complete b' (decode_uplink b'.bytes) else (b', none)

pub reset : UplinkFrameBuffer → UplinkFrameBuffer
reset b = record b { length = 0 }
