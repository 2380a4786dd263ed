-- ===== src/Can/Protocol/Encode.antt =====
-- can/protocol.rs: `CanTxMessage::id`, `dlc` and `encode_payload`, and the results that stand for a
-- failed emergency stop. `encode_payload` returns the eight bytes of `out` beside its result.
use Prim.Native.Nat.{bit_or}
use l_comboard.Base.{
  ℕ, ◌*◌, ◌/◌, ◌%◌, List, [], ◌∷◌, ◌++◌, Bool, not, ◌&&◌, ◌||◌, Option, some, none, ◌==◌, ltb,
  if◌then◌else◌, replicate,
}
use l_comboard.Base.Result.{Result, ok, err, ◌>>◌}
use l_comboard.Can.Protocol.WireEnum.{to_u8}
use l_comboard.Can.Protocol.MissionEnums.{time_source_wire}
use l_comboard.Can.Protocol.CommandEnums.{CommandPhase, CommandReason}
use l_comboard.Can.Protocol.RecoveryEnums.{recovery_opcode_wire, recovery_source_wire}
use l_comboard.Can.Protocol.Messages.{
  CanTxMessage, actuator_emergency_stop, liftoff_emergency_stop, recovery_control,
  generic_command_request, time_response, CommandResult, CanEncodeError, reserved_transaction_id,
  out_of_range,
}

unfoldable pub id : CanTxMessage → ℕ
id (actuator_emergency_stop t) = 0x001
id (liftoff_emergency_stop t) = 0x002
id (recovery_control c) = 0x008
id (generic_command_request r) = 0x010
id (time_response r) = 0x013

pub dlc : CanTxMessage → ℕ
dlc (actuator_emergency_stop t) = 1
dlc (liftoff_emergency_stop t) = 1
dlc (recovery_control c) = 8
dlc (generic_command_request r) = 8
dlc (time_response r) = 8

pub require_transaction_id : ℕ → Result CanEncodeError (Unit {0})
require_transaction_id t = if t == 0 then err reserved_transaction_id else ok tt

-- The three low bytes that `put_u24_le` copies.
abbrev put_u24_le : ℕ → List ℕ
put_u24_le x = x % 256 ∷ x / 256 % 256 ∷ x / 65536 % 256 ∷ []

abbrev u16_to_le_bytes : ℕ → List ℕ
u16_to_le_bytes x = x % 256 ∷ x / 256 % 256 ∷ []

abbrev u32_to_le_bytes : ℕ → List ℕ
u32_to_le_bytes x = x % 256 ∷ x / 256 % 256 ∷ x / 65536 % 256 ∷ x / 16777216 % 256 ∷ []

-- What `encode_payload` writes after `out.fill(0)`, or why it stops before it writes.
pub payload : CanTxMessage → Result CanEncodeError (List ℕ)
unfolding require_transaction_id
payload (actuator_emergency_stop t) = do require_transaction_id t; ok (t ∷ replicate 7 0)
payload (liftoff_emergency_stop t) = do require_transaction_id t; ok (t ∷ replicate 7 0)
payload (recovery_control c) = do
  if ltb 0x00ffffff c.offset || ltb 0x00ffffff c.length then err out_of_range else ok tt
  ok (
      bit_or (to_u8 c.opcode) (to_u8 c.source * 16) ∷ c.transfer_id ∷ put_u24_le c.offset
      ++ put_u24_le c.length)
payload (generic_command_request r) = do
  require_transaction_id r.transaction_id
  ok (r.transaction_id ∷ r.command ∷ r.args)
payload (time_response r) = do
  if ltb 999 r.milliseconds then err out_of_range else ok tt
  ok (
      r.request_id ∷ to_u8 r.source ∷ u32_to_le_bytes r.unix_seconds
      ++ u16_to_le_bytes r.milliseconds)

unfoldable pub encode_payload : CanTxMessage → List ℕ × Result CanEncodeError ℕ
unfolding payload dlc
encode_payload m = elim (payload m) [ ok out ↦ (out, ok (dlc m)) | err e ↦ (replicate 8 0, err e) ]

unfoldable pub is_emergency_result_command : ℕ → Bool
is_emergency_result_command command = command == 0xF0 || command == 0xF1

unfoldable pub prioritize_untracked_emergency_result : Bool → ℕ → Bool
unfolding is_emergency_result_command
prioritize_untracked_emergency_result matched command =
    not matched && is_emergency_result_command command

abbrev timed_out : ℕ → ℕ → CommandResult
timed_out transaction_id command = record {
  transaction_id = transaction_id;
  command = command;
  phase = CommandPhase.failed;
  reason = CommandReason.timeout;
  detail = 0;
}

unfoldable pub emergency_failure_result : CanTxMessage → Option CommandResult
emergency_failure_result (actuator_emergency_stop t) = some (timed_out t 0xF0)
emergency_failure_result (liftoff_emergency_stop t) = some (timed_out t 0xF1)
emergency_failure_result _ = none
