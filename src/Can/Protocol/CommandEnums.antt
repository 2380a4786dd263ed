-- ===== src/Can/Protocol/CommandEnums.antt =====
-- can/protocol.rs: the phase and the reason of a command's result. `CommandReason::None` is `none_given`.
use l_comboard.Base.{
  ℕ, ◌≡◌, refl, Bool, true, false, Option, none, some, arith, ◌==◌, if◌then◌else◌,
}
use l_comboard.Can.Protocol.WireEnum.{WireEnum}

pub data CommandPhase : Type 0 where
  accepted completed rejected failed : CommandPhase

unfoldable pub command_phase_to_u8 : CommandPhase → ℕ
command_phase_to_u8 CommandPhase.accepted = 0
command_phase_to_u8 CommandPhase.completed = 1
command_phase_to_u8 CommandPhase.rejected = 2
command_phase_to_u8 CommandPhase.failed = 3

unfoldable pub decode_command_phase : ℕ → Option CommandPhase
decode_command_phase raw =
    if raw == 0
    then some CommandPhase.accepted
    else if raw == 1
    then some CommandPhase.completed
    else if raw == 2
    then some CommandPhase.rejected
    else if raw == 3
    then some CommandPhase.failed
    else none

pub command_phase_decode-to_u8 :
    (a : CommandPhase) → decode_command_phase (command_phase_to_u8 a) ≡ some a
unfolding command_phase_to_u8 decode_command_phase
command_phase_decode-to_u8 CommandPhase.accepted = refl
command_phase_decode-to_u8 CommandPhase.completed = refl
command_phase_decode-to_u8 CommandPhase.rejected = refl
command_phase_decode-to_u8 CommandPhase.failed = refl

pub command_phase_to_u8_of_decode :
    (raw : ℕ) (a : CommandPhase) → decode_command_phase raw ≡ some a → command_phase_to_u8 a ≡ raw
unfolding command_phase_to_u8 decode_command_phase
command_phase_to_u8_of_decode raw a h = ground arith

instance abbrev pub command_phase_wire : WireEnum CommandPhase
command_phase_wire = record {
  to_u8 = command_phase_to_u8;
  decode = decode_command_phase;
  decode-to_u8 = command_phase_decode-to_u8;
  to_u8_of_decode = command_phase_to_u8_of_decode;
}

pub data CommandReason : Type 0 where
  none_given busy invalid_state invalid_argument not_configured device_unavailable timeout stall
        protocol_error interrupted_by_emergency persistence_error internal_error not_supported
        safety_interlock already_satisfied :
      CommandReason

unfoldable pub command_reason_to_u8 : CommandReason → ℕ
command_reason_to_u8 CommandReason.none_given = 0
command_reason_to_u8 CommandReason.busy = 1
command_reason_to_u8 CommandReason.invalid_state = 2
command_reason_to_u8 CommandReason.invalid_argument = 3
command_reason_to_u8 CommandReason.not_configured = 4
command_reason_to_u8 CommandReason.device_unavailable = 5
command_reason_to_u8 CommandReason.timeout = 6
command_reason_to_u8 CommandReason.stall = 7
command_reason_to_u8 CommandReason.protocol_error = 8
command_reason_to_u8 CommandReason.interrupted_by_emergency = 9
command_reason_to_u8 CommandReason.persistence_error = 10
command_reason_to_u8 CommandReason.internal_error = 11
command_reason_to_u8 CommandReason.not_supported = 12
command_reason_to_u8 CommandReason.safety_interlock = 13
command_reason_to_u8 CommandReason.already_satisfied = 14

unfoldable pub decode_command_reason : ℕ → Option CommandReason
decode_command_reason raw =
    if raw == 0
    then some CommandReason.none_given
    else if raw == 1
    then some CommandReason.busy
    else if raw == 2
    then some CommandReason.invalid_state
    else if raw == 3
    then some CommandReason.invalid_argument
    else if raw == 4
    then some CommandReason.not_configured
    else if raw == 5
    then some CommandReason.device_unavailable
    else if raw == 6
    then some CommandReason.timeout
    else if raw == 7
    then some CommandReason.stall
    else if raw == 8
    then some CommandReason.protocol_error
    else if raw == 9
    then some CommandReason.interrupted_by_emergency
    else if raw == 10
    then some CommandReason.persistence_error
    else if raw == 11
    then some CommandReason.internal_error
    else if raw == 12
    then some CommandReason.not_supported
    else if raw == 13
    then some CommandReason.safety_interlock
    else if raw == 14
    then some CommandReason.already_satisfied
    else none

pub command_reason_decode-to_u8 :
    (a : CommandReason) → decode_command_reason (command_reason_to_u8 a) ≡ some a
unfolding command_reason_to_u8 decode_command_reason
command_reason_decode-to_u8 CommandReason.none_given = refl
command_reason_decode-to_u8 CommandReason.busy = refl
command_reason_decode-to_u8 CommandReason.invalid_state = refl
command_reason_decode-to_u8 CommandReason.invalid_argument = refl
command_reason_decode-to_u8 CommandReason.not_configured = refl
command_reason_decode-to_u8 CommandReason.device_unavailable = refl
command_reason_decode-to_u8 CommandReason.timeout = refl
command_reason_decode-to_u8 CommandReason.stall = refl
command_reason_decode-to_u8 CommandReason.protocol_error = refl
command_reason_decode-to_u8 CommandReason.interrupted_by_emergency = refl
command_reason_decode-to_u8 CommandReason.persistence_error = refl
command_reason_decode-to_u8 CommandReason.internal_error = refl
command_reason_decode-to_u8 CommandReason.not_supported = refl
command_reason_decode-to_u8 CommandReason.safety_interlock = refl
command_reason_decode-to_u8 CommandReason.already_satisfied = refl

pub command_reason_to_u8_of_decode :
    (raw : ℕ) (a : CommandReason)
    → decode_command_reason raw ≡ some a
    → command_reason_to_u8 a ≡ raw
unfolding command_reason_to_u8 decode_command_reason
command_reason_to_u8_of_decode raw a h = ground arith

instance abbrev pub command_reason_wire : WireEnum CommandReason
command_reason_wire = record {
  to_u8 = command_reason_to_u8;
  decode = decode_command_reason;
  decode-to_u8 = command_reason_decode-to_u8;
  to_u8_of_decode = command_reason_to_u8_of_decode;
}

-- Every phase but `accepted` ends a command.
abbrev pub is_final : CommandPhase → Bool
is_final CommandPhase.accepted = false
is_final _ = true
