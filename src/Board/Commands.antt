-- ===== src/Board/Commands.antt =====
-- tasks/lora_task.rs: `command_process_task`, which main.rs starts. The functions of the same names in
-- lora_task_base.rs are not used.
use l_comboard.Base.{
  ℕ, ◌+◌, ◌*◌, ◌^◌, List, [], ◌∷◌, Bool, true, false, not, ◌&&◌, ◌||◌, Option, none, some, ◌==◌,
  if◌then◌else◌, get_or,
}
use l_comboard.Can.Protocol.CommandEnums.{CommandPhase, CommandReason}
use l_comboard.Can.Protocol.RecoveryEnums.{RecoveryOpcode, RecoverySource}
use l_comboard.Can.Protocol.Messages.{
  CanTxMessage, CommandResult, GenericCommandRequest, recovery_control, generic_command_request,
  time_response,
}
use l_comboard.Can.Command.{
  RegisterResult, register, forward, duplicate_pending, replay, protocol_error, busy,
}
use l_comboard.Can.Recovery.{
  RecoverySession, PendingRecovery, start, active_source, interrupt_with_stop, abort, begin,
}
use l_comboard.Lora.Uplink.{
  UplinkCommand, generic, stop_actuator, stop_liftoff, local_command, ground_time,
}
use l_comboard.Board.Channel.{Channels}
use l_comboard.Board.Downlink.{packet_of, answer, queue_command_result}
use l_comboard.Board.State.{Board, turn_on, turn_off}

-- The commands of the board itself; the name of the record of the uplink is `LocalCommand` too.
pub data LocalAction : Type 0 where
  start_logging stop_logging gnss_on gnss_off wake dump_internal_flash dump_mission_sd stop_dump
        exit_recovery :
      LocalAction

-- The letters l, m, g, h, w, f, s, x and e.
unfoldable pub decode_action : ℕ → Option LocalAction
decode_action raw =
    if raw == 0x6c
    then some start_logging
    else if raw == 0x6d
    then some stop_logging
    else if raw == 0x67
    then some gnss_on
    else if raw == 0x68
    then some gnss_off
    else if raw == 0x77
    then some wake
    else if raw == 0x66
    then some dump_internal_flash
    else if raw == 0x73
    then some dump_mission_sd
    else if raw == 0x78
    then some stop_dump
    else if raw == 0x65
    then some exit_recovery
    else none

abbrev pub is_dump : LocalAction → Bool
is_dump dump_internal_flash = true
is_dump dump_mission_sd = true
is_dump _ = false

abbrev pub any_set : List ℕ → Bool
any_set [] = false
any_set (x ∷ xs) = not (x == 0) || any_set xs

-- `u32::from_le_bytes` of three bytes and a 0
abbrev u24 : List ℕ → ℕ → ℕ
u24 xs i = get_or xs i 0 + get_or xs (i + 1) 0 * 2 ^ 8 + get_or xs (i + 2) 0 * 2 ^ 16

-- The recovery request of an action that is one.
abbrev pub opcode_of : LocalAction → Option RecoveryOpcode
opcode_of wake = some RecoveryOpcode.wake
opcode_of dump_internal_flash = some RecoveryOpcode.start_log_dump
opcode_of dump_mission_sd = some RecoveryOpcode.start_log_dump
opcode_of stop_dump = some RecoveryOpcode.stop_log_dump
opcode_of exit_recovery = some RecoveryOpcode.exit_recovery
opcode_of _ = none

abbrev source_or_flash : Option RecoverySource → RecoverySource
source_or_flash none = RecoverySource.internal_flash
source_or_flash (some source) = source

abbrev pub source_of : LocalAction → RecoverySession → RecoverySource
source_of dump_mission_sd session = RecoverySource.mission_sd_latest_flight
source_of stop_dump session = source_or_flash (active_source session)
source_of _ session = RecoverySource.internal_flash

module _ ⦃ch : Channels⦄ where
  open ch use {send}

  abbrev queue_result : Board → ℕ → ℕ → CommandPhase → CommandReason → Board
  queue_result b transaction_id command phase reason = record b {
    downlink = queue_command_result b.downlink (answer transaction_id command phase reason);
  }

  abbrev transmit : Board → CanTxMessage → Board
  transmit b message = record b { can_tx = send b.can_tx message }

  -- What follows the registration of a request.
  unfoldable pub on_registered : Board → GenericCommandRequest → RegisterResult → Board
  on_registered b request forward = transmit b (generic_command_request request)
  on_registered b request duplicate_pending = b
  on_registered b request (replay result) = record b {
    downlink = queue_command_result b.downlink (packet_of result);
  }
  on_registered b request protocol_error =
      queue_result b request.transaction_id request.command CommandPhase.rejected
        CommandReason.protocol_error
  on_registered b request busy =
      queue_result b request.transaction_id request.command CommandPhase.rejected CommandReason.busy

  unfoldable pub process_generic : Board → GenericCommandRequest → Board
  unfolding on_registered
  process_generic b request =
      let (tracker, registered) = register b.tracker request in
      on_registered (record b { tracker = tracker }) request registered

  -- An interrupted request is answered.
  abbrev pub tell_interrupted : Board → Option CommandResult → Board
  tell_interrupted b none = b
  tell_interrupted b (some r) = queue_result b r.transaction_id r.command r.phase r.reason

  -- The session of a request, and whether the request is accepted; a stop interrupts what runs.
  unfoldable pub claim : Board → LocalAction → PendingRecovery → Board × Bool
  claim b stop_dump pending =
      let (session, interrupted) = interrupt_with_stop b.session pending in
      (tell_interrupted (record b { session = session }) interrupted, true)
  claim b action pending =
      let (session, started) = start b.session pending in (record b { session = session }, started)

  -- The assembler of a request: a stop aborts, a dump begins.
  unfoldable pub prepare : Board → LocalAction → ℕ → RecoverySource → List ℕ → Board
  prepare b stop_dump transaction_id source args = record b { assembler = (abort b.assembler).0 }
  prepare b dump_internal_flash transaction_id source args = record b {
    assembler = begin transaction_id source (u24 args 0) (u24 args 3);
  }
  prepare b dump_mission_sd transaction_id source args = record b {
    assembler = begin transaction_id source (u24 args 0) (u24 args 3);
  }
  prepare b _ transaction_id source args = b

  -- The end of a recovery request that is accepted.
  unfoldable pub request_recovery :
      Board → LocalAction → ℕ → ℕ → RecoveryOpcode → RecoverySource → List ℕ → Board
  unfolding prepare
  request_recovery b action transaction_id command opcode source args =
      let b1 : Board = transmit (prepare b action transaction_id source args) (
        recovery_control (record {
          opcode = opcode;
          source = source;
          transfer_id = transaction_id;
          offset = u24 args 0;
          length = u24 args 3;
        })) in
      queue_result b1 transaction_id command CommandPhase.accepted CommandReason.none_given

  unfoldable pub process_recovery : Board → LocalAction → RecoveryOpcode → ℕ → ℕ → List ℕ → Board
  unfolding claim request_recovery
  process_recovery b action opcode transaction_id command args =
      let source = source_of action b.session in
      let (b1, accepted) = claim b action (record {
        transaction_id = transaction_id;
        command = command;
        opcode = opcode;
        source = source;
      }) in
      if accepted
      then request_recovery b1 action transaction_id command opcode source args
      else queue_result b1 transaction_id command CommandPhase.rejected CommandReason.busy

  -- The actions that are no recovery request.
  unfoldable pub act : Board → LocalAction → Board
  act b start_logging = record b { shared = record b.shared { logging_requested = true } }
  act b stop_logging = record b {
    shared = record b.shared { logging_requested = false };
    flush_signal = true;
  }
  act b gnss_on = record b { gnss_commands = send b.gnss_commands turn_on }
  act b gnss_off = record b { gnss_commands = send b.gnss_commands turn_off }
  act b _ = b

  -- The recovery mode is left only while the beacon is active.
  abbrev pub is_out_of_place : Board → LocalAction → Bool
  is_out_of_place b exit_recovery = not b.shared.recovery_beacon_active
  is_out_of_place b _ = false

  -- A command that is decoded and whose arguments are admitted.
  unfoldable pub perform : Board → LocalAction → ℕ → ℕ → List ℕ → Board
  unfolding process_recovery act
  perform b action transaction_id command args =
      if is_out_of_place b action
      then queue_result b transaction_id command CommandPhase.rejected CommandReason.invalid_state
      else elim (opcode_of action) [
        | some opcode ↦ process_recovery b action opcode transaction_id command args
        | none ↦
            queue_result (act b action) transaction_id command CommandPhase.completed
              CommandReason.none_given
      ]

  unfoldable pub process_local : Board → ℕ → ℕ → List ℕ → Board
  unfolding perform
  process_local b transaction_id command args = elim (decode_action command) [
    | none ↦ queue_result b transaction_id command CommandPhase.rejected CommandReason.not_supported
    | some action ↦
        if not (is_dump action) && any_set args
        then queue_result b transaction_id command CommandPhase.rejected
            CommandReason.invalid_argument
        else perform b action transaction_id command args
  ]

  -- A round of `command_process_task`, for the command received.
  unfoldable pub command_process : Board → UplinkCommand → Board
  command_process b (generic request) = process_generic b request
  command_process b (stop_actuator transaction_id) = b
  command_process b (stop_liftoff transaction_id) = b
  command_process b (local_command v) = process_local b v.transaction_id v.command v.args
  command_process b (ground_time v) = transmit b (
      time_response (record {
        request_id = v.request_id;
        source = v.source;
        unix_seconds = v.unix_seconds;
        milliseconds = v.milliseconds;
      }))
