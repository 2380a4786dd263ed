-- ===== src/Board/Transfer.antt =====
-- tasks/can_communication.rs: the transfer of a log: its statuses, its fragments, and how it is stopped.
use l_comboard.Base.{ℕ, Bool, true, false, not, ◌&&◌, Option, none, some, ◌==◌, if◌then◌else◌}
use l_comboard.Base.Result.{Result, ok, err}
use l_comboard.Can.Protocol.CommandEnums.{CommandPhase, CommandReason}
use l_comboard.Can.Protocol.RecoveryEnums.{RecoveryOpcode, RecoveryStatusCode}
use l_comboard.Can.Protocol.Messages.{
  CanTxMessage, CommandResult, RecoveryStatus, RecoveryLogData, recovery_control,
}
use l_comboard.Can.Recovery.{
  RecoveryChunk, RecoveryResume, RecoveryAssemblyError, set_total_size, finish, push, abort, fail,
  apply_status,
}
use l_comboard.Board.Channel.{Channels}
use l_comboard.Board.Downlink.{
  packet_of, queue_command_result, queue_optional, queue_recovery_chunk,
}
use l_comboard.Board.State.{Board}

-- `phase == Completed`, `reason == None` and `status == Complete`
abbrev is_completed : CommandPhase → Bool
is_completed CommandPhase.completed = true
is_completed _ = false

abbrev is_without_reason : CommandReason → Bool
is_without_reason CommandReason.none_given = true
is_without_reason _ = false

abbrev pub is_complete : RecoveryStatusCode → Bool
is_complete RecoveryStatusCode.complete = true
is_complete _ = false

-- LOCAL_EXIT_RECOVERY_COMMAND is the letter e.
abbrev pub has_exited : CommandResult → Bool
has_exited result =
    result.command == 0x65 && (is_completed result.phase && is_without_reason result.reason)

module _ ⦃ch : Channels⦄ where
  open ch use {try_send}

  abbrev pub raise_roll : Board → Board
  raise_roll b = record b { downlink = record b.downlink { roll_signal = true } }

  -- `let _ = CAN_SAFETY_TX_CHANNEL.try_send(…)`
  abbrev pub keep_safety : Board → Option (ch.Channel CanTxMessage) → Board
  keep_safety b none = b
  keep_safety b (some q) = record b { can_safety_tx = q }

  -- The request to stop the log, where the assembler knew a transfer.
  unfoldable pub request_stop : Board → Option RecoveryResume → Board
  request_stop b none = b
  request_stop b (some resume) = keep_safety b (
      try_send b.can_safety_tx (
        recovery_control (record {
          opcode = RecoveryOpcode.stop_log_dump;
          source = resume.source;
          transfer_id = resume.transfer_id;
          offset = resume.offset;
          length = 0;
        })))

  abbrev offset_or_0 : Option RecoveryResume → ℕ
  offset_or_0 none = 0
  offset_or_0 (some resume) = resume.offset

  unfoldable pub fail_recovery_transfer : Board → CommandReason → Bool → Board
  unfolding request_stop
  fail_recovery_transfer b reason stop_mission =
      let (assembler, resume) = abort b.assembler in
      let b1 : Board = record b { assembler = assembler } in
      let b2 : Board = if stop_mission then request_stop b1 resume else b1 in
      let (session, result) = fail b2.session reason (offset_or_0 resume) in
      record b2 { session = session; downlink = queue_optional b2.downlink result }

  -- The end of the arm for a recovery status: the session is told.
  unfoldable pub settle_session : Board → RecoveryStatus → Board
  settle_session b status =
      let (session, answer) = apply_status b.session status in
      let b1 : Board = record b { session = session } in
      elim answer [
        | none ↦ b1
        | some result ↦
            let b2 : Board =
              if has_exited result
              then raise_roll
                  (record b1 { shared = record b1.shared { recovery_beacon_active = false } })
              else b1 in
            record b2 { downlink = queue_command_result b2.downlink (packet_of result) }
      ]

  -- The last chunk of a complete transfer, and whether it could not be queued.
  unfoldable pub queue_final : Board → RecoveryStatus → Board × Bool
  queue_final b status =
      if is_complete status.status
      then (let (assembler, chunk) = finish b.assembler status.transfer_id in
          let b1 : Board = record b { assembler = assembler } in
          elim chunk [
            | none ↦ (b1, false)
            | some c ↦
                let (downlink, sent) = queue_recovery_chunk b1.downlink c in
                (record b1 { downlink = downlink }, not sent)
          ])
      else (b, false)

  unfoldable pub on_recovery_status : Board → RecoveryStatus → Board
  unfolding settle_session queue_final
  on_recovery_status b status =
      let b1 : Board = record b {
        assembler = set_total_size b.assembler status.transfer_id status.total_size;
      } in
      let (b2, lost) = queue_final b1 status in
      if lost
      then fail_recovery_transfer b2 CommandReason.internal_error true
      else settle_session b2 status

  -- What follows the assembly of a fragment.
  unfoldable pub on_assembly : Board → Result RecoveryAssemblyError (Option RecoveryChunk) → Board
  on_assembly b (err e) = fail_recovery_transfer b CommandReason.protocol_error true
  on_assembly b (ok none) = b
  on_assembly b (ok (some chunk)) =
      let (downlink, sent) = queue_recovery_chunk b.downlink chunk in
      let b1 : Board = record b { downlink = downlink } in
      if sent then b1 else fail_recovery_transfer b1 CommandReason.internal_error true

  unfoldable pub on_log_data : Board → RecoveryLogData → Board
  unfolding on_assembly
  on_log_data b fragment =
      let (assembler, assembly) = push b.assembler fragment in
      on_assembly (record b { assembler = assembler }) assembly
