-- ===== src/Board/Invariant/Received.antt =====
-- tasks/can_communication.rs: a received frame keeps the shared state well formed.
use l_comboard.Base.{
  ℕ, ◌≡◌, refl, Bool, true, false, not, ◌||◌, Option, none, some, List, length, get_or, ltb, ◌==◌,
  AreBytes, Bool-cases, Option-cases, inl, inr,
}
use l_comboard.Base.Result.{Result, ok, err}
use l_comboard.Can.Protocol.CommandEnums.{CommandReason}
use l_comboard.Can.Protocol.Messages.{
  CanRxMessage, CanTxMessage, CanDecodeError, CommandResult, RecoveryStatus,
}
use l_comboard.Can.Protocol.Wire.{IsWire}
use l_comboard.Can.Protocol.Decode.{decode_standard}
use l_comboard.Can.Protocol.Complete.{decode_standard-Carries}
use l_comboard.Can.Protocol.Encode.{prioritize_untracked_emergency_result}
use l_comboard.Can.Cache.{
  CacheUpdate, telemetry, got_command_result, got_time_request, got_mission_event,
  duplicate_mission_event, got_recovery_status, got_recovery_log_data, update,
}
use l_comboard.Can.Cache.Held.{
  wire-IsCache, FragmentFits, update-FragmentFits, clear_recovery_power_snapshot-IsCache,
}
use l_comboard.Can.Command.{apply_result}
use l_comboard.Can.Recovery.{
  RecoveryResume, RecoveryChunk, RecoveryAssemblyError, abort, apply_status, finish, push,
}
use l_comboard.Can.Recovery.Push.{push-IsBuffer}
use l_comboard.Board.Channel.{Channels}
use l_comboard.Board.State.{Board, RawCanRecord}
use l_comboard.Board.Stats.{decode_device_health}
use l_comboard.Board.Downlink.{queue_recovery_chunk}
use l_comboard.Board.Received.{
  signal_control_roll, on_command_result, apply_update, apply_received_message,
  handle_recovery_mode_command, keep_raw, log_raw, on_recovery_mode, on_beacon, on_device_health,
  on_decoded, on_standard, handle_received_frame,
}
use l_comboard.Board.Transfer.{
  has_exited, is_complete, fail_recovery_transfer, keep_safety, request_stop, settle_session,
  queue_final, on_recovery_status, on_assembly, on_log_data,
}
use l_comboard.Board.Invariant.{
  IsBoard, apply_result-IsValid, set_total_size-IsBuffer, abort-IsBuffer, finish-IsBuffer,
  if_IsBoard, option_IsBoard,
}

module _ ⦃ch : Channels⦄ where
  kept-IsBoard :
      (b : Board) (o : Option (ch.Channel CanTxMessage)) → IsBoard b → IsBoard (keep_safety b o)
  kept-IsBoard b none h = h
  kept-IsBoard b (some q) h = h

  request_stop-IsBoard :
      (b : Board) (r : Option RecoveryResume) → IsBoard b → IsBoard (request_stop b r)
  unfolding request_stop
  request_stop-IsBoard b none h = h
  request_stop-IsBoard b (some r) h = kept-IsBoard b (ch.try_send b.can_safety_tx _) h

  fail_recovery_transfer-IsBoard :
      (b : Board) (r : CommandReason) (stop : Bool)
      → IsBoard b
      → IsBoard (fail_recovery_transfer b r stop)
  unfolding fail_recovery_transfer
  fail_recovery_transfer-IsBoard b r stop (c, t, a, s) =
      let b1 : Board = record b { assembler = (abort b.assembler).0 } in
      let h : IsBoard b1 = (c, t, abort-IsBuffer b.assembler, s) in
      if_IsBoard stop _ _ (request_stop-IsBoard b1 (abort b.assembler).1 h) h

  on_command_result-IsBoard :
      (b : Board) (r : CommandResult) → IsBoard b → IsBoard (on_command_result b r)
  unfolding on_command_result
  on_command_result-IsBoard b r (c, t, a, s) =
      let h = apply_result-IsValid b.tracker r t in
      if_IsBoard (prioritize_untracked_emergency_result (apply_result b.tracker r).1 r.command) _ _
        (c, h, a, s) (c, h, a, s)

  settle_session-IsBoard :
      (b : Board) (s : RecoveryStatus) → IsBoard b → IsBoard (settle_session b s)
  unfolding settle_session
  settle_session-IsBoard b status (c, t, a, s) =
      option_IsBoard (apply_status b.session status).1 _ _ (c, t, a, s)
        λ result.
          if_IsBoard (has_exited result) _ _
            (c, t, a, record { health = s.health; sequence = s.sequence }) (c, t, a, s)

  queue_final-IsBoard : (b : Board) (s : RecoveryStatus) → IsBoard b → IsBoard (queue_final b s).0
  unfolding queue_final
  queue_final-IsBoard b status (c, t, a, s) = elim (Bool-cases (is_complete status.status)) [
    | inr e ↦ rw (e, queue_final) (c, t, a, s)
    | inl e ↦ elim (Option-cases (finish b.assembler status.transfer_id).1) [
      | inl n ↦ rw (e, n, queue_final) (c, t, finish-IsBuffer b.assembler status.transfer_id a, s)
      | inr (k, n) ↦
          rw (e, n, queue_final) (c, t, finish-IsBuffer b.assembler status.transfer_id a, s)
    ]
  ]

  on_recovery_status-IsBoard :
      (b : Board) (s : RecoveryStatus) → IsBoard b → IsBoard (on_recovery_status b s)
  unfolding on_recovery_status
  on_recovery_status-IsBoard b status (c, t, a, s) =
      let h =
        queue_final-IsBoard _ status
          (c, t, set_total_size-IsBuffer b.assembler status.transfer_id status.total_size a, s) in
      if_IsBoard _ _ _ (fail_recovery_transfer-IsBoard _ CommandReason.internal_error true h)
        (settle_session-IsBoard _ status h)

  on_assembly-IsBoard :
      (b : Board) (r : Result RecoveryAssemblyError (Option RecoveryChunk))
      → IsBoard b
      → IsBoard (on_assembly b r)
  unfolding on_assembly
  on_assembly-IsBoard b (err e) h =
      fail_recovery_transfer-IsBoard b CommandReason.protocol_error true h
  on_assembly-IsBoard b (ok none) h = h
  on_assembly-IsBoard b (ok (some chunk)) h =
      if_IsBoard (queue_recovery_chunk b.downlink chunk).1 _ _ h
        (fail_recovery_transfer-IsBoard _ CommandReason.internal_error true h)

  apply_update-IsBoard :
      (b : Board) (u : CacheUpdate) (previous : Option ℕ)
      → FragmentFits u
      → IsBoard b
      → IsBoard (apply_update b u previous).0
  unfolding apply_update on_log_data
  apply_update-IsBoard b (got_command_result r) p f h = on_command_result-IsBoard b r h
  apply_update-IsBoard b (got_time_request id) p f h = h
  apply_update-IsBoard b (got_mission_event e n) p f h = h
  apply_update-IsBoard b duplicate_mission_event p f h = h
  apply_update-IsBoard b (got_recovery_status s) p f h = on_recovery_status-IsBoard b s h
  apply_update-IsBoard b (got_recovery_log_data v) p f (c, t, a, s) =
      on_assembly-IsBoard _ (push b.assembler v).1 (c, t, push-IsBuffer b.assembler v a f, s)
  apply_update-IsBoard b telemetry p f h = h

  apply_received_message-IsBoard :
      (b : Board) (m : CanRxMessage) (at : ℕ) (previous : Option ℕ)
      → IsWire m
      → IsBoard b
      → IsBoard (apply_received_message b m at previous).0
  unfolding apply_received_message
  apply_received_message-IsBoard b m at p w (c, t, a, s) =
      let b1 : Board = record b { cache = (update b.cache m at).0 } in
      let h : IsBoard b1 = (wire-IsCache b.cache m at c w, t, a, s) in
      apply_update-IsBoard _ (update b.cache m at).1 p (update-FragmentFits b.cache m at w)
        (if_IsBoard (signal_control_roll b.cache m) _ _ h h)

  raw-IsBoard :
      (b : Board) (o : Option (ch.Channel RawCanRecord)) → IsBoard b → IsBoard (keep_raw b o)
  raw-IsBoard b none h = h
  raw-IsBoard b (some q) h = h

  log_raw-IsBoard :
      (b : Board) (id : ℕ) (xs : List ℕ) (at : ℕ) → IsBoard b → IsBoard (log_raw b id xs at)
  unfolding log_raw
  log_raw-IsBoard b id xs at h = raw-IsBoard b (ch.try_send b.raw_can_log _) h

  on_device_health-IsBoard : (b : Board) (xs : List ℕ) → IsBoard b → IsBoard (on_device_health b xs)
  unfolding on_device_health
  on_device_health-IsBoard b xs h = option_IsBoard (decode_device_health xs) _ _ h (λ v. h)

  on_beacon-IsBoard : (b : Board) (o : Option Bool) → IsBoard b → IsBoard (on_beacon b o)
  unfolding on_beacon
  on_beacon-IsBoard b none h = h
  on_beacon-IsBoard b (some false) h = h
  on_beacon-IsBoard b (some true) (c, t, f, s) =
      (clear_recovery_power_snapshot-IsCache b.cache c, t, f, s)

  beacon-IsBoard :
      (b : Board) (xs : List ℕ) → IsBoard b → IsBoard (handle_recovery_mode_command b xs).0
  unfolding handle_recovery_mode_command
  beacon-IsBoard b xs (c, t, a, s) =
      elim (Bool-cases
        (not (length xs == 3) || (not (get_or xs 1 0 == 1) || ltb 3 (get_or xs 2 0)))) [
          | inl e ↦ rw e (c, t, a, s)
          | inr e ↦ rw e (c, t, a, record { health = s.health; sequence = s.sequence })
        ]

  on_recovery_mode-IsBoard : (b : Board) (xs : List ℕ) → IsBoard b → IsBoard (on_recovery_mode b xs)
  unfolding on_recovery_mode
  on_recovery_mode-IsBoard b xs h =
      on_beacon-IsBoard _ (handle_recovery_mode_command b xs).1 (beacon-IsBoard b xs h)

  on_decoded-IsBoard :
      (b : Board) (id : ℕ) (xs : List ℕ) (at : ℕ) (previous : Option ℕ)
      (r : Result CanDecodeError CanRxMessage)
      → AreBytes xs
      → decode_standard id xs ≡ r
      → IsBoard b
      → IsBoard (on_decoded b id at previous r).0
  unfolding on_decoded
  on_decoded-IsBoard b id xs at p (ok m) w e (c, t, a, s) =
      let (_, _, carried) = decode_standard-Carries id xs m w e in
      apply_received_message-IsBoard _ m at p carried (
        if_IsBoard (id == 0x102) _ _ (c, t, a, record { health = s.health; sequence = s.sequence })
          (c, t, a, s))
  on_decoded-IsBoard b id xs at p (err x) w e (c, t, a, s) =
      if_IsBoard (id == 0x102) _ _ (c, t, a, record { health = s.health; sequence = s.sequence })
        (c, t, a, s)

  -- Whatever frame of bytes the driver gives, with a standard or an extended identifier, valid or not,
  -- the board stays well formed when it is taken in.
  pub handle_received_frame-IsBoard :
      (b : Board) (identifier : Option ℕ) (xs : List ℕ) (at : ℕ) (previous : Option ℕ)
      → AreBytes xs
      → IsBoard b
      → IsBoard (handle_received_frame b identifier xs at previous).0
  unfolding handle_received_frame on_standard
  handle_received_frame-IsBoard b none xs at p w h = h
  handle_received_frame-IsBoard b (some id) xs at p w h =
      let logged = log_raw-IsBoard b id xs at h in
      elim (Bool-cases (id == 0x014)) [
        | inl e ↦ rw (e, on_standard) (on_recovery_mode-IsBoard _ xs logged)
        | inr e ↦ elim (Bool-cases (id == 0x10b)) [
          | inl e' ↦ rw (e, e', on_standard) (on_device_health-IsBoard _ xs logged)
          | inr e' ↦ rw (e, e', on_standard) (on_decoded-IsBoard _ id xs at p _ w refl logged)
        ]
      ]
