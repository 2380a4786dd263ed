-- ===== src/Board/Received.antt =====
-- tasks/can_communication.rs: what the CAN task does with a frame it received.
use Prim.Native.Nat.{bit_and}
use l_comboard.Base.{
  ℕ, ◌-◌, List, ◌++◌, Bool, true, false, not, ◌||◌, Option, none, some, ◌==◌, ltb, if◌then◌else◌,
  min, max, length, replicate, get_or,
}
use l_comboard.Base.Checked.{u32_max}
use l_comboard.Base.Result.{Result, ok, err}
use l_comboard.Can.Protocol.Messages.{
  CanRxMessage, CanDecodeError, ControlRollTelemetryV2, CommandResult, control_roll_v2,
}
use l_comboard.Can.Protocol.ControlRoll.{status_signature}
use l_comboard.Can.Protocol.Decode.{decode_standard}
use l_comboard.Can.Protocol.Encode.{prioritize_untracked_emergency_result}
use l_comboard.Can.Cache.{
  CanCache, CacheUpdate, telemetry, got_command_result, got_time_request, got_mission_event,
  duplicate_mission_event, got_recovery_status, got_recovery_log_data, update,
  clear_recovery_power_snapshot,
}
use l_comboard.Can.Command.{apply_result}
use l_comboard.Board.Channel.{Channels}
use l_comboard.Board.Downlink.{
  increment, packet_of, queue_command_result, queue_emergency_result, queue_ground_time_request,
}
use l_comboard.Board.Stats.{decode_device_health}
use l_comboard.Board.State.{Board, RawCanRecord}
use l_comboard.Board.Transfer.{raise_roll, on_recovery_status, on_log_data}

-- Whether the roll is to be sent before its slot.
unfoldable pub signal_control_roll : CanCache → CanRxMessage → Bool
signal_control_roll c (control_roll_v2 current) =
    not (bit_and current.flags 0x02 == 0) || changed c.control_roll_v2.value
  where
    changed : Option ControlRollTelemetryV2 → Bool
    changed none = false
    changed (some previous) = not (status_signature previous == status_signature current)
signal_control_roll c _ = false

module _ ⦃ch : Channels⦄ where
  open ch use {try_send}

  -- The arm for the result of a command.
  unfoldable pub on_command_result : Board → CommandResult → Board
  on_command_result b result =
      let (tracker, matched) = apply_result b.tracker result in
      let b1 : Board = record b { tracker = tracker } in
      if prioritize_untracked_emergency_result matched result.command
      then record b1 { downlink = queue_emergency_result b1.downlink result }
      else record b1 { downlink = queue_command_result b1.downlink (packet_of result) }

  -- The `match` of `apply_received_message`, with the previous time request.
  unfoldable pub apply_update : Board → CacheUpdate → Option ℕ → Board × Option ℕ
  unfolding on_command_result on_recovery_status on_log_data
  apply_update b (got_command_result result) previous = (on_command_result b result, previous)
  apply_update b (got_time_request request_id) previous =
      let (downlink, next) = queue_ground_time_request b.downlink request_id previous in
      (record b { downlink = downlink }, next)
  apply_update b (got_mission_event event new_flags) previous = (b, previous)
  apply_update b duplicate_mission_event previous = (b, previous)
  apply_update b (got_recovery_status status) previous = (on_recovery_status b status, previous)
  apply_update b (got_recovery_log_data fragment) previous = (on_log_data b fragment, previous)
  apply_update b telemetry previous = (b, previous)

  unfoldable pub apply_received_message : Board → CanRxMessage → ℕ → Option ℕ → Board × Option ℕ
  apply_received_message b message received_at_ms previous =
      let signals = signal_control_roll b.cache message in
      let (cache, change) = update b.cache message received_at_ms in
      let b1 : Board = record b { cache = cache } in
      apply_update (if signals then raise_roll b1 else b1) change previous

  -- A refused command gives no answer; else the answer is whether the beacon was not yet active.
  unfoldable pub handle_recovery_mode_command : Board → List ℕ → Board × Option Bool
  handle_recovery_mode_command b xs =
      if not (length xs == 3) || (not (get_or xs 1 0 == 1) || ltb 3 (get_or xs 2 0))
      then (b, none)
      else (
        record b { shared = record b.shared { recovery_beacon_active = true }; enter_sent = true },
        some (not b.shared.recovery_beacon_active),
      )

  abbrev rx_error : Board → Board
  rx_error b = record b {
    counters = record b.counters { can_rx_error = increment b.counters.can_rx_error };
  }

  -- Whether there was room for the record.
  abbrev pub keep_raw : Board → Option (ch.Channel RawCanRecord) → Board
  keep_raw b (some q) = record b { raw_can_log = q }
  keep_raw b none = record b {
    counters = record b.counters { raw_can_log_dropped = increment b.counters.raw_can_log_dropped };
  }

  unfoldable pub log_raw : Board → ℕ → List ℕ → ℕ → Board
  log_raw b identifier xs at = keep_raw b (
      try_send b.raw_can_log (record {
        received_at_ms = at;
        identifier = identifier;
        data_length = length xs;
        bytes = xs ++ replicate (8 - length xs) 0;
      }))

  -- The arms of the `match` on its answer.
  unfoldable pub on_beacon : Board → Option Bool → Board
  on_beacon b none = rx_error b
  on_beacon b (some false) = b
  on_beacon b (some true) = raise_roll (record b { cache = clear_recovery_power_snapshot b.cache })

  unfoldable pub on_recovery_mode : Board → List ℕ → Board
  unfolding on_beacon
  on_recovery_mode b xs =
      let (b1, answer) = handle_recovery_mode_command b xs in on_beacon b1 answer

  unfoldable pub on_device_health : Board → List ℕ → Board
  on_device_health b xs = elim (decode_device_health xs) [
    | none ↦ rx_error b
    | some health ↦ record b { device_health = health }
  ]

  -- MISSION_STATUS_INVALID_AT_MS after a frame 0x102.
  abbrev mark_status : Board → ℕ → ℕ → Board
  mark_status b identifier at =
      if identifier == 0x102
      then record b { shared = record b.shared { mission_status_invalid_at_ms = at } }
      else b

  -- The arms of the `match` on the decoded frame.
  unfoldable pub on_decoded :
      Board → ℕ → ℕ → Option ℕ → Result CanDecodeError CanRxMessage → Board × Option ℕ
  on_decoded b identifier at previous (ok message) =
      apply_received_message (mark_status b identifier 0) message at previous
  on_decoded b identifier at previous (err e) =
      (rx_error (mark_status b identifier (max (min at u32_max) 1)), previous)

  -- A frame with a standard identifier.
  unfoldable pub on_standard : Board → ℕ → List ℕ → ℕ → Option ℕ → Board × Option ℕ
  unfolding log_raw on_recovery_mode on_device_health on_decoded
  on_standard b identifier xs at previous =
      let b1 = log_raw b identifier xs at in
      if identifier == 0x014
      then (on_recovery_mode b1 xs, previous)
      else if identifier == 0x10b
      then (on_device_health b1 xs, previous)
      else on_decoded b1 identifier at previous (decode_standard identifier xs)

  -- The identifier is `none` for an extended frame.
  unfoldable pub handle_received_frame : Board → Option ℕ → List ℕ → ℕ → Option ℕ → Board × Option ℕ
  unfolding on_standard
  handle_received_frame b none xs at previous = (rx_error b, previous)
  handle_received_frame b (some identifier) xs at previous = on_standard b identifier xs at previous
