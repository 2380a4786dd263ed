-- ===== src/Board/Downlink.antt =====
-- state.rs, tasks/can_communication.rs and tasks/lora_task_base.rs: the queues of the frames that wait
-- for the radio, and how each kind of answer gets into its queue. The field `requested_at_us` of an
-- envelope exists only in the build for timing measurements, and is left out.
use l_comboard.Base.{ℕ, ◌+◌, ◌%◌, ◌^◌, Bool, true, false, Option, none, some}
use l_comboard.Base.Result.{ok, err}
use l_comboard.Can.Protocol.CommandEnums.{CommandPhase, CommandReason}
use l_comboard.Can.Protocol.RecoveryEnums.{RecoverySource}
use l_comboard.Can.Protocol.Messages.{CommandResult}
use l_comboard.Can.Recovery.{RecoveryChunk, same_source}
use l_comboard.Lora.Payload.Packets.{
  LoraFrame, CommandResultPacket, command_result, ground_time_request, recovery_log_data,
}
use l_comboard.Lora.Payload.Encode.{encode}
use l_comboard.Lora.Scheduler.{
  LoRaTxSource, GroundTimeQueueAction, ignore_duplicate, replace_oldest, ground_time_queue_action,
}
use l_comboard.Board.Channel.{Channels}

pub record LoRaTxEnvelope : Type 0 where
  pub frame : LoraFrame
  pub source : LoRaTxSource
  pub interval_events : ℕ
  pub event_revision : ℕ

abbrev pub queued : LoraFrame → LoRaTxSource → LoRaTxEnvelope
queued frame source = record {
  frame = frame;
  source = source;
  interval_events = 0;
  event_revision = 0;
}

abbrev pub periodic : LoraFrame → ℕ → ℕ → LoRaTxEnvelope
periodic frame interval_events event_revision = record {
  frame = frame;
  source = LoRaTxSource.periodic;
  interval_events = interval_events;
  event_revision = event_revision;
}

-- `fetch_add(1)` on a `u32`
abbrev pub increment : ℕ → ℕ
increment n = (n + 1) % 2 ^ 32

-- The packet of a result, and of the four values that `queue_result` takes.
abbrev pub packet_of : CommandResult → CommandResultPacket
packet_of result = record {
  transaction_id = result.transaction_id;
  command = result.command;
  phase = result.phase;
  reason = result.reason;
  detail = result.detail;
}

abbrev pub answer : ℕ → ℕ → CommandPhase → CommandReason → CommandResultPacket
answer transaction_id command phase reason = record {
  transaction_id = transaction_id;
  command = command;
  phase = phase;
  reason = reason;
  detail = 0;
}

module _ ⦃ch : Channels⦄ where
  open ch use {Channel, try_send, try_receive, is_full}

  -- EMERGENCY_RESULT_LORA_CHANNEL, COMMAND_RESULT_LORA_CHANNEL, GROUND_TIME_REQUEST_LORA_CHANNEL,
  -- RECOVERY_LORA_CHANNEL, whether CONTROL_ROLL_LORA_SIGNAL is raised, and the counters of the drops.
  pub record Downlink : Type 0 where
    pub emergency_results : Channel LoRaTxEnvelope
    pub command_results : Channel LoRaTxEnvelope
    pub ground_time_requests : Channel LoRaTxEnvelope
    pub recovery_frames : Channel LoRaTxEnvelope
    pub roll_signal : Bool
    pub queue_drops : ℕ
    pub emergency_drops : ℕ
    pub ground_time_drops : ℕ
    pub ground_time_duplicates : ℕ

  -- Both tasks have this function.
  unfoldable pub queue_command_result : Downlink → CommandResultPacket → Downlink
  queue_command_result d packet = elim (encode (command_result packet)) [
    | err e ↦ d
    | ok frame ↦ elim (try_send d.command_results (queued frame LoRaTxSource.command_result)) [
      | some q ↦ record d { command_results = q }
      | none ↦ record d { queue_drops = increment d.queue_drops }
    ]
  ]

  abbrev pub queue_optional : Downlink → Option CommandResult → Downlink
  queue_optional d none = d
  queue_optional d (some result) = queue_command_result d (packet_of result)

  unfoldable pub queue_emergency_result : Downlink → CommandResult → Downlink
  queue_emergency_result d result = elim (encode (command_result (packet_of result))) [
    | err e ↦ d
    | ok frame ↦ elim (try_send d.emergency_results (queued frame LoRaTxSource.emergency_result)) [
      | some q ↦ record d { emergency_results = q }
      | none ↦ record d {
        queue_drops = increment d.queue_drops;
        emergency_drops = increment d.emergency_drops;
      }
    ]
  ]

  abbrev drop_ground_time : Downlink → Downlink
  drop_ground_time d = record d {
    queue_drops = increment d.queue_drops;
    ground_time_drops = increment d.ground_time_drops;
  }

  -- `action == ReplaceOldest && try_receive().is_ok()`
  unfoldable pub make_room : Downlink → GroundTimeQueueAction → Downlink
  make_room d replace_oldest = elim (try_receive d.ground_time_requests) [
    | none ↦ d
    | some (oldest, q) ↦ drop_ground_time (record d { ground_time_requests = q })
  ]
  make_room d _ = d

  -- The envelope is sent where there is room, and the request is then the previous one.
  unfoldable pub send_ground_time : Downlink → LoraFrame → ℕ → Option ℕ → Downlink × Option ℕ
  send_ground_time d frame request_id previous =
      elim (try_send d.ground_time_requests (queued frame LoRaTxSource.ground_time_request)) [
        | none ↦ (drop_ground_time d, previous)
        | some q ↦ (record d { ground_time_requests = q }, some request_id)
      ]

  -- A request that is no duplicate.
  unfoldable pub admit_ground_time :
      Downlink → ℕ → Option ℕ → GroundTimeQueueAction → Downlink × Option ℕ
  unfolding make_room send_ground_time
  admit_ground_time d request_id previous ignore_duplicate =
      (record d { ground_time_duplicates = increment d.ground_time_duplicates }, previous)
  admit_ground_time d request_id previous action = elim (encode (ground_time_request request_id)) [
    | err e ↦ (d, previous)
    | ok frame ↦ send_ground_time (make_room d action) frame request_id previous
  ]

  unfoldable pub queue_ground_time_request : Downlink → ℕ → Option ℕ → Downlink × Option ℕ
  unfolding admit_ground_time
  queue_ground_time_request d request_id previous =
      admit_ground_time d request_id previous
        (ground_time_queue_action previous request_id (is_full d.ground_time_requests))

  -- Whether the chunk is queued stands beside.
  unfoldable pub queue_recovery_chunk : Downlink → RecoveryChunk → Downlink × Bool
  queue_recovery_chunk d chunk =
      elim (encode (
        recovery_log_data (record {
          transfer_id = chunk.transfer_id;
          source = same_source chunk.source RecoverySource.mission_sd_latest_flight;
          end_of_file = chunk.end_of_file;
          offset = chunk.offset;
          data_length = chunk.data_length;
          log_data = chunk.bytes;
        }))) [
          | err e ↦ (d, false)
          | ok frame ↦ elim (try_send d.recovery_frames (queued frame LoRaTxSource.recovery)) [
            | some q ↦ (record d { recovery_frames = q }, true)
            | none ↦ (record d { queue_drops = increment d.queue_drops }, false)
          ]
        ]
