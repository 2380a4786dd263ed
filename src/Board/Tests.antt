-- ===== src/Board/Tests.antt =====
-- Runs of the tasks over channels that are lists, and the theorems at concrete inputs.
use l_comboard.Base.{
  ℕ, ◌≤◌, ◌<◌, ◌≡◌, ◌⊎◌, refl, true, false, Option, none, some, List, [], ◌∷◌, ◌++◌, length, ltb,
  leb, if◌then◌else◌, arith, AreBytes, replicate,
}
use l_comboard.Base.Result.{err}
use l_comboard.Can.Protocol.CommandEnums.{
  CommandPhase, CommandReason, command_phase_to_u8, command_reason_to_u8,
}
use l_comboard.Can.Protocol.Messages.{CommandResult, RecoveryLogData, command_result, unknown_id}
use l_comboard.Can.Protocol.Wire.{IsWire}
use l_comboard.Can.Protocol.Decode.{decode_standard}
use l_comboard.Can.Cache
use l_comboard.Can.Cache.{CanCache}
use l_comboard.Can.Command.{apply_result}
use l_comboard.Can.Recovery.{push}
use l_comboard.Lora.Payload.Packets
use l_comboard.Lora.Uplink.{LocalCommand}
use l_comboard.Lora.Scheduler.{LoRaTxSource, is_higher_priority}
use l_comboard.Lora.Periodic.Packet.{periodic_packet}
use l_comboard.Lora.Periodic.Sent.{Sends}
use l_comboard.Board.Channel.{Channels, IsFifo}
use l_comboard.Board.Runtime.{CanRuntimeState, CanRuntimeEvent, restarts, restarts-le}
use l_comboard.Board.Downlink.{Downlink, LoRaTxEnvelope, queued, answer, queue_ground_time_request}
use l_comboard.Board.Received.{handle_received_frame, apply_received_message}
use l_comboard.Board.Transfer.{on_log_data}
use l_comboard.Board.Transmit.{received}
use l_comboard.Board.Commands.{process_local}
use l_comboard.Board.Refused.{IsRefused, handle_received_frame-IsRefused}
use l_comboard.Board.Answers.{Offered, answers}
use l_comboard.Board.Answers.Local.{told, process_local_answered}
use l_comboard.Board.Answers.Queues.{IsHandled, on_log_data_cases}
use l_comboard.Board.Answers.Ground.{IsLast, queue_ground_time_request_lem}
use l_comboard.Board.Answers.Results.{IsPassedOn, command_result-IsPassedOn}
use l_comboard.Board.Power.{power_round}
use l_comboard.Board.Power.Heard.{
  PowerEvent, frame, task_round, follow, start_run, IsHeard, power_round-IsHeard,
}
use l_comboard.Can.Protocol.Messages.{PowerTimeTelemetry}
use l_comboard.Board.Radio.{TxTask, take_higher_priority_envelope, after_attempt}
use l_comboard.Board.Radio.Priority.{IsMostUrgent, take_higher_priority_envelope_lem}
use l_comboard.Board.Radio.Deadlines.{IsNext, after_attempt_lem}
use l_comboard.Board.Steps.{System, new_system, new_board, receives, Reach, start, later}
use l_comboard.Board.Steps.Safe.{IsSystem, Reach-IsSystem, Reach-Sends}

abbrev try_send : {T : Type 0} → ℕ × List T → T → Option (ℕ × List T)
try_send (n, xs) x = if ltb (length xs) n then some (n, xs ++ x ∷ []) else none

abbrev next : {T : Type 0} → ℕ → List T → Option (T × (ℕ × List T))
next n [] = none
next n (x ∷ xs) = some (x, (n, xs))

instance abbrev queues : Channels
queues = record {
  Channel = λ T. ℕ × List T;
  empty = λ n. (n, []);
  try_send = try_send;
  send = λ c x. (c.0, c.1 ++ x ∷ []);
  try_receive = λ c. next c.0 c.1;
  is_full = λ c. leb c.0 (length c.1);
  contents = λ c. c.1;
  capacity = λ c. c.0;
}

ltb-true : (a b : ℕ) → a < b → ltb a b ≡ true
ltb-true a b h = ground arith

ltb-false : (a b : ℕ) → b ≤ a → ltb a b ≡ false
ltb-false a b h = ground arith

send_room_lem :
    {T : Type 0} (n : ℕ) (xs : List T) (x : T)
    → length xs < n
    → try_send (n, xs) x ≡ some (n, xs ++ x ∷ [])
send_room_lem n xs x h = rw (ltb-true (length xs) n h) refl

send_full_lem :
    {T : Type 0} (n : ℕ) (xs : List T) (x : T) → n ≤ length xs → try_send (n, xs) x ≡ none
send_full_lem n xs x h = rw (ltb-false (length xs) n h) refl

queues-IsFifo : IsFifo queues
queues-IsFifo = record {
  send_room = λ c x h. ((c.0, c.1 ++ x ∷ []), send_room_lem c.0 c.1 x h, refl, refl);
  send_full = λ c x h. send_full_lem c.0 c.1 x h;
  receive_next = λ c x xs h. ((c.0, xs), rw h refl, refl, refl);
  receive_empty = λ c h. rw h refl;
  full_iff = λ c. ground arith;
}

-- The frame of a mission that waits for commands, received after 5 ms.
abbrev waiting_frame : List ℕ
waiting_frame = 1 ∷ 0 ∷ 0 ∷ 0 ∷ 0 ∷ 0 ∷ 0 ∷ 0 ∷ []

waiting_frame-AreBytes : AreBytes waiting_frame
waiting_frame-AreBytes = ground arith

abbrev heard : System
heard =
    let (b, t) = received new_system.board new_system.can (some 0x102) waiting_frame 5 in
    record new_system { board = b; can = t }

heard-Reach : Reach heard
heard-Reach = later start (receives (some 0x102) waiting_frame 5 waiting_frame-AreBytes)

Reach-IsSystem_example : IsSystem heard
Reach-IsSystem_example = Reach-IsSystem heard-Reach

Reach-Sends_example :
    Sends (periodic_packet false false heard.board.cache 100 heard.gnss heard.board.shared).0
Reach-Sends_example = Reach-Sends false 100 heard-Reach

abbrev start_logging : LocalCommand
start_logging = record { transaction_id = 7; command = 0x6c; args = replicate 6 0 }

process_local_answered_example :
    (d : Downlink) × (phase : CommandPhase) × (reason : CommandReason) × ((d ≡ new_board.downlink)
      ⊎ ((start_logging.command ≡ 0x78) × (d ≡ told new_board.downlink none)))
    × Offered
        (Packets.command_result (answer 7 0x6c phase reason))
        LoRaTxSource.command_result
        (answers d)
        (answers (process_local new_board 7 0x6c (replicate 6 0)).downlink)
process_local_answered_example =
    process_local_answered new_board start_logging queues-IsFifo
      (record { bytes = ground arith; fields = ground arith })

-- The first fragment of a log for which nothing was started.
abbrev stray : RecoveryLogData
stray = record { transfer_id = 9; sequence = 0; fragment = replicate 6 1 }

on_log_data_cases_example :
    IsHandled
      (record new_board { assembler = (push new_board.assembler stray).0 })
      (push new_board.assembler stray).1
      (on_log_data new_board stray)
on_log_data_cases_example = on_log_data_cases new_board stray queues-IsFifo

queue_ground_time_request_lem_example :
    let (d', previous') = queue_ground_time_request new_board.downlink 5 (some 4) in
    (previous' ≡ some 5) × IsLast new_board.downlink 5 d'
queue_ground_time_request_lem_example =
    queue_ground_time_request_lem new_board.downlink 5 (some 4) queues-IsFifo (ground arith)
      (omega arith) refl

abbrev refused_result : CommandResult
refused_result = record {
  transaction_id = 7;
  command = 0xf0;
  phase = CommandPhase.rejected;
  reason = CommandReason.busy;
  detail = 0;
}

refused_result-IsWire : IsWire (command_result refused_result)
unfolding command_phase_to_u8 command_reason_to_u8
refused_result-IsWire = record { bytes = ground arith; fields = ground arith }

command_result-IsPassedOn_example :
    IsPassedOn
      (apply_result new_board.tracker refused_result).1
      new_board.downlink
      refused_result
      (apply_received_message new_board (command_result refused_result) 5 none).0.downlink
command_result-IsPassedOn_example =
    command_result-IsPassedOn new_board refused_result 5 none queues-IsFifo refused_result-IsWire

unknown_frame : decode_standard 0x7ff waiting_frame ≡ err (unknown_id 0x7ff)
unfolding decode_standard
unknown_frame = refl

handle_received_frame-IsRefused_example :
    IsRefused new_board (handle_received_frame new_board none waiting_frame 5 none).0
    × IsRefused new_board (handle_received_frame new_board (some 0x7ff) waiting_frame 5 none).0
handle_received_frame-IsRefused_example =
    handle_received_frame-IsRefused new_board 0x7ff waiting_frame 5 none (unknown_id 0x7ff)
      (omega arith) (omega arith) unknown_frame

-- A frame that the beacon sends once it is active, and the silence after it.
abbrev voltages : PowerTimeTelemetry
voltages = record {
  sequence = 1;
  logic_voltage = 50;
  motor_voltage = 80;
  descent_elapsed = 0;
  recovery_elapsed = 0;
  flags = 0;
}

abbrev events : List PowerEvent
events = task_round true 100 ∷ frame voltages 150 ∷ task_round true 200 ∷ task_round true 20000 ∷ []

power_round-IsHeard_example :
    let s = follow (start_run Cache.new) events in
    let (c, t) = power_round s.cache s.task true 40000 in
    IsHeard t s.heard 40000 × (c.power_time.value ≡ some t.snapshot)
power_round-IsHeard_example = power_round-IsHeard Cache.new events 40000

restarts-le_example :
    (restarts CanRuntimeState.normal (
      CanRuntimeEvent.bus_off ∷ CanRuntimeEvent.bus_off ∷ CanRuntimeEvent.timed_out_unknown_state
      ∷ [])).1
    ≤ 1
restarts-le_example = restarts-le CanRuntimeState.normal (
    CanRuntimeEvent.bus_off ∷ CanRuntimeEvent.bus_off ∷ CanRuntimeEvent.timed_out_unknown_state
    ∷ [])

abbrev idle_task : TxTask
idle_task = record {
  control_roll_cycle_active = false;
  prefer_control_roll_v2 = false;
  interval_us = 500000;
  next_tx_at = 1000;
  periodic_deadline_valid = true;
  next_recovery_at = 0;
  pending_recovery = none;
  deferred_envelope = none;
  periodic_retry_at = none;
  recovery_sent_since_periodic = false;
  missed_slots = 0;
}

after_attempt_lem_example :
    let t' = after_attempt (λ n. some n) idle_task LoRaTxSource.recovery 2000 false 3000 in
    ((t'.periodic_deadline_valid ≡ false) ⊎ (3000 < t'.next_tx_at))
    × ((true ≡ false) ⊎ IsNext (λ n. some n) 202000 t'.next_recovery_at)
after_attempt_lem_example =
    after_attempt_lem (λ n. some n) idle_task LoRaTxSource.recovery 2000 false 3000 (λ n m h. cc)
      (omega arith)

abbrev waiting : LoRaTxEnvelope
waiting = queued (record { bytes = replicate 27 0; length = 4 }) LoRaTxSource.command_result

abbrev one_waits : Downlink
one_waits = record new_board.downlink { command_results = (16, waiting ∷ []) }

result_first :
    (take_higher_priority_envelope one_waits LoRaTxSource.recovery false 0 true 1000 none 500).0
    ≡ some waiting
unfolding take_higher_priority_envelope is_higher_priority
result_first = refl

take_higher_priority_envelope_lem_example : IsMostUrgent one_waits LoRaTxSource.recovery waiting
take_higher_priority_envelope_lem_example =
    take_higher_priority_envelope_lem one_waits LoRaTxSource.recovery false 0 true 1000 none 500
      waiting queues-IsFifo (record { emergency = tt; results = (refl, tt); ground = tt; log = tt })
      tt result_first

abbrev log_waits : LoRaTxEnvelope
log_waits = record waiting { source = LoRaTxSource.recovery }

abbrev urgent : LoRaTxEnvelope
urgent = record waiting { source = LoRaTxSource.emergency_result }

-- A frame of the log is kept while a periodic packet is due.
abbrev log_task : TxTask
log_task = record idle_task {
  deferred_envelope = some log_waits;
  recovery_sent_since_periodic = true;
}
