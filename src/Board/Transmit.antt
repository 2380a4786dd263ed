-- ===== src/Board/Transmit.antt =====
-- tasks/can_communication.rs: what follows the outcome of a transmission, and a round of the CAN task.
-- The driver's answers are arguments.
use l_comboard.Base.{ℕ, ◌+◌, List, Bool, true, false, Option, none, some, ◌==◌, if◌then◌else◌}
use l_comboard.Base.Checked.{saturating}
use l_comboard.Base.Result.{Result, ok, err}
use l_comboard.Can.Protocol.CommandEnums.{CommandPhase, CommandReason}
use l_comboard.Can.Protocol.Messages.{
  CanTxMessage, GenericCommandRequest, RecoveryControl, CommandResult, generic_command_request,
  recovery_control,
}
use l_comboard.Can.Protocol.Encode.{emergency_failure_result}
use l_comboard.Can.Health.{CanHealth, classify_can_health}
use l_comboard.Can.Cache.{Freshness, freshness}
use l_comboard.Can.Command.{apply_result}
use l_comboard.Can.Recovery.{abort, fail_matching}
use l_comboard.Board.Channel.{Channels}
use l_comboard.Board.Downlink.{increment, packet_of, queue_command_result, queue_emergency_result}
use l_comboard.Board.Runtime.{
  CanRuntimeState, CanRuntimeEvent, transition_runtime, enter_recovering, fallback_health_code,
  error_state,
}
use l_comboard.Board.Stats.{CanObservedStats, observe}
use l_comboard.Board.State.{Board, turn_on}
use l_comboard.Board.Received.{handle_received_frame}
use l_comboard.Board.Frame.{CanTxError, timed_out_unknown_state, bus_off}

-- What the CAN task keeps for itself between two rounds.
pub record CanTask : Type 0 where
  pub runtime_state : CanRuntimeState
  pub consecutive_tx_errors : ℕ
  pub consecutive_rx_errors : ℕ
  pub observed : CanObservedStats
  pub health_ticks : ℕ
  pub previous_time_request_id : Option ℕ

-- The state after an event of a driver that has to be recovered.
abbrev recovering : CanTask → CanRuntimeEvent → CanTask
recovering t event = record t {
  runtime_state = (enter_recovering (λ (u : Unit {0}). u) tt t.runtime_state event).1;
}

module _ ⦃ch : Channels⦄ where
  open ch use {try_send}

  -- A generic request whose transmission failed is answered for the mission.
  unfoldable pub fail_generic : Board → GenericCommandRequest → Board
  fail_generic b request =
      let result : CommandResult = record {
        transaction_id = request.transaction_id;
        command = request.command;
        phase = CommandPhase.failed;
        reason = CommandReason.timeout;
        detail = 0;
      } in
      let (tracker, matched) = apply_result b.tracker result in
      let b1 : Board = record b { tracker = tracker } in
      if matched
      then record b1 { downlink = queue_command_result b1.downlink (packet_of result) }
      else b1

  unfoldable pub fail_control : Board → RecoveryControl → Board
  fail_control b control =
      let (session, result) = fail_matching b.session control.transfer_id CommandReason.timeout 0 in
      let b1 : Board = record b { session = session } in
      elim result [
        | none ↦ b1
        | some r ↦ record b1 {
          assembler = (abort b1.assembler).0;
          downlink = queue_command_result b1.downlink (packet_of r);
        }
      ]

  -- What a failed transmission is answered with.
  unfoldable pub answer_failure : Board → CanTxMessage → Board
  unfolding fail_generic fail_control
  answer_failure b message = elim (emergency_failure_result message) [
    | some result ↦ record b { downlink = queue_emergency_result b.downlink result }
    | none ↦ elim message [
      | generic_command_request request ↦ fail_generic b request
      | recovery_control control ↦ fail_control b control
      | _ ↦ b
    ]
  ]

  -- A transmitted request to start the log starts that of this board.
  unfoldable pub start_log : Board → CanTxMessage → Board
  start_log b (generic_command_request request) =
      if request.command == 0x01
      then (let b1 : Board = record b { shared = record b.shared { logging_requested = true } } in
          elim (try_send b1.gnss_commands turn_on) [
            | some q ↦ record b1 { gnss_commands = q }
            | none ↦ b1
          ])
      else b
  start_log b _ = b

  -- The event of an error after which the driver is to be recovered.
  abbrev error_event : CanTxError → Option CanRuntimeEvent
  error_event bus_off = some CanRuntimeEvent.bus_off
  error_event timed_out_unknown_state = some CanRuntimeEvent.timed_out_unknown_state
  error_event _ = none

  abbrev recover_from : CanTask → Option CanRuntimeEvent → CanTask
  recover_from t none = t
  recover_from t (some event) = recovering t event

  -- One request of the inner loop, with the outcome of its transmission.
  unfoldable pub transmitted :
      Board → CanTask → CanTxMessage → Result CanTxError (Unit {0}) → Board × CanTask
  unfolding answer_failure start_log
  transmitted b t message (ok u) = (
    start_log
        (record b {
          counters = record b.counters { can_tx_success = increment b.counters.can_tx_success };
        })
        message,
    record t {
      consecutive_tx_errors = 0;
      runtime_state = (transition_runtime t.runtime_state CanRuntimeEvent.transmit_succeeded).0;
    },
  )
  transmitted b t message (err e) = (
    answer_failure
        (record b {
          counters = record b.counters { can_tx_error = increment b.counters.can_tx_error };
        })
        message,
    recover_from (record t { consecutive_tx_errors = saturating 255 (t.consecutive_tx_errors + 1) })
        (error_event e),
  )

  abbrev observe_frame : CanObservedStats → Option ℕ → List ℕ → CanObservedStats
  observe_frame s none xs = s
  observe_frame s (some identifier) xs = observe s identifier xs

  -- A frame was received at the time given.
  unfoldable pub received : Board → CanTask → Option ℕ → List ℕ → ℕ → Board × CanTask
  received b t identifier xs at =
      let b1 : Board = record b {
        counters = record b.counters { can_rx_success = increment b.counters.can_rx_success };
      } in
      let (b2, previous) = handle_received_frame b1 identifier xs at t.previous_time_request_id in
      (
        b2,
        record t {
          observed = observe_frame t.observed identifier xs;
          consecutive_rx_errors = 0;
          runtime_state = (transition_runtime t.runtime_state CanRuntimeEvent.receive_succeeded).0;
          previous_time_request_id = previous;
        },
      )

  -- The driver reported an error; `is_bus_off` is `error == EspTwaiError::BusOff`.
  unfoldable pub receive_failed : Board → CanTask → Bool → Board × CanTask
  receive_failed b t is_bus_off = (
    record b { counters = record b.counters { can_rx_error = increment b.counters.can_rx_error } },
    recover_from (record t { consecutive_rx_errors = saturating 255 (t.consecutive_rx_errors + 1) })
        (if is_bus_off then some CanRuntimeEvent.bus_off else none),
  )

  -- `publish_health`, with the counters of the controller.
  abbrev health_to_u8 : CanHealth → ℕ
  health_to_u8 CanHealth.active = 0
  health_to_u8 CanHealth.warning = 1
  health_to_u8 CanHealth.passive = 2
  health_to_u8 CanHealth.bus_off = 3

  unfoldable pub publish_health : Board → ℕ → ℕ → Bool → Board × CanHealth
  publish_health b tec rec is_bus_off =
      let health = classify_can_health tec rec is_bus_off in
      (record b { bus = record { tec = tec; rec = rec; health = health_to_u8 health } }, health)

  unfoldable pub publish_fallback_health : Board → CanRuntimeState → CanHealth → Board
  publish_fallback_health b state health = record b {
    shared = record b.shared { can_fallback_health = fallback_health_code state health };
  }

  abbrev is_off : CanHealth → Bool
  is_off CanHealth.bus_off = true
  is_off _ = false

  -- The tick of the health monitor; printing the statistics is left out.
  unfoldable pub health_tick : Board → CanTask → ℕ → ℕ → Bool → Board × CanTask
  unfolding publish_health
  health_tick b t tec rec is_bus_off =
      let ticks = saturating 255 (t.health_ticks + 1) in
      let t1 : CanTask = record t { health_ticks = if ticks == 100 then 0 else ticks } in
      let (b1, health) = publish_health b tec rec is_bus_off in
      (b1, recover_from t1 (if is_off health then some CanRuntimeEvent.bus_off else none))

  abbrev is_fresh : Freshness → Bool
  is_fresh Freshness.fresh = true
  is_fresh _ = false

  -- The end of a round: the health and the error state are published. FRESHNESS_10_HZ_MS is 300.
  unfoldable pub publish : Board → CanTask → ℕ → ℕ → Bool → ℕ → Board
  unfolding publish_health publish_fallback_health
  publish b t tec rec is_bus_off now_ms =
      let (b1, health) = publish_health b tec rec is_bus_off in
      let b2 = publish_fallback_health b1 t.runtime_state health in
      record b2 {
        shared = record b2.shared {
          is_can_error =
              error_state t.runtime_state health t.consecutive_tx_errors t.consecutive_rx_errors
                (is_fresh (freshness b2.cache.mission_status now_ms 300));
        };
      }
