-- ===== src/Board/Invariant/Transmit.antt =====
-- tasks/can_communication.rs: a transmission, a tick and the published health keep the shared state
-- well formed.
use l_comboard.Base.{ℕ, Bool, true, Option, List, ◌==◌, AreBytes}
use l_comboard.Base.Result.{Result, ok, err}
use l_comboard.Can.Protocol.Messages.{
  CanTxMessage, GenericCommandRequest, RecoveryControl, actuator_emergency_stop,
  liftoff_emergency_stop, recovery_control, generic_command_request, time_response,
}
use l_comboard.Can.Protocol.Encode.{emergency_failure_result}
use l_comboard.Can.Health.{classify_can_health}
use l_comboard.Can.Recovery.{fail_matching}
use l_comboard.Board.Channel.{Channels}
use l_comboard.Board.Runtime.{fallback_health_code_iff}
use l_comboard.Board.State.{Board, turn_on}
use l_comboard.Board.Transmit.{
  CanTask, fail_generic, fail_control, answer_failure, start_log, transmitted, received, publish,
  publish_health, publish_fallback_health, health_tick,
}
use l_comboard.Board.Frame.{CanTxError}
use l_comboard.Board.Invariant.{
  IsBoard, apply_result-IsValid, abort-IsBuffer, if_IsBoard, option_IsBoard,
}
use l_comboard.Board.Invariant.Received.{handle_received_frame-IsBoard}

module _ ⦃ch : Channels⦄ where
  fail_generic-IsBoard :
      (b : Board) (r : GenericCommandRequest) → IsBoard b → IsBoard (fail_generic b r)
  unfolding fail_generic
  fail_generic-IsBoard b r (c, t, a, s) =
      let h = apply_result-IsValid b.tracker _ t in if_IsBoard _ _ _ (c, h, a, s) (c, h, a, s)

  fail_control-IsBoard : (b : Board) (r : RecoveryControl) → IsBoard b → IsBoard (fail_control b r)
  unfolding fail_control
  fail_control-IsBoard b r (c, t, a, s) =
      option_IsBoard (fail_matching b.session r.transfer_id _ 0).1 _ _ (c, t, a, s)
        (λ x. (c, t, abort-IsBuffer b.assembler, s))

  answer_failure-IsBoard : (b : Board) (m : CanTxMessage) → IsBoard b → IsBoard (answer_failure b m)
  unfolding answer_failure emergency_failure_result
  answer_failure-IsBoard b (actuator_emergency_stop id) h = h
  answer_failure-IsBoard b (liftoff_emergency_stop id) h = h
  answer_failure-IsBoard b (generic_command_request r) h = fail_generic-IsBoard b r h
  answer_failure-IsBoard b (recovery_control r) h = fail_control-IsBoard b r h
  answer_failure-IsBoard b (time_response r) h = h

  start_log-IsBoard : (b : Board) (m : CanTxMessage) → IsBoard b → IsBoard (start_log b m)
  unfolding start_log
  start_log-IsBoard b (generic_command_request r) (c, t, a, s) =
      let b1 : Board = record b { shared = record b.shared { logging_requested = true } } in
      let v : IsBoard b1 = (c, t, a, record { health = s.health; sequence = s.sequence }) in
      if_IsBoard (r.command == 0x01) _ _
        (option_IsBoard (ch.try_send b.gnss_commands turn_on) _ _ v (λ q. v)) (c, t, a, s)
  start_log-IsBoard b (actuator_emergency_stop id) h = h
  start_log-IsBoard b (liftoff_emergency_stop id) h = h
  start_log-IsBoard b (recovery_control r) h = h
  start_log-IsBoard b (time_response r) h = h

  pub transmitted-IsBoard :
      (b : Board) (t : CanTask) (m : CanTxMessage) (r : Result CanTxError (Unit {0}))
      → IsBoard b
      → IsBoard (transmitted b t m r).0
  unfolding transmitted
  transmitted-IsBoard b t m (ok u) h = start_log-IsBoard _ m h
  transmitted-IsBoard b t m (err e) h = answer_failure-IsBoard _ m h

  pub received-IsBoard :
      (b : Board) (t : CanTask) (identifier : Option ℕ) (xs : List ℕ) (at : ℕ)
      → AreBytes xs
      → IsBoard b
      → IsBoard (received b t identifier xs at).0
  unfolding received
  received-IsBoard b t identifier xs at w h =
      handle_received_frame-IsBoard _ identifier xs at t.previous_time_request_id w h

  pub health_tick-IsBoard :
      (b : Board) (t : CanTask) (tec rec : ℕ) (off : Bool)
      → IsBoard b
      → IsBoard (health_tick b t tec rec off).0
  unfolding health_tick publish_health
  health_tick-IsBoard b t tec rec off h = h

  pub publish-IsBoard :
      (b : Board) (t : CanTask) (tec rec : ℕ) (off : Bool) (now : ℕ)
      → IsBoard b
      → IsBoard (publish b t tec rec off now)
  unfolding publish publish_health publish_fallback_health
  publish-IsBoard b t tec rec off now (c, v, a, s) =
      let (_, bound, _) =
        fallback_health_code_iff t.runtime_state (classify_can_health tec rec off) in
      (c, v, a, record { health = bound; sequence = s.sequence })
