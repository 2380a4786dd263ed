-- ===== src/Board/Invariant/Commands.antt =====
-- tasks/lora_task.rs and tasks/lora_task_base.rs: the commands of the ground keep the shared state well formed.
use l_comboard.Base.{ℕ, Option, none, some, List, [], ◌∷◌}
use l_comboard.Base.Result.{Result, ok, err}
use l_comboard.Can.Protocol.RecoveryEnums.{RecoveryOpcode, RecoverySource}
use l_comboard.Can.Protocol.Messages.{GenericCommandRequest, CommandResult}
use l_comboard.Can.Command.{
  RegisterResult, register, forward, duplicate_pending, replay, protocol_error, busy,
}
use l_comboard.Can.Command.Invariant.{register-IsValid}
use l_comboard.Can.Recovery.{PendingRecovery, interrupt_with_stop}
use l_comboard.Lora.Uplink.{
  UplinkCommand, UplinkDecodeError, UplinkFrameBuffer, generic, stop_actuator, stop_liftoff,
  local_command, ground_time, push,
}
use l_comboard.Board.Channel.{Channels}
use l_comboard.Board.State.{Board}
use l_comboard.Board.Commands.{
  LocalAction, start_logging, stop_logging, gnss_on, gnss_off, wake, dump_internal_flash,
  dump_mission_sd, stop_dump, exit_recovery, is_out_of_place, decode_action, opcode_of,
  on_registered, tell_interrupted, process_generic, claim, prepare, request_recovery,
  process_recovery, act, perform, process_local, command_process,
}
use l_comboard.Board.Uplink.{hand_over, dispatch, on_uplink, receive_bytes, lora_received}
use l_comboard.Board.Invariant.{IsBoard, abort-IsBuffer, begin-IsBuffer, if_IsBoard, option_IsBoard}

module _ ⦃ch : Channels⦄ where
  process_generic-IsBoard :
      (b : Board) (r : GenericCommandRequest) → IsBoard b → IsBoard (process_generic b r)
  unfolding process_generic
  process_generic-IsBoard b r (c, t, a, s) =
      go (record b { tracker = (register b.tracker r).0 }) (register b.tracker r).1
        (c, register-IsValid b.tracker r t, a, s)
    where
      go : (b : Board) (x : RegisterResult) → IsBoard b → IsBoard (on_registered b r x)
      go b forward h = h
      go b duplicate_pending h = h
      go b (replay result) h = h
      go b protocol_error h = h
      go b busy h = h

  told-IsBoard : (b : Board) (o : Option CommandResult) → IsBoard b → IsBoard (tell_interrupted b o)
  told-IsBoard b none h = h
  told-IsBoard b (some r) h = h

  claim-IsBoard :
      (b : Board) (x : LocalAction) (p : PendingRecovery) → IsBoard b → IsBoard (claim b x p).0
  unfolding claim
  claim-IsBoard b stop_dump p h =
      told-IsBoard (record b { session = (interrupt_with_stop b.session p).0 })
        (interrupt_with_stop b.session p).1 h
  claim-IsBoard b start_logging p h = h
  claim-IsBoard b stop_logging p h = h
  claim-IsBoard b gnss_on p h = h
  claim-IsBoard b gnss_off p h = h
  claim-IsBoard b wake p h = h
  claim-IsBoard b dump_internal_flash p h = h
  claim-IsBoard b dump_mission_sd p h = h
  claim-IsBoard b exit_recovery p h = h

  prepare-IsBoard :
      (b : Board) (x : LocalAction) (id : ℕ) (source : RecoverySource) (args : List ℕ)
      → IsBoard b
      → IsBoard (prepare b x id source args)
  unfolding prepare
  prepare-IsBoard b stop_dump id source args (c, t, a, s) = (c, t, abort-IsBuffer b.assembler, s)
  prepare-IsBoard b dump_internal_flash id source args (c, t, a, s) =
      (c, t, begin-IsBuffer id source _ _, s)
  prepare-IsBoard b dump_mission_sd id source args (c, t, a, s) =
      (c, t, begin-IsBuffer id source _ _, s)
  prepare-IsBoard b start_logging id source args h = h
  prepare-IsBoard b stop_logging id source args h = h
  prepare-IsBoard b gnss_on id source args h = h
  prepare-IsBoard b gnss_off id source args h = h
  prepare-IsBoard b wake id source args h = h
  prepare-IsBoard b exit_recovery id source args h = h

  process_recovery-IsBoard :
      (b : Board) (x : LocalAction) (o : RecoveryOpcode) (id command : ℕ) (args : List ℕ)
      → IsBoard b
      → IsBoard (process_recovery b x o id command args)
  unfolding process_recovery request_recovery
  process_recovery-IsBoard b x o id command args h =
      let claimed = claim-IsBoard b x _ h in
      if_IsBoard _ _ _ (prepare-IsBoard _ x id _ args claimed) claimed

  act-IsBoard : (b : Board) (x : LocalAction) → IsBoard b → IsBoard (act b x)
  unfolding act
  act-IsBoard b start_logging (c, t, a, s) =
      (c, t, a, record { health = s.health; sequence = s.sequence })
  act-IsBoard b stop_logging (c, t, a, s) =
      (c, t, a, record { health = s.health; sequence = s.sequence })
  act-IsBoard b gnss_on h = h
  act-IsBoard b gnss_off h = h
  act-IsBoard b wake h = h
  act-IsBoard b dump_internal_flash h = h
  act-IsBoard b dump_mission_sd h = h
  act-IsBoard b stop_dump h = h
  act-IsBoard b exit_recovery h = h

  perform-IsBoard :
      (b : Board) (x : LocalAction) (id command : ℕ) (args : List ℕ)
      → IsBoard b
      → IsBoard (perform b x id command args)
  unfolding perform
  perform-IsBoard b x id command args h = if_IsBoard (is_out_of_place b x) _ _ h (
      option_IsBoard (opcode_of x) _ _ (act-IsBoard b x h)
        (λ o. process_recovery-IsBoard b x o id command args h))

  process_local-IsBoard :
      (b : Board) (id command : ℕ) (args : List ℕ)
      → IsBoard b
      → IsBoard (process_local b id command args)
  unfolding process_local
  process_local-IsBoard b id command args h =
      option_IsBoard (decode_action command) _ _ h
        (λ x. if_IsBoard _ _ _ h (perform-IsBoard b x id command args h))

  pub command_process-IsBoard :
      (b : Board) (v : UplinkCommand) → IsBoard b → IsBoard (command_process b v)
  unfolding command_process
  command_process-IsBoard b (generic r) h = process_generic-IsBoard b r h
  command_process-IsBoard b (stop_actuator id) h = h
  command_process-IsBoard b (stop_liftoff id) h = h
  command_process-IsBoard b (local_command v) h =
      process_local-IsBoard b v.transaction_id v.command v.args h
  command_process-IsBoard b (ground_time v) h = h

  hand_over-IsBoard : (b : Board) (v : UplinkCommand) → IsBoard b → IsBoard (hand_over b v)
  unfolding hand_over
  hand_over-IsBoard b v h = option_IsBoard (ch.try_send b.uplink_commands v) _ _ h (λ q. h)

  on_uplink-IsBoard :
      (b : Board) (r : Option (Result UplinkDecodeError UplinkCommand)) (at : ℕ)
      → IsBoard b
      → IsBoard (on_uplink b r at)
  unfolding on_uplink dispatch
  on_uplink-IsBoard b none at h = h
  on_uplink-IsBoard b (some (err e)) at h = h
  on_uplink-IsBoard b (some (ok (stop_actuator id))) at h = h
  on_uplink-IsBoard b (some (ok (stop_liftoff id))) at h = h
  on_uplink-IsBoard b (some (ok (generic r))) at h = hand_over-IsBoard _ (generic r) h
  on_uplink-IsBoard b (some (ok (local_command v))) at h = hand_over-IsBoard _ (local_command v) h
  on_uplink-IsBoard b (some (ok (ground_time v))) at h = hand_over-IsBoard _ (ground_time v) h

  receive_bytes-IsBoard :
      (b : Board) (u : UplinkFrameBuffer) (xs : List (ℕ × ℕ))
      → IsBoard b
      → IsBoard (receive_bytes b u xs).0
  unfolding receive_bytes
  receive_bytes-IsBoard b u [] h = h
  receive_bytes-IsBoard b u ((x, at) ∷ xs) h =
      receive_bytes-IsBoard (on_uplink b (push u x).1 at) (push u x).0 xs
        (on_uplink-IsBoard b (push u x).1 at h)

  pub lora_received-IsBoard :
      (b : Board) (u : UplinkFrameBuffer) (xs : List (ℕ × ℕ)) (at : ℕ)
      → IsBoard b
      → IsBoard (lora_received b u xs at).0
  unfolding lora_received
  lora_received-IsBoard b u xs at h = receive_bytes-IsBoard _ u xs h
