-- ===== src/Board/Uplink.antt =====
-- tasks/lora_task_base.rs: the received bytes, and where each command goes.
use l_comboard.Base.{
  ℕ, ◌+◌, ◌%◌, ◌^◌, List, [], ◌∷◌, Option, none, some, ◌==◌, if◌then◌else◌, length,
}
use l_comboard.Base.Result.{Result, ok, err}
use l_comboard.Can.Protocol.Messages.{actuator_emergency_stop, liftoff_emergency_stop}
use l_comboard.Lora.Uplink.{
  UplinkCommand, UplinkDecodeError, UplinkFrameBuffer, stop_actuator, stop_liftoff, push, reset,
}
use l_comboard.Board.Channel.{Channels}
use l_comboard.Board.Downlink.{increment}
use l_comboard.Board.State.{Board}

module _ ⦃ch : Channels⦄ where
  open ch use {try_send, send}

  -- A command that is no emergency is handed to the other task.
  unfoldable pub hand_over : Board → UplinkCommand → Board
  hand_over b command = elim (try_send b.uplink_commands command) [
    | some q ↦ record b { uplink_commands = q }
    | none ↦ record b {
      counters = record b.counters { lora_command_drop = increment b.counters.lora_command_drop };
    }
  ]

  -- `match command` in `lora_rx_task`
  unfoldable pub dispatch : Board → UplinkCommand → Board
  unfolding hand_over
  dispatch b (stop_actuator transaction_id) = record b {
    can_safety_tx = send b.can_safety_tx (actuator_emergency_stop transaction_id);
  }
  dispatch b (stop_liftoff transaction_id) = record b {
    can_safety_tx = send b.can_safety_tx (liftoff_emergency_stop transaction_id);
  }
  dispatch b command = hand_over b command

  abbrev rx_error : Board → Board
  rx_error b = record b {
    counters = record b.counters { lora_rx_error = increment b.counters.lora_rx_error };
  }

  -- What `push` answered for a byte.
  unfoldable pub on_uplink : Board → Option (Result UplinkDecodeError UplinkCommand) → ℕ → Board
  unfolding dispatch
  on_uplink b none at = b
  on_uplink b (some (err e)) at = rx_error (record b { rx_activity = some at })
  on_uplink b (some (ok command)) at =
      dispatch
        (record b {
          rx_activity = some at;
          counters = record b.counters { lora_rx_success = increment b.counters.lora_rx_success };
        })
        command

  -- The loop over the bytes, each with the time at which it is looked at.
  unfoldable pub receive_bytes :
      Board → UplinkFrameBuffer → List (ℕ × ℕ) → Board × UplinkFrameBuffer
  unfolding on_uplink
  receive_bytes b buffer [] = (b, buffer)
  receive_bytes b buffer ((x, at) ∷ xs) =
      let (buffer', result) = push buffer x in receive_bytes (on_uplink b result at) buffer' xs

  -- A round of `lora_rx_task` in which the UART gave bytes.
  unfoldable pub lora_received :
      Board → UplinkFrameBuffer → List (ℕ × ℕ) → ℕ → Board × UplinkFrameBuffer
  unfolding receive_bytes
  lora_received b buffer xs at =
      receive_bytes
        (record b {
          counters = record b.counters {
            lora_rx_bytes = (b.counters.lora_rx_bytes + length xs) % 2 ^ 32;
          };
          rx_activity = if length xs == 0 then b.rx_activity else some at;
        })
        buffer xs

  -- A round in which the UART gave an error.
  unfoldable pub lora_failed : Board → UplinkFrameBuffer → Board × UplinkFrameBuffer
  lora_failed b buffer = (rx_error b, reset buffer)
