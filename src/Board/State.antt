-- ===== src/Board/State.antt =====
-- state.rs: what the tasks share.
use l_comboard.Base.{ℕ, List, Bool, Option}
use l_comboard.Can.Protocol.Messages.{CanTxMessage}
use l_comboard.Can.Cache.{CanCache}
use l_comboard.Can.Command.{TransactionTracker}
use l_comboard.Can.Recovery.{RecoverySession, RecoveryAssembler}
use l_comboard.Lora.Uplink.{UplinkCommand}
use l_comboard.Lora.Periodic.{Shared}
use l_comboard.Board.Channel.{Channels}
use l_comboard.Board.Downlink.{Downlink}

pub data GnssCommand : Type 0 where
  turn_on turn_off : GnssCommand

-- The field `data` is `bytes`.
pub record RawCanRecord : Type 0 where
  pub received_at_ms : ℕ
  pub identifier : ℕ
  pub data_length : ℕ
  pub bytes : List ℕ

-- The counters of the CAN and of the uplink.
pub record Counters : Type 0 where
  pub can_tx_success : ℕ
  pub can_rx_success : ℕ
  pub can_tx_error : ℕ
  pub can_rx_error : ℕ
  pub raw_can_log_dropped : ℕ
  pub lora_rx_bytes : ℕ
  pub lora_rx_success : ℕ
  pub lora_rx_error : ℕ
  pub lora_command_drop : ℕ

-- The error counters of the CAN controller and its health, as published.
pub record BusHealth : Type 0 where
  pub tec : ℕ
  pub rec : ℕ
  pub health : ℕ

-- CanTxRequest is its message. `device_health` are the six MISSION_*_STATE and SEQUENCE atomics,
-- sequence first; `shared` are the atomics that the periodic packets read; `flush_signal` is whether
-- SD_FLUSH_SIGNAL is raised, and `rx_activity` the time in LORA_RX_ACTIVITY_SIGNAL.
pub record Board ⦃ch : Channels⦄ : Type 0 where
  pub cache : CanCache
  pub tracker : TransactionTracker
  pub session : RecoverySession
  pub assembler : RecoveryAssembler
  pub enter_sent : Bool
  pub device_health : List ℕ
  pub shared : Shared
  pub downlink : Downlink
  pub gnss_commands : ch.Channel GnssCommand
  pub uplink_commands : ch.Channel UplinkCommand
  pub can_tx : ch.Channel CanTxMessage
  pub can_safety_tx : ch.Channel CanTxMessage
  pub raw_can_log : ch.Channel RawCanRecord
  pub flush_signal : Bool
  pub rx_activity : Option ℕ
  pub counters : Counters
  pub bus : BusHealth
