-- ===== src/Board/Steps.antt =====
-- state.rs and the tasks: the shared state as a system that each task moves by one step at a time.
pub mod Safe
use l_comboard.Base.{
  ℕ, ◌≡◌, ◌^◌, ◌%◌, ◌+◌, List, [], Bool, true, false, Option, none, some, AreBytes, replicate,
}
use l_comboard.Base.Result.{Result}
use l_comboard.Can.Protocol.Messages.{CanTxMessage}
use l_comboard.Can.Cache
use l_comboard.Can.Cache.{CanCache, clear_event_flags}
use l_comboard.Can.Command
use l_comboard.Can.Recovery.{idle}
use l_comboard.Lora.Uplink.{UplinkCommand, UplinkFrameBuffer}
use l_comboard.Lora.Uplink
use l_comboard.Lora.Periodic.{GnssTelemetry, GnssReceiverState, Shared}
use l_comboard.Board.Gnss.{
  Position, GnssClock, on_line, obey, misconfigured, on_gga, on_rmc, on_tick, clock_tick,
  gnss_time_response,
}
use l_comboard.Lora.Periodic.Packet.{periodic_packet}
use l_comboard.Board.Channel.{Channels}
use l_comboard.Board.Downlink.{Downlink}
use l_comboard.Board.Power.{PowerTask, new_power_task, power_round}
use l_comboard.Board.Runtime.{CanRuntimeState}
use l_comboard.Board.Stats
use l_comboard.Board.State.{Board, Counters, GnssCommand, RawCanRecord}
use l_comboard.Board.Transmit.{CanTask, transmitted, received, receive_failed, health_tick, publish}
use l_comboard.Board.Frame.{CanTxError}
use l_comboard.Board.Commands.{command_process}
use l_comboard.Board.Uplink.{lora_received, lora_failed}

-- The initial values of state.rs.
abbrev pub new_shared : Shared
new_shared = record {
  sd_has_error = false;
  is_can_error = true;
  logging_requested = false;
  logging_active = false;
  has_unflushed_data = false;
  recovery_beacon_active = false;
  mission_status_invalid_at_ms = 0;
  can_fallback_health = 0;
  mission_link_fallback_sequence = 0;
}

abbrev no_counts : Counters
no_counts = record {
  can_tx_success = 0;
  can_rx_success = 0;
  can_tx_error = 0;
  can_rx_error = 0;
  raw_can_log_dropped = 0;
  lora_rx_bytes = 0;
  lora_rx_success = 0;
  lora_rx_error = 0;
  lora_command_drop = 0;
}

-- `GnssTelemetry::new`
abbrev pub new_gnss : GnssTelemetry
new_gnss = record {
  state = GnssReceiverState.off;
  east = 0x8000;
  north = 0x8000;
  height = 496;
  last_receiver_at_ms = none;
  last_fix_at_ms = none;
  started_at_ms = none;
}

abbrev new_clock : GnssClock
new_clock = record { valid = false; unix_seconds = 0; milliseconds = 0; updated_at_ms = 0 }

abbrev pub new_can_task : CanTask
new_can_task = record {
  runtime_state = CanRuntimeState.awaiting_traffic;
  consecutive_tx_errors = 0;
  consecutive_rx_errors = 0;
  observed = Stats.new;
  health_ticks = 0;
  previous_time_request_id = none;
}

module _ ⦃ch : Channels⦄ where
  open ch use {empty, try_receive}

  abbrev new_downlink : Downlink
  new_downlink = record {
    emergency_results = empty 16;
    command_results = empty 16;
    ground_time_requests = empty 8;
    recovery_frames = empty 16;
    roll_signal = false;
    queue_drops = 0;
    emergency_drops = 0;
    ground_time_drops = 0;
    ground_time_duplicates = 0;
  }

  abbrev pub new_board : Board
  new_board = record {
    cache = Cache.new;
    tracker = Command.new;
    session = none;
    assembler = idle;
    enter_sent = false;
    device_health = replicate 6 0;
    shared = new_shared;
    downlink = new_downlink;
    gnss_commands = empty 2;
    uplink_commands = empty 8;
    can_tx = empty 8;
    can_safety_tx = empty 8;
    raw_can_log = empty 32;
    flush_signal = false;
    rx_activity = none;
    counters = no_counts;
    bus = record { tec = 0; rec = 0; health = 0 };
  }

  -- The shared state, GNSS_TELEMETRY and the clock of the receiver, the request for the time that was
  -- answered last, and what the CAN task, the receiver of the uplink and the task
  -- of the supply voltages keep.
  pub record System : Type 0 where
    pub board : Board
    pub gnss : GnssTelemetry
    pub clock : GnssClock
    pub answered : Option (ℕ × ℕ)
    pub can : CanTask
    pub buffer : UplinkFrameBuffer
    pub power : PowerTask

  abbrev pub new_system : System
  new_system = record {
    board = new_board;
    gnss = new_gnss;
    clock = new_clock;
    answered = none;
    can = new_can_task;
    buffer = Uplink.new;
    power = new_power_task;
  }

  abbrev after_can : System → Board × CanTask → System
  after_can s (b, t) = record s { board = b; can = t }

  abbrev after_uplink : System → Board × UplinkFrameBuffer → System
  after_uplink s (b, u) = record s { board = b; buffer = u }

  abbrev after_power : System → CanCache × PowerTask → System
  after_power s (c, t) = record s { board = record s.board { cache = c }; power = t }

  abbrev after_gnss : System → GnssTelemetry × GnssClock → System
  after_gnss s (g, k) = record s { gnss = g; clock = k }

  abbrev after_time : System → GnssClock × Option (ℕ × ℕ) × ch.Channel CanTxMessage → System
  after_time s (k, answered, q) = record s {
    board = record s.board { can_tx = q };
    clock = k;
    answered = answered;
  }

  -- One step of a task. The tasks hold the locks they take and give way to each other only between
  -- steps; what follows an awaited `send` within a handler is taken to the same step.
  pub data Step (s : System) : System → Type 0 where
    -- can_communication_task: a frame, an error of the driver, a request from either queue with the
    -- outcome of its transmission, the tick, and the end of a round
    receives :
        (identifier : Option ℕ) (xs : List ℕ) (at : ℕ)
        → AreBytes xs
        → Step s (after_can s (received s.board s.can identifier xs at))
    receive_fails :
        (is_bus_off : Bool) → Step s (after_can s (receive_failed s.board s.can is_bus_off))
    transmits_safety :
        (r : Result CanTxError (Unit {0})) (m : CanTxMessage) (q : ch.Channel CanTxMessage)
        → try_receive s.board.can_safety_tx ≡ some (m, q)
        → Step s (after_can s (transmitted (record s.board { can_safety_tx = q }) s.can m r))
    transmits :
        (r : Result CanTxError (Unit {0})) (m : CanTxMessage) (q : ch.Channel CanTxMessage)
        → try_receive s.board.can_tx ≡ some (m, q)
        → Step s (after_can s (transmitted (record s.board { can_tx = q }) s.can m r))
    ticks :
        (tec rec : ℕ) (is_bus_off : Bool)
        → Step s (after_can s (health_tick s.board s.can tec rec is_bus_off))
    publishes :
        (tec rec : ℕ) (is_bus_off : Bool) (now_ms : ℕ)
        → Step s (record s { board = publish s.board s.can tec rec is_bus_off now_ms })
    -- command_process_task
    commands :
        (v : UplinkCommand) (q : ch.Channel UplinkCommand)
        → try_receive s.board.uplink_commands ≡ some (v, q)
        → Step s (record s { board = command_process (record s.board { uplink_commands = q }) v })
    -- lora_rx_task
    hears :
        (xs : List (ℕ × ℕ)) (at : ℕ)
        → Step s (after_uplink s (lora_received s.board s.buffer xs at))
    mishears : Step s (after_uplink s (lora_failed s.board s.buffer))
    -- lora_tx_task: a periodic packet, what the queues are when it took frames from them,
    -- and the events after a packet
    periodic :
        (prefer event_only : Bool) (now_ms : ℕ)
        → Step s (record s {
          board = record s.board {
            shared =
                (periodic_packet prefer event_only s.board.cache now_ms s.gnss s.board.shared).1;
          };
        })
    sends_from_queue :
        (d : Downlink) → Step s (record s { board = record s.board { downlink = d } })
    clears :
        (flags revision : ℕ)
        → Step s (record s {
          board = record s.board { cache = clear_event_flags s.board.cache flags revision };
        })
    -- recovery_power_cache_task
    supplies :
        (now_ms : ℕ)
        → Step s (
            after_power s
              (power_round s.board.cache s.power s.board.shared.recovery_beacon_active now_ms))
    -- gnss_manager_task: a line, a command, and a setting that is refused
    detects : (now_ms : ℕ) → Step s (record s { gnss = on_line s.gnss now_ms })
    obeys :
        (c : GnssCommand) (q : ch.Channel GnssCommand) (is_on : Bool) (now_ms : ℕ)
        → try_receive s.board.gnss_commands ≡ some (c, q)
        → Step s (
            after_gnss
              (record s { board = record s.board { gnss_commands = q } })
              (obey s.gnss s.clock c is_on now_ms))
    misconfigures : (now_ms : ℕ) → Step s (after_gnss s (misconfigured s.gnss s.clock now_ms))
    -- parse_gnss_task: the sentences, and its tick
    locates :
        (parsed : Result (Unit {0}) (Option Position)) (now_ms : ℕ)
        → Step s (record s { gnss = on_gga s.gnss parsed now_ms })
    reads_clock :
        (sentence : List ℕ) (now_ms : ℕ)
        → Step s (record s { clock = on_rmc s.gnss s.clock sentence now_ms })
    looks :
        (now_ms : ℕ)
        → Step s (record s { gnss = on_tick s.gnss now_ms; clock = clock_tick s.clock now_ms })
    -- gnss_time_response_task
    tells_time :
        (now_ms : ℕ)
        → Step s (
            after_time s
              (gnss_time_response s.board.cache s.clock s.answered s.board.can_tx now_ms))
    -- the SD task: a record or the signal that it takes, and the flags that it sets
    logs :
        (r : RawCanRecord) (q : ch.Channel RawCanRecord)
        → try_receive s.board.raw_can_log ≡ some (r, q)
        → Step s (record s { board = record s.board { raw_can_log = q } })
    flushes : Step s (record s { board = record s.board { flush_signal = false } })
    stores :
        (has_error active unflushed : Bool)
        → Step s (record s {
          board = record s.board {
            shared = record s.board.shared {
              sd_has_error = has_error;
              logging_active = active;
              has_unflushed_data = unflushed;
            };
          };
        })

  -- What is reached from the start.
  pub data Reach : System → Type 0 where
    start : Reach new_system
    later : {s t : System} → Reach s → Step s t → Reach t
