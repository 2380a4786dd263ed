-- ===== src/Board/Steps/Safe.antt =====
-- state.rs and the tasks: what holds of the shared state whatever the tasks do.
use l_comboard.Base.{ℕ, refl, Bool, false, arith}
use l_comboard.Lora.Periodic.Packet.{periodic_packet}
use l_comboard.Lora.Periodic.Sent.{Sends, periodic_packet-Sends}
use l_comboard.Lora.Periodic.Kept.{periodic_packet-IsShared}
use l_comboard.Lora.Periodic.Fits.{IsGnss}
use l_comboard.Can.Cache.Held.{new-IsCache, clear_event_flags-IsCache}
use l_comboard.Can.Command.Invariant.{new-IsValid}
use l_comboard.Can.Recovery.{idle}
use l_comboard.Can.Recovery.Buffer.{IsBuffer}
use l_comboard.Board.Channel.{Channels}
use l_comboard.Board.Power.Age.{IsSnapshot, new-IsSnapshot, power_round-IsCache}
use l_comboard.Board.Invariant.{IsBoard}
use l_comboard.Board.Invariant.Transmit.{
  transmitted-IsBoard, received-IsBoard, health_tick-IsBoard, publish-IsBoard,
}
use l_comboard.Board.Invariant.Commands.{command_process-IsBoard, lora_received-IsBoard}
use l_comboard.Board.Transmit.{receive_failed}
use l_comboard.Board.Uplink.{lora_failed}
use l_comboard.Lora.Periodic.{GnssReceiverState}
use l_comboard.Board.Gnss.Safe.{
  on_line-IsGnss, obey-IsGnss, set_receiver_state-IsGnss, on_gga-IsGnss, on_tick-IsGnss,
}
use l_comboard.Board.Steps.{
  System, new_system, Step, receives, receive_fails, transmits_safety, transmits, ticks, publishes,
  commands, hears, mishears, periodic, sends_from_queue, clears, supplies, locates, stores, Reach,
  detects, obeys, misconfigures, reads_clock, looks, tells_time, logs, flushes, start, later,
}

-- The shared state is well formed, the position fits the packets, and the held voltages fit a frame.
abbrev pub IsSystem : ⦃ch : Channels⦄ → System → Type 0
IsSystem s = IsBoard s.board × IsGnss s.gnss × IsSnapshot s.power

module _ ⦃ch : Channels⦄ where
  idle-IsBuffer : IsBuffer idle
  unfolding idle
  idle-IsBuffer = record { room = omega arith; size = refl }

  new-IsSystem : IsSystem new_system
  new-IsSystem = (
    (
      new-IsCache,
      new-IsValid,
      idle-IsBuffer,
      record { health = omega arith; sequence = omega arith },
    ),
    record { east = omega arith; north = omega arith; height = omega arith },
    new-IsSnapshot,
  )

  step-IsSystem : {s t : System} → Step s t → IsSystem s → IsSystem t
  unfolding receive_failed lora_failed
  step-IsSystem {s} (receives identifier xs at w) (b, g, p) =
      (received-IsBoard s.board s.can identifier xs at w b, g, p)
  step-IsSystem (receive_fails off) h = h
  step-IsSystem {s} (transmits_safety r m q e) (b, g, p) =
      (transmitted-IsBoard (record s.board { can_safety_tx = q }) s.can m r b, g, p)
  step-IsSystem {s} (transmits r m q e) (b, g, p) =
      (transmitted-IsBoard (record s.board { can_tx = q }) s.can m r b, g, p)
  step-IsSystem {s} (ticks tec rec off) (b, g, p) =
      (health_tick-IsBoard s.board s.can tec rec off b, g, p)
  step-IsSystem {s} (publishes tec rec off now) (b, g, p) =
      (publish-IsBoard s.board s.can tec rec off now b, g, p)
  step-IsSystem {s} (commands v q e) (b, g, p) =
      (command_process-IsBoard (record s.board { uplink_commands = q }) v b, g, p)
  step-IsSystem {s} (hears xs at) (b, g, p) = (lora_received-IsBoard s.board s.buffer xs at b, g, p)
  step-IsSystem mishears h = h
  step-IsSystem {s} (periodic prefer event_only now) ((c, t, a, i), g, p) = (
    (c, t, a, periodic_packet-IsShared prefer event_only s.board.cache now s.gnss s.board.shared i),
    g,
    p,
  )
  step-IsSystem (sends_from_queue d) h = h
  step-IsSystem {s} (clears flags revision) ((c, t, a, i), g, p) =
      ((clear_event_flags-IsCache s.board.cache flags revision c, t, a, i), g, p)
  step-IsSystem {s} (supplies now) ((c, t, a, i), g, p) =
      let (c', p') =
        power_round-IsCache s.board.cache s.power s.board.shared.recovery_beacon_active now c p in
      ((c', t, a, i), g, p')
  step-IsSystem {s} (detects now) (b, g, p) = (b, on_line-IsGnss s.gnss now g, p)
  step-IsSystem {s} (obeys c q is_on now e) (b, g, p) =
      (b, obey-IsGnss s.gnss s.clock c is_on now g, p)
  step-IsSystem {s} (misconfigures now) (b, g, p) =
      (b, set_receiver_state-IsGnss s.gnss GnssReceiverState.configuration_failed now g, p)
  step-IsSystem {s} (locates parsed now) (b, g, p) = (b, on_gga-IsGnss s.gnss parsed now g, p)
  step-IsSystem (reads_clock sentence now) h = h
  step-IsSystem {s} (looks now) (b, g, p) = (b, on_tick-IsGnss s.gnss now g, p)
  step-IsSystem (tells_time now) h = h
  step-IsSystem (logs r q e) h = h
  step-IsSystem flushes h = h
  step-IsSystem (stores x y z) ((c, t, a, i), g, p) =
      ((c, t, a, record { health = i.health; sequence = i.sequence }), g, p)

  -- In every state that the tasks can reach from the start, in whatever order they run and whatever the
  -- bus, the radio and the driver give them, the cache holds only telemetry that a frame can carry,
  -- the tracker of the commands is valid, the assembler has room in its buffer of 16 bytes, and the
  -- health and the sequence number fit the fallback packet.
  pub Reach-IsSystem : {s : System} → Reach s → IsSystem s
  Reach-IsSystem start = new-IsSystem
  Reach-IsSystem (later r step) = step-IsSystem step (Reach-IsSystem r)

  -- In every reached state, and at any time, a periodic slot that is not restricted to the roll has a packet whose
  -- frame is well formed and reads as that packet.
  pub Reach-Sends :
      {s : System} (prefer : Bool) (now : ℕ)
      → Reach s
      → Sends (periodic_packet prefer false s.board.cache now s.gnss s.board.shared).0
  Reach-Sends {s} prefer now r =
      let ((c, t, a, i), g, p) = Reach-IsSystem r in
      periodic_packet-Sends prefer s.board.cache now s.gnss s.board.shared c g i
