-- ===== src/Board/Answers/Results.antt =====
-- tasks/can_communication.rs: every result that the mission sends goes on to the ground.
use l_comboard.Base.{
  ℕ, arith, ◌≡◌, ◌⊎◌, inl, inr, refl, Bool, true, false, Option, length, Bool-cases,
}
use l_comboard.Can.Protocol.Messages.{CommandResult, command_result}
use l_comboard.Can.Protocol.Wire.{IsWire}
use l_comboard.Can.Protocol.Encode.{
  is_emergency_result_command, prioritize_untracked_emergency_result,
}
use l_comboard.Can.Cache.{update}
use l_comboard.Can.Command.{apply_result}
use l_comboard.Lora.Payload.Packets
use l_comboard.Lora.Scheduler.{LoRaTxSource}
use l_comboard.Board.Channel.{Channels, IsFifo}
use l_comboard.Board.Downlink.{
  Downlink, LoRaTxEnvelope, queued, packet_of, queue_emergency_result, queue_command_result,
}
use l_comboard.Board.State.{Board}
use l_comboard.Board.Received.{
  on_command_result, apply_update, apply_received_message, signal_control_roll,
}
use l_comboard.Board.Answers.{
  IsResult, Offered, answers, result-HasFrame, wire-IsResult, room_or_full,
  queue_command_result-Offered,
}

module _ ⦃ch : Channels⦄ where
  -- The results of an emergency stop: their queue with the counter.
  abbrev pub emergencies : Downlink → ch.Channel LoRaTxEnvelope × ℕ
  emergencies d = (d.emergency_results, d.queue_drops)

  queue_emergency_result-Offered :
      (d : Downlink) (r : CommandResult)
      → IsFifo ch
      → IsResult (packet_of r)
      → Offered
          (Packets.command_result (packet_of r))
          LoRaTxSource.emergency_result
          (emergencies d)
          (emergencies (queue_emergency_result d r))
  unfolding queue_emergency_result
  queue_emergency_result-Offered d r fifo h =
      let (f, e, framed) = result-HasFrame (packet_of r) h in
      let q = d.emergency_results in
      elim (room_or_full (length (ch.contents q)) (ch.capacity q)) [
        | inl room ↦
            let (q', sent, more, _) =
              fifo.send_room q (queued f LoRaTxSource.emergency_result) room in
            rw (e, sent, queue_emergency_result) (inl (room, f, framed, more, refl))
        | inr full ↦
            let refused = fifo.send_full q (queued f LoRaTxSource.emergency_result) full in
            rw (e, refused, queue_emergency_result) (inr (full, refl, refl))
      ]

  -- No command waits for the result, and it is that of one of the two emergency stops.
  abbrev pub IsUrgent : Bool → CommandResult → Type 0
  IsUrgent matched r = (matched ≡ false) × ((r.command ≡ 0xf0) ⊎ (r.command ≡ 0xf1))

  -- An urgent result is offered to the queue of the emergencies, and each other one to that of the results; the
  -- other queue stays as it is.
  abbrev pub IsPassedOn : Bool → Downlink → CommandResult → Downlink → Type 0
  IsPassedOn matched d r d' =
      (IsUrgent matched r
        × (d'.command_results ≡ d.command_results)
        × Offered (Packets.command_result (packet_of r)) LoRaTxSource.emergency_result
            (emergencies d) (emergencies d'))
      ⊎ ((¬ (IsUrgent matched r))
          × (d'.emergency_results ≡ d.emergency_results)
          × Offered (Packets.command_result (packet_of r)) LoRaTxSource.command_result (answers d)
              (answers d'))

  urgent :
      (matched : Bool) (r : CommandResult)
      → prioritize_untracked_emergency_result matched r.command ≡ true
      → IsUrgent matched r
  unfolding prioritize_untracked_emergency_result is_emergency_result_command
  urgent matched r h = ground (arith, h)

  not_urgent :
      (matched : Bool) (r : CommandResult)
      → prioritize_untracked_emergency_result matched r.command ≡ false
      → ¬ (IsUrgent matched r)
  unfolding prioritize_untracked_emergency_result is_emergency_result_command
  not_urgent matched r h = ground (arith, h)

  emergency_keeps :
      (d : Downlink) (r : CommandResult)
      → (queue_emergency_result d r).command_results ≡ d.command_results
  unfolding queue_emergency_result
  emergency_keeps d r = ground arith

  result_keeps :
      (d : Downlink) (p : Packets.CommandResultPacket)
      → (queue_command_result d p).emergency_results ≡ d.emergency_results
  unfolding queue_command_result
  result_keeps d p = ground arith

  on_command_result-IsPassedOn :
      (b : Board) (r : CommandResult)
      → IsFifo ch
      → IsResult (packet_of r)
      → IsPassedOn (apply_result b.tracker r).1 b.downlink r (on_command_result b r).downlink
  unfolding on_command_result
  on_command_result-IsPassedOn b r fifo h =
      elim (Bool-cases
        (prioritize_untracked_emergency_result (apply_result b.tracker r).1 r.command)) [
          | inl e ↦
              rw (e, on_command_result)
                (inl (
                  urgent (apply_result b.tracker r).1 r e,
                  emergency_keeps b.downlink r,
                  queue_emergency_result-Offered b.downlink r fifo h,
                ))
          | inr e ↦
              rw (e, on_command_result)
                (inr (
                  not_urgent (apply_result b.tracker r).1 r e,
                  result_keeps b.downlink (packet_of r),
                  queue_command_result-Offered b.downlink (packet_of r) fifo h,
                ))
        ]

  -- A result that a frame of the bus can carry is passed on to the ground. Exactly if no pending command
  -- waits for it and it answers an emergency stop, 0xf0 or 0xf1, it goes to the queue of the
  -- emergencies, and else to that of the results, while the other of the two queues stays as it is: its frame
  -- is put at the end of its queue, or that queue is full and the drop is counted.
  pub command_result-IsPassedOn :
      (b : Board) (r : CommandResult) (at : ℕ) (previous : Option ℕ)
      → IsFifo ch
      → IsWire (command_result r)
      → IsPassedOn
          (apply_result b.tracker r).1
          b.downlink
          r
          (apply_received_message b (command_result r) at previous).0.downlink
  unfolding apply_received_message apply_update signal_control_roll update
  command_result-IsPassedOn b r at previous fifo w =
      on_command_result-IsPassedOn (record b { cache = (update b.cache (command_result r) at).0 }) r
        fifo (wire-IsResult r w)
