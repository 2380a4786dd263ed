-- ===== src/Board/Answers.antt =====
-- tasks/can_communication.rs and tasks/lora_task_base.rs: what is owed to the ground is queued for the
-- radio as a frame that reads as it, or counted as dropped.
pub mod Local
pub mod Queues
pub mod Ground
pub mod Results
use l_comboard.Base.{
  ℕ, All, ◌+◌, ◌≤◌, ◌<◌, ◌≡◌, ◌≢◌, ◌⊎◌, ◌^◌, inl, inr, refl, ap, Bool, true, false, Option, none,
  some, List, [], ◌∷◌, ◌++◌, length, arith, leb, Bool-cases,
}
use l_comboard.Base.Result.{ok, err}
use l_comboard.Can.Protocol.WireEnum.{to_u8}
use l_comboard.Can.Protocol.CommandEnums.{
  CommandPhase, CommandReason, command_phase_wire, command_reason_wire,
}
use l_comboard.Can.Protocol.CommandEnums.{command_phase_to_u8, command_reason_to_u8}
use l_comboard.Can.Protocol.Messages.{CommandResult, command_result}
use l_comboard.Can.Protocol.Wire.{IsWire}
use l_comboard.Lora.Payload.Packets
use l_comboard.Lora.Payload.Packets.{
  header_to_u8, CommandResultPacket, ApplicationPacket, LoraFrame,
}
use l_comboard.Lora.Payload.Writer.Read.{FitsField}
use l_comboard.Lora.Payload.Encode.{encode, fields}
use l_comboard.Lora.Periodic.Sent.{fields_typed}
use l_comboard.Lora.Payload.Encode.Frame.{Framed, encode-Framed}
use l_comboard.Lora.Scheduler.{LoRaTxSource}
use l_comboard.Board.Channel.{Channels, IsFifo}
use l_comboard.Board.Downlink.{
  Downlink, LoRaTxEnvelope, queued, increment, packet_of, queue_command_result,
}

-- The transaction is not the reserved one, and the numbers are those of a `u8` and a `u32`.
pub record IsResult (p : CommandResultPacket) : Type 0 where
  pub owned : p.transaction_id ≢ 0
  pub transaction : p.transaction_id < 256
  pub command : p.command < 256
  pub detail : p.detail < 2 ^ 32

phase_byte : (x : CommandPhase) → to_u8 x < 256
unfolding command_phase_to_u8
phase_byte x = ground arith

reason_byte : (x : CommandReason) → to_u8 x < 256
unfolding command_reason_to_u8
reason_byte x = ground arith

-- A packet has a frame that reads as it.
abbrev pub HasFrame : ApplicationPacket → Type 0
HasFrame p = (f : LoraFrame) × (encode p ≡ ok f) × Framed p f

pub result-HasFrame : (p : CommandResultPacket) → IsResult p → HasFrame (Packets.command_result p)
unfolding fields header_to_u8
result-HasFrame p r =
    let fit : All FitsField (fields (Packets.command_result p)) =
      ground
        (arith, r.transaction, r.command, r.detail, phase_byte p.phase, reason_byte p.reason) in
    encode-Framed (Packets.command_result p) (fields_typed (fields (Packets.command_result p)) fit)
      (record { allowed = r.owned; fit = fit })

-- A result of the bus.
pub wire-IsResult : (r : CommandResult) → IsWire (command_result r) → IsResult (packet_of r)
wire-IsResult r w = record {
  owned = w.fields.0;
  transaction = w.bytes.0;
  command = w.bytes.1.0;
  detail = w.fields.1;
}

pub room_or_full : (n k : ℕ) → (n < k) ⊎ (k ≤ n)
room_or_full n k = ground arith

module _ ⦃ch : Channels⦄ where
  -- From one state of a queue and of its drop counter to the next: with room the queue ends in an
  -- envelope whose frame reads as the packet, and else the drop is counted.
  abbrev pub Offered :
      ApplicationPacket
      → LoRaTxSource
      → ch.Channel LoRaTxEnvelope × ℕ
      → ch.Channel LoRaTxEnvelope × ℕ
      → Type 0
  Offered p source (q, drops) (q', drops') =
      ((length (ch.contents q) < ch.capacity q)
        × (f : LoraFrame) × Framed p f
        × (ch.contents q' ≡ ch.contents q ++ queued f source ∷ [])
        × (drops' ≡ drops))
      ⊎ ((ch.capacity q ≤ length (ch.contents q)) × (q' ≡ q) × (drops' ≡ increment drops))

  -- The answers: the queue of the results with the counter.
  abbrev pub answers : Downlink → ch.Channel LoRaTxEnvelope × ℕ
  answers d = (d.command_results, d.queue_drops)

  pub queue_command_result-Offered :
      (d : Downlink) (p : CommandResultPacket)
      → IsFifo ch
      → IsResult p
      → Offered
          (Packets.command_result p)
          LoRaTxSource.command_result
          (answers d)
          (answers (queue_command_result d p))
  unfolding queue_command_result
  queue_command_result-Offered d p fifo r =
      let (f, e, framed) = result-HasFrame p r in
      let q = d.command_results in
      elim (room_or_full (length (ch.contents q)) (ch.capacity q)) [
        | inl room ↦
            let (q', sent, more, _) =
              fifo.send_room q (queued f LoRaTxSource.command_result) room in
            rw (e, sent, queue_command_result) (inl (room, f, framed, more, refl))
        | inr full ↦
            let refused = fifo.send_full q (queued f LoRaTxSource.command_result) full in
            rw (e, refused, queue_command_result) (inr (full, refl, refl))
      ]
