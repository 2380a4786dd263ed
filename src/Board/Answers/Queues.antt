-- ===== src/Board/Answers/Queues.antt =====
-- tasks/can_communication.rs: the requests for the ground's time, and the chunks of a log.
use l_comboard.Base.{
  ℕ, ◌≤◌, [], ◌∷◌, ◌++◌, length, ◌≡◌, ◌⊎◌, inl, inr, refl, ap, ◌∙◌, Bool, true, false, Option, none,
  some, if◌then◌else◌,
}
use l_comboard.Base.Result.{Result, ok, err, Result-cases}
use l_comboard.Can.Protocol.CommandEnums.{CommandReason}
use l_comboard.Can.Protocol.Messages.{RecoveryLogData, CanTxMessage}
use l_comboard.Can.Recovery.{
  RecoverySession, RecoveryResume, RecoveryAssembler, RecoveryChunk, RecoveryAssemblyError, push,
  abort, fail, same_source,
}
use l_comboard.Can.Protocol.RecoveryEnums.{RecoverySource}
use l_comboard.Lora.Payload.Packets
use l_comboard.Lora.Payload.Packets.{ApplicationPacket, LoraFrame}
use l_comboard.Lora.Payload.Writer.{EncodeError}
use l_comboard.Lora.Payload.Encode.{encode}
use l_comboard.Lora.Scheduler.{LoRaTxSource}
use l_comboard.Board.Channel.{Channels, IsFifo}
use l_comboard.Board.Downlink.{Downlink, queued, queue_recovery_chunk}
use l_comboard.Board.Answers.{room_or_full}
use l_comboard.Board.State.{Board}
use l_comboard.Board.Transfer.{
  on_log_data, on_assembly, fail_recovery_transfer, keep_safety, request_stop,
}

module _ ⦃ch : Channels⦄ where
  -- The transfer is over on this side: nothing is assembled, and no request waits for the mission.
  abbrev pub IsStopped : Board → Type 0
  IsStopped b = (b.assembler.active ≡ false) × (b.session ≡ none)

  fail-none : (s : RecoverySession) (r : CommandReason) (n : ℕ) → (fail s r n).0 ≡ none
  unfolding fail
  fail-none none r n = refl
  fail-none (some p) r n = refl

  kept-assembler :
      (b : Board) (o : Option (ch.Channel CanTxMessage)) → (keep_safety b o).assembler ≡ b.assembler
  kept-assembler b none = refl
  kept-assembler b (some q) = refl

  request_stop-assembler :
      (b : Board) (o : Option RecoveryResume) → (request_stop b o).assembler ≡ b.assembler
  unfolding request_stop
  request_stop-assembler b none = refl
  request_stop-assembler b (some r) = kept-assembler b (ch.try_send b.can_safety_tx _)

  if_assembler :
      (c : Bool) (x y : Board)
      → x.assembler ≡ y.assembler
      → (if c then x else y).assembler ≡ y.assembler
  if_assembler true x y e = e
  if_assembler false x y e = refl

  abort-active : (a : RecoveryAssembler) → (abort a).0.active ≡ false
  unfolding abort
  abort-active a = refl

  -- Whatever stops a transfer stops both sides of it here.
  fail_recovery_transfer-IsStopped :
      (b : Board) (r : CommandReason) (stop : Bool) → IsStopped (fail_recovery_transfer b r stop)
  unfolding fail_recovery_transfer
  fail_recovery_transfer-IsStopped b r stop =
      let b1 : Board = record b { assembler = (abort b.assembler).0 } in
      let e =
        if_assembler stop (request_stop b1 (abort b.assembler).1) b1
          (request_stop-assembler b1 (abort b.assembler).1) in
      (ap (λ (a : RecoveryAssembler). a.active) e ∙ abort-active b.assembler, fail-none _ r _)

  -- The packet of a chunk.
  abbrev pub log_packet : RecoveryChunk → ApplicationPacket
  log_packet c = Packets.recovery_log_data (record {
    transfer_id = c.transfer_id;
    source = same_source c.source RecoverySource.mission_sd_latest_flight;
    end_of_file = c.end_of_file;
    offset = c.offset;
    data_length = c.data_length;
    log_data = c.bytes;
  })

  -- The frame of the chunk's packet is put at the end of the queue of the log.
  abbrev pub IsAppended : Downlink → RecoveryChunk → Downlink → Type 0
  IsAppended d c d' =
      (f : LoraFrame) × (encode (log_packet c) ≡ ok f)
      × (ch.contents d'.recovery_frames
          ≡ ch.contents d.recovery_frames ++ queued f LoRaTxSource.recovery ∷ [])

  -- The queue of the log is full, or the chunk has no frame.
  abbrev pub IsUnsent : Downlink → RecoveryChunk → Type 0
  IsUnsent d c =
      (ch.capacity d.recovery_frames ≤ length (ch.contents d.recovery_frames))
      ⊎ ((e : EncodeError) × (encode (log_packet c) ≡ err e))

  queue_recovery_chunk_cases :
      (d : Downlink) (c : RecoveryChunk)
      → IsFifo ch
      → (((queue_recovery_chunk d c).1 ≡ true) × IsAppended d c (queue_recovery_chunk d c).0)
        ⊎ (((queue_recovery_chunk d c).1 ≡ false) × IsUnsent d c)
  unfolding queue_recovery_chunk
  queue_recovery_chunk_cases d c fifo =
      let q = d.recovery_frames in
      elim (Result-cases (encode (log_packet c))) [
        | inr (e, failed) ↦ rw (failed, queue_recovery_chunk) (inr (refl, inr (e, refl)))
        | inl (f, e) ↦ elim (room_or_full (length (ch.contents q)) (ch.capacity q)) [
          | inl room ↦
              let (q', sent, more, _) = fifo.send_room q (queued f LoRaTxSource.recovery) room in
              rw (e, sent, queue_recovery_chunk) (inl (refl, (f, refl, more)))
          | inr full ↦
              let refused = fifo.send_full q (queued f LoRaTxSource.recovery) full in
              rw (e, refused, queue_recovery_chunk) (inr (refl, inl full))
        ]
      ]

  -- The answer of the assembler by what follows it: nothing, a frame in the queue, or the end.
  abbrev pub IsHandled :
      Board → Result RecoveryAssemblyError (Option RecoveryChunk) → Board → Type 0
  IsHandled b r b' =
      ((r ≡ ok none) × (b' ≡ b))
      ⊎ (((c : RecoveryChunk) × (r ≡ ok (some c))
            × IsAppended b.downlink c b'.downlink
            × (b' ≡ record b { downlink = b'.downlink }))
          ⊎ (IsStopped b'
              × (((e : RecoveryAssemblyError) × (r ≡ err e))
                  ⊎ ((c : RecoveryChunk) × (r ≡ ok (some c)) × IsUnsent b.downlink c))))

  on_assembly_cases :
      (b : Board) (r : Result RecoveryAssemblyError (Option RecoveryChunk))
      → IsFifo ch
      → IsHandled b r (on_assembly b r)
  unfolding on_assembly
  on_assembly_cases b (err e) fifo =
      inr
        (inr (fail_recovery_transfer-IsStopped b CommandReason.protocol_error true, inl (e, refl)))
  on_assembly_cases b (ok none) fifo = inl (refl, refl)
  on_assembly_cases b (ok (some c)) fifo = elim (queue_recovery_chunk_cases b.downlink c fifo) [
    | inl (e, appended) ↦
        inr (inl (c, refl, rw (e, on_assembly) appended, rw (e, on_assembly) refl))
    | inr (e, unsent) ↦ inr (
        inr (
          rw (e, on_assembly)
              (fail_recovery_transfer-IsStopped
                (record b { downlink = (queue_recovery_chunk b.downlink c).0 })
                CommandReason.internal_error true),
          inr (c, refl, unsent),
        ))
  ]

  -- A fragment of a log never leaves a hole in the downlink: either it is only taken into the
  -- assembler, or the frame of the chunk that it completes is put at the end of the queue of the log, or,
  -- where the assembler refuses it, the queue is full or the chunk has no frame, the transfer is stopped, with
  -- nothing assembled and no request that waits.
  pub on_log_data_cases :
      (b : Board) (f : RecoveryLogData)
      → IsFifo ch
      → IsHandled
          (record b { assembler = (push b.assembler f).0 })
          (push b.assembler f).1
          (on_log_data b f)
  unfolding on_log_data
  on_log_data_cases b f fifo =
      on_assembly_cases (record b { assembler = (push b.assembler f).0 }) (push b.assembler f).1
        fifo
