-- ===== src/Board/Answers/Ground.antt =====
-- tasks/can_communication.rs: the requests for the ground's time replace the oldest when there is no
-- room.
use l_comboard.Base.{
  ℕ, ◌≡◌, ◌⊎◌, ◌≤◌, ◌<◌, inl, inr, refl, false, Option, some, List, [], ◌∷◌, ◌++◌, ◌∙◌, ap, length,
  length-append, arith, Bool-cases, is_value, All,
}
use l_comboard.Base.Result.{ok}
use l_comboard.Lora.Payload.Packets
use l_comboard.Lora.Payload.Packets.{LoraFrame, header_to_u8}
use l_comboard.Lora.Payload.Writer.Read.{FitsField}
use l_comboard.Lora.Payload.Encode.{encode, fields}
use l_comboard.Lora.Payload.Encode.Frame.{Framed, encode-Framed}
use l_comboard.Lora.Periodic.Sent.{fields_typed}
use l_comboard.Lora.Scheduler.{LoRaTxSource, ground_time_queue_action, replace_oldest}
use l_comboard.Board.Channel.{Channels, IsFifo}
use l_comboard.Board.Downlink.{
  Downlink, LoRaTxEnvelope, queued, queue_ground_time_request, make_room, send_ground_time,
  admit_ground_time,
}
use l_comboard.Board.Answers.{HasFrame}

request-HasFrame : (id : ℕ) → id < 256 → HasFrame (Packets.ground_time_request id)
unfolding fields header_to_u8
request-HasFrame id h =
    let fit : All FitsField (fields (Packets.ground_time_request id)) = ground (arith, h) in
    encode-Framed (Packets.ground_time_request id)
      (fields_typed (fields (Packets.ground_time_request id)) fit)
      (record { allowed = tt; fit = fit })

-- What is left of a queue that had to make room: all of it, or all but its oldest.
abbrev pub Remains {ℓ} : {A : Type ℓ} → List A → List A → Type ℓ
Remains {A = A} xs kept = (kept ≡ xs) ⊎ ((x : A) × (xs ≡ x ∷ kept))

module _ ⦃ch : Channels⦄ where
  -- The queue holds at most what it has room for, and has room for one.
  abbrev pub IsBounded : ch.Channel LoRaTxEnvelope → Type 0
  IsBounded q = (0 < ch.capacity q) × (length (ch.contents q) ≤ ch.capacity q)

  -- The request is the last in the queue, in a frame that reads as it, behind what remains.
  abbrev pub IsLast : Downlink → ℕ → Downlink → Type 0
  IsLast d id d' =
      (kept : List LoRaTxEnvelope) × (f : LoraFrame) × Framed (Packets.ground_time_request id) f
      × Remains (ch.contents d.ground_time_requests) kept
      × (ch.contents d'.ground_time_requests
          ≡ kept ++ queued f LoRaTxSource.ground_time_request ∷ [])
      × (length (ch.contents d'.ground_time_requests) ≤ ch.capacity d'.ground_time_requests)

  send_ground_time_lem :
      (d : Downlink) (f : LoraFrame) (id : ℕ) (previous : Option ℕ)
      → IsFifo ch
      → length (ch.contents d.ground_time_requests) < ch.capacity d.ground_time_requests
      → let (d', previous') = send_ground_time d f id previous in
        (previous' ≡ some id)
        × (ch.contents d'.ground_time_requests
            ≡ ch.contents d.ground_time_requests ++ queued f LoRaTxSource.ground_time_request ∷ [])
        × (ch.capacity d'.ground_time_requests ≡ ch.capacity d.ground_time_requests)
  unfolding send_ground_time
  send_ground_time_lem d f id previous fifo room =
      let (q, e, more, same) =
        fifo.send_room d.ground_time_requests (queued f LoRaTxSource.ground_time_request) room in
      rw (e, send_ground_time) (refl, more, same)

  -- The end of a request, once there is room.
  placed :
      (d e : Downlink) (id : ℕ) (previous : Option ℕ) (kept : List LoRaTxEnvelope)
      → IsFifo ch
      → id < 256
      → Remains (ch.contents d.ground_time_requests) kept
      → ch.contents e.ground_time_requests ≡ kept
      → length kept < ch.capacity e.ground_time_requests
      → (f : LoraFrame) × (encode (Packets.ground_time_request id) ≡ ok f)
        × ((send_ground_time e f id previous).1 ≡ some id)
        × IsLast d id (send_ground_time e f id previous).0
  placed d e id previous kept fifo small remains c room =
      let (f, encoded, framed) = request-HasFrame id small in
      let (next, more, same) =
        send_ground_time_lem e f id previous fifo (omega (arith, ap length c, room)) in
      let list = more ∙ ap (λ xs. xs ++ queued f LoRaTxSource.ground_time_request ∷ []) c in
      (
        f,
        encoded,
        next,
        (
          kept,
          f,
          framed,
          remains,
          list,
          omega (
            arith,
            ap length list,
            length-append kept (queued f LoRaTxSource.ground_time_request ∷ []),
            same,
            room,
          ),
        ),
      )

  full_queue :
      (d : Downlink) (id : ℕ) (previous : Option ℕ) (xs : List LoRaTxEnvelope)
      → IsFifo ch
      → IsBounded d.ground_time_requests
      → id < 256
      → ch.contents d.ground_time_requests ≡ xs
      → ch.capacity d.ground_time_requests ≤ length xs
      → let (d', p') = admit_ground_time d id previous replace_oldest in
        (p' ≡ some id) × IsLast d id d'
  unfolding admit_ground_time make_room
  full_queue d id previous [] fifo bound small c full = absurd (omega (arith, bound.0, full))
  full_queue d id previous (x ∷ xs) fifo bound small c full =
      let (q, e, rest, same) = fifo.receive_next d.ground_time_requests x xs c in
      let (f, encoded, p, z) =
        placed d (make_room d replace_oldest) id previous xs fifo small (inr (x, c))
          (rw (e, make_room) rest)
          (rw (e, make_room) (omega (arith, same, ap length c, bound.1))) in
      rw (encoded, admit_ground_time) (p, z)

  -- Where the queue of the requests obeys its capacity, a request that is not the previous one
  -- becomes the last in the queue, in a frame that reads as it, and is the previous one from then on: no
  -- request in the queue is lost but the oldest, and the queue still obeys its capacity.
  pub queue_ground_time_request_lem :
      (d : Downlink) (id : ℕ) (previous : Option ℕ)
      → IsFifo ch
      → IsBounded d.ground_time_requests
      → id < 256
      → is_value previous id ≡ false
      → let (d', previous') = queue_ground_time_request d id previous in
        (previous' ≡ some id) × IsLast d id d'
  unfolding queue_ground_time_request ground_time_queue_action
  queue_ground_time_request_lem d id previous fifo bound small new =
      elim (Bool-cases (ch.is_full d.ground_time_requests)) [
        | inl full ↦
            rw (new, full)
              (full_queue d id previous _ fifo bound small refl
                ((fifo.full_iff d.ground_time_requests).0 full))
        | inr room ↦
            let h : length (ch.contents d.ground_time_requests)
                < ch.capacity d.ground_time_requests =
              ground (arith, fifo.full_iff d.ground_time_requests) in
            let (f, e, p, z) = placed d d id previous _ fifo small (inl refl) refl h in
            rw (new, room) (rw (e, admit_ground_time) (p, z))
      ]
