-- ===== src/Lora/Payload/Encode/Frame.antt =====
-- payload.rs: the frames of the packets, read field by field.
use Prim.Native.Nat.{bit_and}
use l_comboard.Base.{
  ℕ, suc, ◌+◌, ◌*◌, ◌/◌, ◌%◌, ◌^◌, ◌≤◌, ◌<◌, ◌≡◌, ◌≢◌, ◌↔◌, ◌⊎◌, inl, inr, refl, ap, ◌∙◌, List, [],
  ◌∷◌, ◌++◌, map, length, take, drop, take-set, get_or-take, length-take, length-append, arith, All,
}
use l_comboard.Base.Bits.{bit}
use l_comboard.Base.Result.{ok, Result-cases}
use l_comboard.Lora.Checksum.{xor_checksum, xor_checksum-closed}
use l_comboard.Lora.Payload.Packets.{
  PacketHeader, ApplicationPacket, command_receive, flight, descent, recovery_beacon,
  mission_link_fallback, recovery_log_data, command_result, ground_time_request,
  control_roll_telemetry_v2, LoraFrame,
}
use l_comboard.Lora.Payload.Writer.{BitWriter, new, write_all, byte_length}
use l_comboard.Lora.Payload.Writer.Bits.{bit_at}
use l_comboard.Lora.Payload.Writer.Read.{
  FitsField, widths, total, read_fields-cong, AllWritten, write_all-AllWritten, write_all-fits,
  new-IsWriter,
}
use l_comboard.Lora.Payload.Encode.Layout.{layout, Holds, fields-Holds}
use l_comboard.Lora.Payload.Encode.{admit, fields, finish, encode, as_bytes}

-- `data` is an array of 16, the other numbers are those of a `u32`.
abbrev pub Typed : ApplicationPacket → Type 0
Typed (recovery_log_data v) =
    (length v.log_data ≡ 16) × All (λ f. f.0 < 2 ^ 32) (fields (recovery_log_data v))
Typed p = All (λ f. f.0 < 2 ^ 32) (fields p)

-- What a packet obeys beside fitting its places: a flight packet has a header of the flight, the
-- numbers of a fallback and of a log are in their ranges, a result has a transaction, and the flags of
-- a roll agree with its counts.
abbrev pub Allowed : ApplicationPacket → Type 0
Allowed (flight v) =
    (v.header ≡ PacketHeader.liftoff_detection)
    ⊎ ((v.header ≡ PacketHeader.engine_burn) ⊎ (v.header ≡ PacketHeader.control))
Allowed (mission_link_fallback v) =
    (v.primary_loss_reason ≤ 7)
    × (bit_and v.status_flags 0x8000 ≡ 0)
    × ((v.last_valid_mission_state ≤ 4) ⊎ (v.last_valid_mission_state ≡ 255))
    × (v.gnss_state ≤ 8)
    × (v.height < 512)
    × (v.can_health ≤ 6)
Allowed (recovery_log_data v) = (v.offset < 2 ^ 24) × (v.data_length ≤ 16)
Allowed (command_result v) = v.transaction_id ≢ 0
Allowed (control_roll_telemetry_v2 v) =
    (bit_and v.flags 0xe0 ≡ 0)
    × ((v.control_roll_reference_unwrapped_raw ≡ 0x800a) ↔ (bit_and v.flags 0x08 ≢ 0))
    × ((v.roll_deviation_unwrapped_raw ≡ 0x800a) ↔ (bit_and v.flags 0x10 ≢ 0))
Allowed p = Unit

admit_iff : (p : ApplicationPacket) → (admit p ≡ ok tt) ↔ Allowed p
unfolding admit
admit_iff (flight v) = ground arith
admit_iff (mission_link_fallback v) = ground arith
admit_iff (recovery_log_data v) = ground arith
admit_iff (command_result v) = ground arith
admit_iff (control_roll_telemetry_v2 v) = ground arith
admit_iff p = ground arith

-- The packet is allowed, and each number fits its place.
pub record IsPacket (p : ApplicationPacket) : Type 0 where
  pub allowed : Allowed p
  pub fit : All FitsField (fields p)

total-bytes : (xs : List ℕ) → total (widths (map (λ byte. (byte, 8)) xs)) ≡ length xs * 8
total-bytes [] = refl
total-bytes (x ∷ xs) = omega (arith, total-bytes xs)

-- A packet has at most 23 bytes.
total-fields : (p : ApplicationPacket) → Typed p → total (widths (fields p)) ≤ 184
unfolding fields
total-fields (command_receive v) t = omega arith
total-fields (flight v) t = omega arith
total-fields (descent v) t = omega arith
total-fields (recovery_beacon v) t = omega arith
total-fields (mission_link_fallback v) t = omega arith
total-fields (recovery_log_data v) t = omega (arith, t.0, total-bytes v.log_data)
total-fields (command_result v) t = omega arith
total-fields (ground_time_request r) t = omega arith
total-fields (control_roll_telemetry_v2 v) t = omega arith

-- A frame of the radio: the prefix, the packet's numbers in the places of the table, and the sum that closes it.
pub record Framed (p : ApplicationPacket) (f : LoraFrame) : Type 0 where
  pub size : length (as_bytes f) ≡ f.length
  pub bound : f.length ≤ 27
  pub prefix : take 3 (as_bytes f) ≡ 0x00 ∷ 0x00 ∷ 0x04 ∷ []
  pub sum : xor_checksum (drop 3 (as_bytes f)) ≡ 0
  pub reads : Holds (drop 3 (as_bytes f)) (layout p)

as_bytes-finish :
    (w : BitWriter)
    → byte_length w < length w.bytes
    → as_bytes (finish w)
      ≡ 0x00
        ∷ 0x00
        ∷ 0x04
        ∷ (take (byte_length w) w.bytes ++ xor_checksum (take (byte_length w) w.bytes) ∷ [])
unfolding finish as_bytes
as_bytes-finish w h =
    let n = byte_length w in
    let c = xor_checksum (take n w.bytes) in
    let e : 3 + n + 1 ≡ suc (suc (suc (n + 1))) = omega arith in
    rw e (ap (λ xs. 0x00 ∷ 0x00 ∷ 0x04 ∷ xs) (take-set n w.bytes c h))

-- What stands in a frame is what was written.
kept :
    (w : BitWriter) (c place : ℕ)
    → byte_length w ≤ length w.bytes
    → place < w.bit_offset
    → bit_at (take (byte_length w) w.bytes ++ c ∷ []) place ≡ bit_at w.bytes place
unfolding byte_length
kept w c place h p =
    ap (bit (place % 8))
      (get_or-take ((w.bit_offset + 7) / 8) (place / 8) w.bytes (c ∷ []) 0 (omega arith) h)

finish-Framed :
    (p : ApplicationPacket) (w : BitWriter)
    → total (widths (fields p)) ≤ 184
    → AllWritten (fields p) (new 24) w
    → Framed p (finish w)
unfolding finish byte_length new
finish-Framed p w h a =
    let n = byte_length w in
    let c = xor_checksum (take n w.bytes) in
    let e = as_bytes-finish w (omega (arith, a.offset, a.size)) in
    record {
      size = rw e (
          omega (
            arith,
            length-append (take n w.bytes) (c ∷ []),
            length-take n w.bytes,
            a.offset,
            a.size,
          ));
      bound = omega (arith, a.offset);
      prefix = rw e refl;
      sum = rw e (xor_checksum-closed (take n w.bytes));
      reads = rw e (
          fields-Holds p (take n w.bytes ++ c ∷ []) (
            read_fields-cong (widths (fields p)) (take n w.bytes ++ c ∷ []) w.bytes 0
              (λ i q. kept w c i (omega (arith, a.offset, a.size)) (omega (arith, a.offset)))
            ∙ a.reads));
    }

start : (p : ApplicationPacket) → (new 24).bit_offset ≤ length (new 24).bytes * 8
unfolding new
start p = omega arith

room :
    (p : ApplicationPacket)
    → Typed p
    → (new 24).bit_offset + total (widths (fields p)) ≤ length (new 24).bytes * 8
unfolding new
room p t = omega (arith, total-fields p t)

pub encode-Framed :
    (p : ApplicationPacket)
    → Typed p
    → IsPacket p
    → (f : LoraFrame) × (encode p ≡ ok f) × Framed p f
unfolding encode
encode-Framed p t v =
    let h = total-fields p t in
    let (w, e, a) = write_all-AllWritten (fields p) (new 24) (new-IsWriter 24) v.fit (room p t) in
    (finish w, rw ((admit_iff p).1 v.allowed, e) refl, finish-Framed p w h a)

Typed-u32 : (p : ApplicationPacket) → Typed p → All (λ f. f.0 < 2 ^ 32) (fields p)
Typed-u32 (recovery_log_data v) t = t.1
Typed-u32 p t = t

-- A packet of well-typed fields is encoded exactly if it is allowed and its numbers fit their places.
pub encode_iff :
    (p : ApplicationPacket) → Typed p → ((f : LoraFrame) × (encode p ≡ ok f)) ↔ IsPacket p
unfolding encode
encode_iff p t = (go, λ v. let (f, e, a) = encode-Framed p t v in (f, e))
  where
    go : ((f : LoraFrame) × (encode p ≡ ok f)) → IsPacket p
    go (f, e) = elim (Result-cases (admit p)) [
      | inr (x, a) ↦ ground (arith, a, e)
      | inl (u, a) ↦ elim (Result-cases (write_all (fields p) (new 24))) [
        | inr (x, b) ↦ ground (arith, a, b, e)
        | inl (w, b) ↦ record {
          allowed = (admit_iff p).0 a;
          fit = (write_all-fits (fields p) (new 24) w (Typed-u32 p t) (start p) b).0;
        }
      ]
    ]
