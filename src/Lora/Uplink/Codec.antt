-- ===== src/Lora/Uplink/Codec.antt =====
-- lora_uplink.rs: `decode_uplink` against the frames of `Wire`.
use l_comboard.Base.{
  ℕ, suc, ◌≡◌, ◌≢◌, refl, ap, List, [], ◌∷◌, ◌++◌, Bool, true, false, replicate, some, Option-cases,
  AreBytes, length, take, arith, take_prefix, take_all, get_or, zero, inl, inr,
}
use l_comboard.Base.Result.{Result, ok, ◌>>◌, refuse}
use l_comboard.Can.Protocol.WireEnum.{decode_cases}
use l_comboard.Can.Protocol.MissionEnums.{time_source_wire, time_source_decode-to_u8}
use l_comboard.Can.Protocol.Decode.{byte}
use l_comboard.Lora.Checksum.{xor_checksum}
use l_comboard.Lora.Uplink.{
  any_nonzero, invalid_field, UplinkCommand, UplinkKind, UplinkDecodeError, generic, stop_actuator,
  stop_liftoff, local_command, mission_generic, actuator_emergency, liftoff_detection_emergency,
  com_board_local, ground_time_response, ground_time, decode_uplink, decode_kind, decode_as,
  decode_generic, decode_ground_time,
}
use l_comboard.Lora.Uplink.Wire.{content, frame, FieldsFit, IsUplink}

get_or_append :
    {A : Type 0} (n : ℕ) (xs : List A) (c d : A) → length xs ≡ n → get_or (xs ++ c ∷ []) n d ≡ c
get_or_append zero [] c d e = refl
get_or_append (suc n) [] c d e = absurd (omega arith)
get_or_append zero (x ∷ xs) c d e = absurd (omega arith)
get_or_append (suc n) (x ∷ xs) c d e = get_or_append n xs c d (omega arith)

-- The frame of any command that fits its fields decodes to that command.
pub decode_uplink-frame : (c : UplinkCommand) → IsUplink c → decode_uplink (frame c) ≡ ok c
unfolding decode_uplink
decode_uplink-frame (generic r) u =
    let (id_pos, live, six) = u.fields in
    let t = take_prefix 6 r.args (xor_checksum (content (generic r)) ∷ []) six in
    let g = get_or_append 6 r.args (xor_checksum (content (generic r))) 0 six in
    ground (arith, t, g)
decode_uplink-frame (stop_actuator id) u = ground arith
decode_uplink-frame (stop_liftoff id) u = ground arith
decode_uplink-frame (local_command c) u =
    let (id_pos, six) = u.fields in
    let t = take_prefix 6 c.args (xor_checksum (content (local_command c)) ∷ []) six in
    let g = get_or_append 6 c.args (xor_checksum (content (local_command c))) 0 six in
    let a = take_all 6 c.args six in ground (arith, t, g, a)
decode_uplink-frame (ground_time t) u = ground (arith, time_source_decode-to_u8 t.source)

all_zero : (xs : List ℕ) → any_nonzero xs ≡ false → xs ≡ replicate (length xs) 0
all_zero [] h = refl
all_zero (x ∷ xs) h = ground (arith, all_zero xs)

not_refused :
    (b : Bool) (e : UplinkDecodeError) (r : Result UplinkDecodeError UplinkCommand)
    (c : UplinkCommand)
    → (refuse b e >> r) ≡ ok c
    → (b ≡ false) × (r ≡ ok c)
not_refused true e r c h = ground arith
not_refused false e r c h = (refl, h)

-- What an arm of the decoder returns is written by the bytes it has read.
arm_content :
    (kind : UplinkKind) (b0 b1 b2 b3 b4 b5 b6 b7 b8 b9 b10 : ℕ) (c : UplinkCommand)
    → AreBytes (b0 ∷ b1 ∷ b2 ∷ b3 ∷ b4 ∷ b5 ∷ b6 ∷ b7 ∷ b8 ∷ b9 ∷ [])
    → b0 ≡ 0x55
    → b2 ≢ 0
    → decode_kind b1 ≡ some kind
    → decode_as kind (b0 ∷ b1 ∷ b2 ∷ b3 ∷ b4 ∷ b5 ∷ b6 ∷ b7 ∷ b8 ∷ b9 ∷ b10 ∷ []) ≡ ok c
    → (content c ≡ b0 ∷ b1 ∷ b2 ∷ b3 ∷ b4 ∷ b5 ∷ b6 ∷ b7 ∷ b8 ∷ b9 ∷ []) × FieldsFit c
unfolding decode_as decode_kind decode_generic decode_ground_time
arm_content mission_generic b0 b1 b2 b3 b4 b5 b6 b7 b8 b9 b10 c bs h n k e = ground arith
arm_content actuator_emergency b0 b1 b2 b3 b4 b5 b6 b7 b8 b9 b10 c bs h n k e =
    let zeros = not_refused _ invalid_field _ c e in
    let z = all_zero (b3 ∷ b4 ∷ b5 ∷ b6 ∷ b7 ∷ b8 ∷ b9 ∷ []) zeros.0 in ground arith
arm_content liftoff_detection_emergency b0 b1 b2 b3 b4 b5 b6 b7 b8 b9 b10 c bs h n k e =
    let zeros = not_refused _ invalid_field _ c e in
    let z = all_zero (b3 ∷ b4 ∷ b5 ∷ b6 ∷ b7 ∷ b8 ∷ b9 ∷ []) zeros.0 in ground arith
arm_content com_board_local b0 b1 b2 b3 b4 b5 b6 b7 b8 b9 b10 c bs h n k e = ground arith
arm_content ground_time_response b0 b1 b2 b3 b4 b5 b6 b7 b8 b9 b10 c bs h n k e =
    ground (arith, decode_cases ⦃w = time_source_wire⦄ b3)

-- The tests an accepted frame has passed.
accepted :
    (bytes : List ℕ) (c : UplinkCommand)
    → decode_uplink bytes ≡ ok c
    → (byte bytes 0 ≡ 0x55)
      × (xor_checksum (take 10 bytes) ≡ byte bytes 10)
      × (byte bytes 2 ≢ 0)
      × (kind : UplinkKind) × (decode_kind (byte bytes 1) ≡ some kind)
      × (decode_as kind bytes ≡ ok c)
unfolding decode_uplink
accepted bytes c e = elim (Option-cases (decode_kind (byte bytes 1))) [
  | inl k ↦ absurd (ground arith)
  | inr (kind, k) ↦
      let h : (byte bytes 0 ≡ 0x55)
          × (xor_checksum (take 10 bytes) ≡ byte bytes 10)
          × (byte bytes 2 ≢ 0)
          × (decode_as kind bytes ≡ ok c) =
        ground arith in
      let (header, checksum, id, decoded) = h in (header, checksum, id, kind, k, decoded)
]

-- Whatever eleven bytes the decoder accepts are the frame of the command it returns.
pub decode_uplink_sound :
    (bytes : List ℕ) (c : UplinkCommand)
    → AreBytes bytes
    → length bytes ≡ 11
    → decode_uplink bytes ≡ ok c
    → (frame c ≡ bytes) × IsUplink c
decode_uplink_sound (b0 ∷ b1 ∷ b2 ∷ b3 ∷ b4 ∷ b5 ∷ b6 ∷ b7 ∷ b8 ∷ b9 ∷ b10 ∷ []) c bs n e =
    let (header, checksum, id, kind, k, decoded) =
      accepted (b0 ∷ b1 ∷ b2 ∷ b3 ∷ b4 ∷ b5 ∷ b6 ∷ b7 ∷ b8 ∷ b9 ∷ b10 ∷ []) c e in
    let (written, fields) =
      arm_content kind b0 b1 b2 b3 b4 b5 b6 b7 b8 b9 b10 c (ground arith) header id k decoded in
    (
      rw (written) (ap (λ s. b0 ∷ b1 ∷ b2 ∷ b3 ∷ b4 ∷ b5 ∷ b6 ∷ b7 ∷ b8 ∷ b9 ∷ s ∷ []) checksum),
      record { bytes = rw (written) (ground arith); fields = fields },
    )
decode_uplink_sound _ c bs n e = absurd (omega arith)
