-- ===== src/Can/Protocol/ControlRoll.antt =====
-- can/protocol.rs: what `ControlRollTelemetryV2` says of its two raw counts, some of which are no
-- counts but reasons why there is none.
use Prim.Native.Nat.{bit_and, bit_or}
use l_comboard.Base.{
  ℕ, ◌+◌, ◌-◌, ◌*◌, ◌^◌, ◌<◌, ◌≤◌, ◌≡◌, ◌↔◌, ◌≢◌, ◌⊎◌, ◌&&◌, Option, none, some, ltb, leb,
  if◌then◌else◌, arith,
}
use l_comboard.Base.Bits.{bit_or_shift, bit_and-le, bit_and_0x0f}
use l_comboard.Can.Protocol.Messages.{ControlRollTelemetryV2}

pub data ℤ : Type 0 where
  pos : ℕ → ℤ
  negsuc : ℕ → ℤ

-- `raw as i16`
abbrev as_i16 : ℕ → ℤ
as_i16 raw = if ltb raw (2 ^ 15) then pos raw else negsuc (2 ^ 16 - 1 - raw)

pub decode_control_roll_count : ℕ → Option ℤ
decode_control_roll_count raw = if leb 0x8000 raw && leb raw 0x800f then none else some (as_i16 raw)

pub control_roll_quality_code : ℕ → ℕ
control_roll_quality_code raw =
    if leb 0x8000 raw && leb raw 0x800f then bit_and raw 0x000f + 1 else 0

reference_count : ControlRollTelemetryV2 → Option ℤ
reference_count m = decode_control_roll_count m.control_roll_reference_unwrapped_raw

deviation_count : ControlRollTelemetryV2 → Option ℤ
deviation_count m = decode_control_roll_count m.roll_deviation_unwrapped_raw

-- The flags of the mask are `1 << 0`, `1 << 2`, `1 << 3` and `1 << 4`.
pub status_signature : ControlRollTelemetryV2 → ℕ
unfolding control_roll_quality_code
status_signature m =
    bit_or
      (bit_or (bit_and m.flags 0x1d)
        (control_roll_quality_code m.control_roll_reference_unwrapped_raw * 2 ^ 8))
      (control_roll_quality_code m.roll_deviation_unwrapped_raw * 2 ^ 13)

quality-le : (raw : ℕ) → control_roll_quality_code raw ≤ 16
unfolding control_roll_quality_code
quality-le raw = ground (arith, bit_and_0x0f raw)

-- The quality code is 0 exactly where the raw value is a count, and tells apart the reasons why it is
-- none.
pub control_roll_quality_code_lem :
    (raw other : ℕ)
    → ((control_roll_quality_code raw ≡ 0) ↔ (decode_control_roll_count raw ≢ none))
      × ((decode_control_roll_count raw ≢ none)
          ⊎ ((control_roll_quality_code raw ≡ control_roll_quality_code other) ↔ (raw ≡ other)))
unfolding control_roll_quality_code decode_control_roll_count
control_roll_quality_code_lem raw other = ground (arith, bit_and_0x0f raw, bit_and_0x0f other)

signature_sum :
    (m : ControlRollTelemetryV2)
    → m.flags < 256
    → status_signature m
      ≡ bit_and m.flags 0x1d
        + control_roll_quality_code m.control_roll_reference_unwrapped_raw * 2 ^ 8
        + control_roll_quality_code m.roll_deviation_unwrapped_raw * 2 ^ 13
unfolding status_signature
signature_sum m h =
    let f = bit_and m.flags 0x1d in
    let q = control_roll_quality_code m.control_roll_reference_unwrapped_raw in
    let r = control_roll_quality_code m.roll_deviation_unwrapped_raw in
    let l = bit_and-le m.flags 0x1d in
    let e = bit_or_shift 8 f q (omega arith) in
    let b = quality-le m.control_roll_reference_unwrapped_raw in
    rw e (bit_or_shift 13 (f + q * 2 ^ 8) r (omega arith))

-- For flags of one byte, the signature changes exactly when the quality of a count or one of the four flags changes that it
-- is to report, and so not with the counts themselves nor with the flag of a new capture.
pub status_signature_iff :
    (m n : ControlRollTelemetryV2)
    → m.flags < 256
    → n.flags < 256
    → (status_signature m ≡ status_signature n) ↔ (
        (bit_and m.flags 0x1d ≡ bit_and n.flags 0x1d)
        × (control_roll_quality_code m.control_roll_reference_unwrapped_raw
            ≡ control_roll_quality_code n.control_roll_reference_unwrapped_raw)
        × (control_roll_quality_code m.roll_deviation_unwrapped_raw
            ≡ control_roll_quality_code n.roll_deviation_unwrapped_raw))
status_signature_iff m n g h = omega (
  arith,
  signature_sum m g,
  signature_sum n h,
  bit_and-le m.flags 0x1d,
  bit_and-le n.flags 0x1d,
  quality-le m.control_roll_reference_unwrapped_raw,
  quality-le n.control_roll_reference_unwrapped_raw,
)
