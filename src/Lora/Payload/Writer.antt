-- ===== src/Lora/Payload/Writer.antt =====
-- payload.rs: `BitWriter`, which fills bytes from their lowest bit on, and the errors of the encoders.
pub mod Bits
pub mod Read
use Prim.Native.Nat.{bit_and, bit_or}
use l_comboard.Base.{
  ℕ, zero, suc, ◌+◌, ◌*◌, ◌/◌, ◌%◌, ◌^◌, List, [], ◌∷◌, Bool, not, ◌&&◌, ◌||◌, ◌==◌, ltb, leb,
  if◌then◌else◌, length, set, get_or, replicate,
}
use l_comboard.Base.Result.{Result, ok, err, ◌>>=◌}

pub data EncodeError : Type 0 where
  invalid_header invalid_field out_of_range reserved_transaction_id : EncodeError

pub record BitWriter : Type 0 where
  pub bytes : List ℕ
  pub bit_offset : ℕ

-- `new` on a slice of `n` bytes, which it fills with zeros.
unfoldable pub new : ℕ → BitWriter
new n = record { bytes = replicate n 0; bit_offset = 0 }

-- `bytes[destination / 8] |= 1 << (destination % 8)`
unfoldable pub set_bit : List ℕ → ℕ → List ℕ
set_bit bytes destination =
    set bytes (destination / 8) (bit_or (get_or bytes (destination / 8) 0) (2 ^ (destination % 8)))

-- The loop of `write` from `bit` on, over the number of bits that are left.
unfoldable pub write_bits : ℕ → List ℕ → ℕ → ℕ → ℕ → List ℕ
write_bits zero bytes value bit_offset bit = bytes
write_bits (suc left) bytes value bit_offset bit =
    write_bits left
      (if not (bit_and value (2 ^ bit) == 0) then set_bit bytes (bit_offset + bit) else bytes) value
      bit_offset (bit + 1)

unfoldable pub write : BitWriter → ℕ → ℕ → Result EncodeError BitWriter
write w value bit_count =
    if ltb 32 bit_count
      || (ltb (length w.bytes * 8) (w.bit_offset + bit_count)
          || (ltb bit_count 32 && leb (2 ^ bit_count) value))
    then err out_of_range
    else ok (record {
      bytes = write_bits bit_count w.bytes value w.bit_offset 0;
      bit_offset = w.bit_offset + bit_count;
    })

-- `writer.write(value, bit_count)?;` once for each pair, in order.
unfoldable pub write_all : List (ℕ × ℕ) → BitWriter → Result EncodeError BitWriter
write_all [] w = ok w
write_all ((value, bit_count) ∷ fields) w = do w' ← write w value bit_count; write_all fields w'

unfoldable pub byte_length : BitWriter → ℕ
byte_length w = (w.bit_offset + 7) / 8
