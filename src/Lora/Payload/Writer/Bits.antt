-- ===== src/Lora/Payload/Writer/Bits.antt =====
-- payload.rs: the bits that `BitWriter` leaves behind, read one by one.
use Prim.Native.Nat.{bit_and, bit_or}
use native.Mathlib.Nat.{pow-suc, one-le-pow}
use l_comboard.Base.{
  ℕ, zero, suc, ◌+◌, ◌-◌, ◌*◌, ◌/◌, ◌%◌, ◌^◌, ◌≤◌, ◌<◌, ◌≡◌, ◌≢◌, inl, inr, refl, ap, ◌∙◌, List, [],
  ◌∷◌, not, ◌==◌, ltb, leb, ◌&&◌, if◌then◌else◌, length, length-set, set, get_or, arith, Bool-cases,
}
use l_comboard.Base.Bits.{bit, bit_and_step, bit_and_0x01, bit-bit_or, bit-lt, bit-zero}
use l_comboard.Lora.Payload.Writer.{set_bit, write_bits}

-- The bit of a sequence of bytes at a place, counted from the lowest bit of the first.
abbrev pub bit_at : List ℕ → ℕ → ℕ
bit_at bytes place = bit (place % 8) (get_or bytes (place / 8) 0)

bit-pow : (i k : ℕ) → bit i (2 ^ k) ≡ (if i == k then 1 else 0)
bit-pow zero zero = refl
bit-pow zero (suc k) = ground (arith, pow-suc 2 k)
bit-pow (suc i) zero = bit-zero i ∙ ground arith
bit-pow (suc i) (suc k) = ap (bit i) (omega (arith, pow-suc 2 k)) ∙ bit-pow i k ∙ ground arith

-- A mask of one bit tests that bit.
bit_and-pow : (x k : ℕ) → bit_and x (2 ^ k) ≡ bit k x * 2 ^ k
bit_and-pow x zero = bit_and_0x01 x ∙ omega arith
bit_and-pow x (suc k) =
    let e : 2 ^ suc k / 2 ≡ 2 ^ k = omega (arith, pow-suc 2 k) in
    let o : 2 ^ suc k % 2 ≡ 0 = omega (arith, pow-suc 2 k) in
    let s = bit_and_step x (2 ^ suc k) in
    let r : bit_and (x / 2) (2 ^ suc k / 2) ≡ bit k (x / 2) * 2 ^ k =
      rw e (bit_and-pow (x / 2) k) in
    let double : bit k (x / 2) * 2 ^ suc k ≡ 2 * (bit k (x / 2) * 2 ^ k) =
      omega (arith, ap (λ (t : ℕ). bit k (x / 2) * t) (pow-suc 2 k)) in
    omega (arith, s, o, r, double)

get_set :
    (xs : List ℕ) (i j v : ℕ)
    → i < length xs
    → get_or (set xs i v) j 0 ≡ (if j == i then v else get_or xs j 0)
get_set [] i j v h = absurd (omega arith)
get_set (x ∷ xs) zero zero v h = refl
get_set (x ∷ xs) zero (suc j) v h = ground arith
get_set (x ∷ xs) (suc i) zero v h = ground arith
get_set (x ∷ xs) (suc i) (suc j) v h = get_set xs i j v (omega arith) ∙ ground arith

pub bit_at-set_bit :
    (bytes : List ℕ) (destination place : ℕ)
    → destination < length bytes * 8
    → bit_at (set_bit bytes destination) place
      ≡ (if place == destination then 1 else bit_at bytes place)
unfolding set_bit
bit_at-set_bit bytes d p h =
    let g =
      get_set bytes (d / 8) (p / 8) (bit_or (get_or bytes (d / 8) 0) (2 ^ (d % 8))) (omega arith) in
    let b = bit-bit_or (p % 8) (get_or bytes (d / 8) 0) (2 ^ (d % 8)) in
    let k = bit-pow (p % 8) (d % 8) in
    let l = bit-lt (p % 8) (get_or bytes (d / 8) 0) in
    elim (Bool-cases (p / 8 == d / 8)) [
      | inl same ↦
          let q : p / 8 ≡ d / 8 = ground arith in
          ground (arith, ap (bit (p % 8)) g, ap (λ t. bit (p % 8) (get_or bytes t 0)) q)
      | inr other ↦ let q : p / 8 ≢ d / 8 = ground arith in ground (arith, ap (bit (p % 8)) g)
    ]

length-set_bit :
    (bytes : List ℕ) (destination : ℕ) → length (set_bit bytes destination) ≡ length bytes
unfolding set_bit
length-set_bit bytes d = length-set bytes (d / 8) _

-- The test of the loop is on the bit of the value.
tests_bit : (value k : ℕ) → (bit_and value (2 ^ k) == 0) ≡ (bit k value == 0)
tests_bit value k = ap (λ t. t == 0) (bit_and-pow value k) ∙ go (bit k value) (bit-lt k value)
  where
    go : (b : ℕ) → b < 2 → (b * 2 ^ k == 0) ≡ (b == 0)
    go zero h = ground arith
    go (suc zero) h = ground (arith, one-le-pow k 2 (omega arith))
    go (suc (suc b)) h = absurd (omega arith)

-- One round of the loop.
abbrev round_bytes : List ℕ → ℕ → ℕ → ℕ → List ℕ
round_bytes bytes value offset k =
    if not (bit_and value (2 ^ k) == 0) then set_bit bytes (offset + k) else bytes

round_lem :
    (bytes : List ℕ) (value offset k place : ℕ)
    → offset + k < length bytes * 8
    → bit_at bytes (offset + k) ≡ 0
    → (length (round_bytes bytes value offset k) ≡ length bytes)
      × (bit_at (round_bytes bytes value offset k) place
          ≡ (if place == offset + k then bit k value else bit_at bytes place))
round_lem bytes value offset k place h z = ground (
  arith,
  tests_bit value k,
  bit-lt k value,
  length-set_bit bytes (offset + k),
  bit_at-set_bit bytes (offset + k) place h,
)

-- The bits of the value from `bit` on stand behind one another, the other bits are as before.
pub write_bits_lem :
    (left : ℕ) (bytes : List ℕ) (value offset k : ℕ)
    → offset + k + left ≤ length bytes * 8
    → ((place : ℕ) → offset + k ≤ place → bit_at bytes place ≡ 0)
    → (length (write_bits left bytes value offset k) ≡ length bytes)
      × ((place : ℕ)
          → bit_at (write_bits left bytes value offset k) place ≡ (
              if leb (offset + k) place && ltb place (offset + k + left)
              then bit (place - offset) value
              else bit_at bytes place))
unfolding write_bits
write_bits_lem zero bytes value offset k h z = (refl, λ place. ground arith)
write_bits_lem (suc left) bytes value offset k h z =
    let b = round_bytes bytes value offset k in
    let at = λ (place : ℕ).
      round_lem bytes value offset k place (omega arith) (z (offset + k) (omega arith)) in
    let l = (at 0).0 in
    let z' : (place : ℕ) → offset + (k + 1) ≤ place → bit_at b place ≡ 0 =
      λ place q. ground (arith, (at place).1, z place) in
    let (n, bits) = write_bits_lem left b value offset (k + 1) (omega arith) z' in
    (
      n ∙ l,
      λ place. elim (Bool-cases (place == offset + k)) [
        | inl here ↦
            let q : place - offset ≡ k = ground arith in
            ground (arith, bits place, (at place).1, ap (λ (t : ℕ). bit t value) q)
        | inr other ↦ ground (arith, bits place, (at place).1)
      ],
    )

pub length-write_bits :
    (left : ℕ) (bytes : List ℕ) (value offset k : ℕ)
    → length (write_bits left bytes value offset k) ≡ length bytes
unfolding write_bits
length-write_bits zero bytes value offset k = refl
length-write_bits (suc left) bytes value offset k =
    length-write_bits left (round_bytes bytes value offset k) value offset (k + 1)
    ∙ ground (arith, length-set_bit bytes (offset + k))
