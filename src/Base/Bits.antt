-- ===== src/Base/Bits.antt =====
-- The bitwise operators read digit by digit: `bit i x` is `x >> i & 1`.
use Prim.Native.Nat.{
  ℕ, zero, suc, ◌+◌, ◌-◌, ◌*◌, ◌/◌, ◌%◌, ◌^◌, ◌≤◌, ◌<◌, min, max, bit_and, bit_or, bit_xor, digits,
  differ, bit_and-bitwise, bit_or-bitwise, bit_xor-bitwise,
}
use mathlib.Core.Path.{◌≡◌, refl, ◌∙◌, ap}
use native.Mathlib.Nat.{pow-suc}
use native.Mathlib.Omega.{arith}

module _ (rest : ℕ → ℕ) (join : ℕ → ℕ → ℕ) where
  enough_fuel : (x y k l : ℕ) → x ≤ k → x ≤ l → digits rest join k x y ≡ digits rest join l x y
  enough_fuel (suc x) y (suc k) (suc l) u v =
      ap (λ high. high * 2 + join (suc x % 2) (y % 2))
        (enough_fuel (suc x / 2) (y / 2) k l (omega arith) (omega arith))
  enough_fuel (suc x) y zero l u v = absurd (omega arith)
  enough_fuel (suc x) y (suc k) zero u v = absurd (omega arith)
  enough_fuel zero y zero zero u v = refl
  enough_fuel zero y zero (suc l) u v = refl
  enough_fuel zero y (suc k) zero u v = refl
  enough_fuel zero y (suc k) (suc l) u v = refl

-- The lowest digit, and the others.
pub bit_and_step : (a b : ℕ) → bit_and a b ≡ bit_and (a / 2) (b / 2) * 2 + min (a % 2) (b % 2)
bit_and_step zero b = omega (arith, bit_and-bitwise 0 b, bit_and-bitwise 0 (b / 2))
bit_and_step (suc a) b = omega (
  arith,
  bit_and-bitwise (suc a) b,
  bit_and-bitwise (suc a / 2) (b / 2),
  enough_fuel (λ b. zero) min (suc a / 2) (b / 2) a (suc a / 2) (omega arith) (omega arith),
)

bit_or_step : (a b : ℕ) → bit_or a b ≡ bit_or (a / 2) (b / 2) * 2 + max (a % 2) (b % 2)
bit_or_step zero b = omega (arith, bit_or-bitwise 0 b, bit_or-bitwise 0 (b / 2))
bit_or_step (suc a) b = omega (
  arith,
  bit_or-bitwise (suc a) b,
  bit_or-bitwise (suc a / 2) (b / 2),
  enough_fuel (λ b. b) max (suc a / 2) (b / 2) a (suc a / 2) (omega arith) (omega arith),
)

bit_xor_step : (a b : ℕ) → bit_xor a b ≡ bit_xor (a / 2) (b / 2) * 2 + differ (a % 2) (b % 2)
bit_xor_step zero b = omega (arith, bit_xor-bitwise 0 b, bit_xor-bitwise 0 (b / 2))
bit_xor_step (suc a) b = omega (
  arith,
  bit_xor-bitwise (suc a) b,
  bit_xor-bitwise (suc a / 2) (b / 2),
  enough_fuel (λ b. b) differ (suc a / 2) (b / 2) a (suc a / 2) (omega arith) (omega arith),
)

differ_bits : (a b : ℕ) → differ (a % 2) (b % 2) ≡ (a + b) % 2
differ_bits a b = go (a % 2) (b % 2) (omega arith) (omega arith) ∙ omega arith
  where
    go : (x y : ℕ) → x < 2 → y < 2 → differ x y ≡ (x + y) % 2
    go zero y p q = omega arith
    go (suc zero) zero p q = omega arith
    go (suc zero) (suc zero) p q = omega arith
    go (suc zero) (suc (suc y)) p q = absurd (omega arith)
    go (suc (suc x)) y p q = absurd (omega arith)

abbrev pub bit : ℕ → ℕ → ℕ
bit zero x = x % 2
bit (suc i) x = bit i (x / 2)

pub bit-lt : (i x : ℕ) → bit i x < 2
bit-lt zero x = omega arith
bit-lt (suc i) x = bit-lt i (x / 2)

pub bit-bit_and : (i a b : ℕ) → bit i (bit_and a b) ≡ min (bit i a) (bit i b)
bit-bit_and zero a b = omega (arith, bit_and_step a b)
bit-bit_and (suc i) a b =
    ap (bit i) (omega (arith, bit_and_step a b)) ∙ bit-bit_and i (a / 2) (b / 2)

pub bit-bit_or : (i a b : ℕ) → bit i (bit_or a b) ≡ max (bit i a) (bit i b)
bit-bit_or zero a b = omega (arith, bit_or_step a b)
bit-bit_or (suc i) a b = ap (bit i) (omega (arith, bit_or_step a b)) ∙ bit-bit_or i (a / 2) (b / 2)

bit-bit_xor : (i a b : ℕ) → bit i (bit_xor a b) ≡ (bit i a + bit i b) % 2
bit-bit_xor zero a b = omega (arith, bit_xor_step a b, differ_bits a b)
bit-bit_xor (suc i) a b =
    ap (bit i) (omega (arith, bit_xor_step a b, differ_bits a b)) ∙ bit-bit_xor i (a / 2) (b / 2)

-- `!x` on `k` bits.
abbrev pub complement : ℕ → ℕ → ℕ
complement k x = 2 ^ k - 1 - x

pub bit-complement : (i k x : ℕ) → i < k → x < 2 ^ k → bit i (complement k x) ≡ 1 - bit i x
bit-complement i zero x p q = absurd (omega arith)
bit-complement zero (suc k) x p q = omega (arith, pow-suc 2 k)
bit-complement (suc i) (suc k) x p q =
    ap (bit i) (omega (arith, pow-suc 2 k))
    ∙ bit-complement i k (x / 2) (omega arith) (omega (arith, pow-suc 2 k))

pub bit-zero : (i : ℕ) → bit i 0 ≡ 0
bit-zero zero = refl
bit-zero (suc i) = bit-zero i

-- Above the width every digit is 0.
pub bit_above : (i k x : ℕ) → k ≤ i → x < 2 ^ k → bit i x ≡ 0
bit_above zero zero x p q = omega arith
bit_above zero (suc k) x p q = absurd (omega arith)
bit_above (suc i) zero x p q = let e : x / 2 ≡ 0 = omega arith in ap (bit i) e ∙ bit-zero i
bit_above (suc i) (suc k) x p q = bit_above i k (x / 2) (omega arith) (omega (arith, pow-suc 2 k))

eq_of_bits_fuel : (n x y : ℕ) → x ≤ n → y ≤ n → ((i : ℕ) → bit i x ≡ bit i y) → x ≡ y
eq_of_bits_fuel zero x y p q h = omega arith
eq_of_bits_fuel (suc n) x y p q h =
    omega
      (arith, h 0, eq_of_bits_fuel n (x / 2) (y / 2) (omega arith) (omega arith) (λ i. h (suc i)))

-- Numbers with the same digits are equal.
pub eq_of_bits : (x y : ℕ) → ((i : ℕ) → bit i x ≡ bit i y) → x ≡ y
eq_of_bits x y h = eq_of_bits_fuel (max x y) x y (omega arith) (omega arith) h

pub bit_xor_self : (a : ℕ) → bit_xor a a ≡ 0
bit_xor_self a = eq_of_bits _ _ (λ i. omega (arith, bit-bit_xor i a a, bit-zero i))

pub bit_xor_cancel : (a b c : ℕ) → bit_xor a b ≡ bit_xor a c → b ≡ c
bit_xor_cancel a b c h = eq_of_bits _ _ λ i.
    omega (
      arith,
      ap (bit i) h,
      bit-bit_xor i a b,
      bit-bit_xor i a c,
      bit-lt i a,
      bit-lt i b,
      bit-lt i c,
    )

pub bit_xor_comm : (a b : ℕ) → bit_xor a b ≡ bit_xor b a
bit_xor_comm a b = eq_of_bits _ _ (λ i. omega (arith, bit-bit_xor i a b, bit-bit_xor i b a))

bit_xor_assoc : (a b c : ℕ) → bit_xor (bit_xor a b) c ≡ bit_xor a (bit_xor b c)
bit_xor_assoc a b c = eq_of_bits _ _ λ i. omega (
  arith,
  bit-bit_xor i (bit_xor a b) c,
  bit-bit_xor i a b,
  bit-bit_xor i a (bit_xor b c),
  bit-bit_xor i b c,
)

below_one : (f : ℕ → ℕ → ℕ) (a b : ℕ) → f 0 0 ≡ 0 → a < 1 → b < 1 → f a b < 1
below_one f a b z p q =
    let e : a ≡ 0 = omega arith in let e' : b ≡ 0 = omega arith in rw (e, e', z) (omega arith)

-- The operators stay within the width of their arguments.
pub bit_or-lt : (k a b : ℕ) → a < 2 ^ k → b < 2 ^ k → bit_or a b < 2 ^ k
bit_or-lt zero a b p q = below_one bit_or a b refl p q
bit_or-lt (suc k) a b p q = omega (
  arith,
  pow-suc 2 k,
  bit_or_step a b,
  bit_or-lt k (a / 2) (b / 2) (omega (arith, pow-suc 2 k)) (omega (arith, pow-suc 2 k)),
)

pub bit_xor-lt : (k a b : ℕ) → a < 2 ^ k → b < 2 ^ k → bit_xor a b < 2 ^ k
bit_xor-lt zero a b p q = below_one bit_xor a b refl p q
bit_xor-lt (suc k) a b p q = omega (
  arith,
  pow-suc 2 k,
  bit_xor_step a b,
  differ_bits a b,
  bit_xor-lt k (a / 2) (b / 2) (omega (arith, pow-suc 2 k)) (omega (arith, pow-suc 2 k)),
)

bit_and-le_fuel : (n a b : ℕ) → a ≤ n → bit_and a b ≤ a
bit_and-le_fuel zero a b h =
    let e : a ≡ 0 = omega arith in rw e (omega (arith, bit_and-bitwise 0 b))
bit_and-le_fuel (suc n) a b h =
    omega (arith, bit_and_step a b, bit_and-le_fuel n (a / 2) (b / 2) (omega arith))

pub bit_and-le : (a b : ℕ) → bit_and a b ≤ a
bit_and-le a b = bit_and-le_fuel a a b (omega arith)

pub bit_and-zero : (a : ℕ) → bit_and a 0 ≡ 0
bit_and-zero a = eq_of_bits _ _ (λ i. omega (arith, bit-bit_and i a 0, bit-zero i))

-- The masks of the lowest bits, each from the one before.
pub bit_and_0x01 : (a : ℕ) → bit_and a 0x01 ≡ a % 2
bit_and_0x01 a = omega (arith, bit_and_step a 1, bit_and-zero (a / 2))

bit_and_0x03 : (a : ℕ) → bit_and a 0x03 ≡ a % 4
bit_and_0x03 a = omega (arith, bit_and_step a 3, bit_and_0x01 (a / 2))

bit_and_0x07 : (a : ℕ) → bit_and a 0x07 ≡ a % 8
bit_and_0x07 a = omega (arith, bit_and_step a 7, bit_and_0x03 (a / 2))

pub bit_and_0x0f : (a : ℕ) → bit_and a 0x0f ≡ a % 16
bit_and_0x0f a = omega (arith, bit_and_step a 15, bit_and_0x07 (a / 2))

bit_and_0x1f : (a : ℕ) → bit_and a 0x1f ≡ a % 32
bit_and_0x1f a = omega (arith, bit_and_step a 31, bit_and_0x0f (a / 2))

bit_and_0x3f : (a : ℕ) → bit_and a 0x3f ≡ a % 64
bit_and_0x3f a = omega (arith, bit_and_step a 63, bit_and_0x1f (a / 2))

pub bit_and_0x7f : (a : ℕ) → bit_and a 0x7f ≡ a % 128
bit_and_0x7f a = omega (arith, bit_and_step a 127, bit_and_0x3f (a / 2))

bit_or_zero : (b : ℕ) → bit_or 0 b ≡ b
bit_or_zero b = bit_or-bitwise 0 b

-- `a | h << k` is a sum where `a` fits `k` bits.
pub bit_or_shift : (k a h : ℕ) → a < 2 ^ k → bit_or a (h * 2 ^ k) ≡ a + h * 2 ^ k
bit_or_shift zero a h p =
    let e : a ≡ 0 = omega arith in rw e (omega (arith, bit_or_zero (h * 2 ^ 0)))
bit_or_shift (suc k) a h p =
    ground (arith, bit_or_step a (h * 2 ^ suc k), bit_or_shift k (a / 2) h, pow-suc 2 k, double)
  where
    double : h * 2 ^ suc k ≡ 2 * (h * 2 ^ k)
    double = omega (arith, ap (λ (t : ℕ). h * t) (pow-suc 2 k))
