-- ===== src/Lora/Checksum.antt =====
-- lora_uplink.rs: the checksum, which is the exclusive or of the bytes.
use Prim.Native.Nat.{bit_xor}
use l_comboard.Base.{ℕ, ◌<◌, ◌≡◌, ◌≢◌, refl, sym, ap, ◌∙◌, List, [], ◌∷◌, ◌++◌, AreBytes}
use l_comboard.Base.Bits.{bit_xor_self, bit_xor_cancel, bit_xor-lt, bit_xor_comm}

abbrev xor_from : ℕ → List ℕ → ℕ
xor_from checksum [] = checksum
xor_from checksum (byte ∷ bytes) = xor_from (bit_xor checksum byte) bytes

abbrev pub xor_checksum : List ℕ → ℕ
xor_checksum bytes = xor_from 0 bytes

xor_from-append : (c : ℕ) (xs ys : List ℕ) → xor_from c (xs ++ ys) ≡ xor_from (xor_from c xs) ys
xor_from-append c [] ys = refl
xor_from-append c (x ∷ xs) ys = xor_from-append (bit_xor c x) xs ys

xor_from-lt : (c : ℕ) (xs : List ℕ) → c < 256 → AreBytes xs → xor_from c xs < 256
xor_from-lt c [] h w = h
xor_from-lt c (x ∷ xs) h w = xor_from-lt (bit_xor c x) xs (bit_xor-lt 8 c x h w.0) w.1

-- A frame that ends with the checksum of the rest sums up to 0.
pub xor_checksum-closed : (xs : List ℕ) → xor_checksum (xs ++ xor_checksum xs ∷ []) ≡ 0
xor_checksum-closed xs =
    xor_from-append 0 xs (xor_checksum xs ∷ []) ∙ bit_xor_self (xor_checksum xs)

xor_from_cancel : (c d : ℕ) (xs : List ℕ) → xor_from c xs ≡ xor_from d xs → c ≡ d
xor_from_cancel c d [] h = h
xor_from_cancel c d (x ∷ xs) h =
    bit_xor_cancel x c d
      (bit_xor_comm x c ∙ xor_from_cancel (bit_xor c x) (bit_xor d x) xs h ∙ bit_xor_comm d x)

-- A change of one byte anywhere changes the checksum.
pub xor_checksum-one :
    (xs ys : List ℕ) (a b : ℕ) → a ≢ b → xor_checksum (xs ++ a ∷ ys) ≢ xor_checksum (xs ++ b ∷ ys)
xor_checksum-one xs ys a b n h = n (
    bit_xor_cancel (xor_checksum xs) a b (
      xor_from_cancel _ _ ys
        (ap (λ k. k) (sym (xor_from-append 0 xs (a ∷ ys)) ∙ h ∙ xor_from-append 0 xs (b ∷ ys)))))
