-- ===== src/Base/Checked.antt =====
-- The arithmetic of Rust's unsigned integers of `w` bits that does not wrap silently, and `?` on
-- options as a bind.
use Prim.Native.Nat.{ℕ, ◌-◌, ◌^◌, min}
use mathlib.Core.Option.{Option, none, some}
use l_comboard.Base.Tests.{leb, if◌then◌else◌}

infixl 5 ◌>>=◌
abbrev pub ◌>>=◌ {ℓ κ} : {A : Type ℓ} {B : Type κ} → Option A → (A → Option B) → Option B
none >>= f = none
some a >>= f = f a

abbrev u8_max : ℕ
u8_max = 255

abbrev pub u32_max : ℕ
u32_max = 2 ^ 32 - 1

abbrev pub u64_max : ℕ
u64_max = 2 ^ 64 - 1

-- A value of the type whose largest value is `top`, or nothing.
abbrev pub checked : ℕ → ℕ → Option ℕ
checked top x = if leb x top then some x else none

abbrev pub checked_sub : ℕ → ℕ → Option ℕ
checked_sub a b = if leb b a then some (a - b) else none

-- The largest value of the type stands for all that is above it.
abbrev pub saturating : ℕ → ℕ → ℕ
saturating top x = min x top
