-- ===== src/Can/Protocol/WireEnum.antt =====
-- The interface of the one-byte enumerations of can/protocol.rs: the cast to `u8` and the partial
-- `decode`, with the laws that make them inverse to one another.
use l_comboard.Base.{ℕ, ◌≡◌, Option, none, some, ◌⊎◌, inl, inr, Option-cases}

pub record WireEnum (A : Type 0) : Type 0 where
  pub to_u8 : A → ℕ
  pub decode : ℕ → Option A
  pub decode-to_u8 : (a : A) → decode (to_u8 a) ≡ some a
  pub to_u8_of_decode : (raw : ℕ) (a : A) → decode raw ≡ some a → to_u8 a ≡ raw

abbrev pub to_u8 : {A : Type 0} ⦃w : WireEnum A⦄ → A → ℕ
to_u8 ⦃w⦄ = w.to_u8

abbrev pub decode : {A : Type 0} ⦃w : WireEnum A⦄ → ℕ → Option A
decode ⦃w⦄ = w.decode

-- What `decode` makes of a byte: nothing, or the value whose byte it is.
pub decode_cases :
    {A : Type 0} ⦃w : WireEnum A⦄ (raw : ℕ)
    → (w.decode raw ≡ none) ⊎ ((a : A) × (w.decode raw ≡ some a) × (w.to_u8 a ≡ raw))
decode_cases ⦃w⦄ raw = elim (Option-cases (w.decode raw)) [
  | inl e ↦ inl e
  | inr (a, e) ↦ inr (a, e, w.to_u8_of_decode raw a e)
]
