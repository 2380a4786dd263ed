-- ===== src/Board/Stats.antt =====
-- tasks/can_communication.rs: the device health frame, and the statistics of the observed identifiers.
use l_comboard.Base.{
  ℕ, suc, ◌+◌, List, [], ◌∷◌, Bool, false, not, ◌||◌, Option, none, some, ◌==◌, ltb, if◌then◌else◌,
  length, get_or, set, replicate,
}
use mathlib.Core.Option
use l_comboard.Base.Checked.{saturating, u32_max}
use l_comboard.Can.Cache.{observed_sequence, sequence_gap}

-- `data[1..].iter().any(|state| *state > DEVICE_STATE_MAX)`
abbrev any_above_4 : List ℕ → Bool
any_above_4 [] = false
any_above_4 (x ∷ xs) = ltb 4 x || any_above_4 xs

abbrev tail : List ℕ → List ℕ
tail [] = []
tail (x ∷ xs) = xs

-- The decoded array is the list of its six bytes.
pub decode_device_health : List ℕ → Option (List ℕ)
decode_device_health xs = if not (length xs == 6) || any_above_4 (tail xs) then none else some xs

abbrev pub observed_can_ids : List ℕ
observed_can_ids =
    0x011 ∷ 0x012 ∷ 0x020 ∷ 0x100 ∷ 0x101 ∷ 0x102 ∷ 0x103 ∷ 0x104 ∷ 0x105 ∷ 0x106 ∷ 0x107 ∷ 0x108
    ∷ 0x109 ∷ 0x10a ∷ []

pub record CanObservedStats : Type 0 where
  pub counts : List ℕ
  pub sequence_gaps : List ℕ
  pub last_sequences : List (Option ℕ)

unfoldable pub new : CanObservedStats
new = record {
  counts = replicate 14 0;
  sequence_gaps = replicate 14 0;
  last_sequences = replicate 14 none;
}

-- `position(|id| *id == identifier)`
abbrev pub position : ℕ → List ℕ → Option ℕ
position x [] = none
position x (y ∷ ys) = if y == x then some 0 else Option.map (λ i. suc i) (position x ys)

abbrev bump : List ℕ → ℕ → List ℕ
bump xs i = set xs i (saturating u32_max (get_or xs i 0 + 1))

-- The part of `observe` for a sequence number.
note_sequence : CanObservedStats → ℕ → Option ℕ → CanObservedStats
note_sequence s index none = s
note_sequence s index (some sequence) = record s {
  sequence_gaps =
      if sequence_gap (get_or s.last_sequences index none) sequence
      then bump s.sequence_gaps index
      else s.sequence_gaps;
  last_sequences = set s.last_sequences index (some sequence);
}

unfoldable pub observe : CanObservedStats → ℕ → List ℕ → CanObservedStats
unfolding note_sequence
observe s identifier xs = elim (position identifier observed_can_ids) [
  | none ↦ s
  | some index ↦
      note_sequence (record s { counts = bump s.counts index }) index
        (observed_sequence identifier xs)
]
