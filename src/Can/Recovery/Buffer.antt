-- ===== src/Can/Recovery/Buffer.antt =====
-- can/recovery.rs: the buffer of the assembler, and what the rounds of the copying loop do to it.
use mathlib.Core.List.{append_assoc}
use l_comboard.Base.{
  ℕ, zero, suc, ◌+◌, ◌-◌, ◌≤◌, ◌<◌, ◌≡◌, refl, ap, sym, ◌∙◌, List, [], ◌++◌, Bool, true, false,
  Option, none, some, ◌==◌, ◌&&◌, min, take, drop, length, length-append, length-take, length-drop,
  take_left, arith,
}
use l_comboard.Can.Recovery.{
  RecoveryAssembler, RecoveryChunk, overwrite, copy, take_chunk, reached_end,
}

-- The bytes received and not yet emitted.
abbrev pub held : RecoveryAssembler → List ℕ
held a = take a.data_length a.bytes

abbrev pub chunk_bytes : Option RecoveryChunk → List ℕ
chunk_bytes none = []
chunk_bytes (some c) = take c.data_length c.bytes

-- The buffer between two fragments.
pub record IsBuffer (a : RecoveryAssembler) : Type 0 where
  pub room : a.data_length < 16
  pub size : length a.bytes ≡ 16

length_overwrite :
    (bytes from : List ℕ) (at n : ℕ)
    → at + n ≤ length bytes
    → n ≤ length from
    → length (overwrite bytes at n from) ≡ length bytes
length_overwrite bytes from at n p q = omega (
  arith,
  length-append (take at bytes) (take n from ++ drop (at + n) bytes),
  length-append (take n from) (drop (at + n) bytes),
  length-take at bytes,
  length-take n from,
  length-drop (at + n) bytes,
)

-- The bytes copied follow those that were there.
take-overwrite :
    (bytes from : List ℕ) (at n : ℕ)
    → at + n ≤ length bytes
    → n ≤ length from
    → take (at + n) (overwrite bytes at n from) ≡ take at bytes ++ take n from
take-overwrite bytes from at n p q =
    let front = take at bytes ++ take n from in
    let size : length front ≡ at + n = omega (
      arith,
      length-append (take at bytes) (take n from),
      length-take at bytes,
      length-take n from,
    ) in
    ap (λ xs. take (at + n) xs)
      (sym (append_assoc (take at bytes) (take n from) (drop (at + n) bytes)))
    ∙ ap (λ k. take k (front ++ drop (at + n) bytes)) (sym size)
    ∙ take_left front (drop (at + n) bytes)

-- A fragment that does not fill the buffer takes one round.
unfoldable pub filled : RecoveryAssembler → ℕ → List ℕ → RecoveryAssembler
filled a left rest = record a {
  bytes = overwrite a.bytes a.data_length left rest;
  data_length = a.data_length + left;
}

pub copy_zero :
    (fuel : ℕ) (a : RecoveryAssembler) (e : Option RecoveryChunk) (rest : List ℕ)
    → copy fuel a e 0 rest ≡ (a, e, 0)
unfolding copy
copy_zero zero a e rest = refl
copy_zero (suc fuel) a e rest = refl

min_of_le : (a b : ℕ) → b ≤ a → min a b ≡ b
min_of_le a b h = omega arith

pub copy_within :
    (fuel : ℕ) (a : RecoveryAssembler) (e : Option RecoveryChunk) (left : ℕ) (rest : List ℕ)
    → a.data_length + suc left < 16
    → copy (suc fuel) a e (suc left) rest ≡ (filled a (suc left) rest, e, 0)
unfolding copy filled
copy_within fuel a e left rest h =
    let m : min (16 - a.data_length) (suc left) ≡ suc left = omega arith in
    let f : (a.data_length + suc left == 16) ≡ false = ground arith in
    let z : suc left - suc left ≡ 0 = omega arith in rw (m, f, z) (copy_zero fuel _ e _)

-- One that fills it takes a round that emits the buffer and one for what is left.
unfoldable pub emptied : RecoveryAssembler → Bool → RecoveryAssembler
emptied a end = (take_chunk a end).0

pub copy_across :
    (fuel : ℕ) (a : RecoveryAssembler) (e : Option RecoveryChunk) (left : ℕ) (rest : List ℕ)
    → a.data_length < 16
    → 16 ≤ a.data_length + suc left
    → let k = 16 - a.data_length in
      let full = filled a k rest in
      let last = reached_end full && suc left - k == 0 in
      copy (suc fuel) a e (suc left) rest
      ≡ copy fuel (emptied full last) (some (take_chunk full last).1) (suc left - k) (drop k rest)
unfolding copy filled emptied
copy_across fuel a e left rest h n =
    let m : min (16 - a.data_length) (suc left) ≡ 16 - a.data_length = omega arith in
    let f : (a.data_length + (16 - a.data_length) == 16) ≡ true = ground arith in rw (m, f) refl

pub held-filled :
    (a : RecoveryAssembler) (left : ℕ) (rest : List ℕ)
    → IsBuffer a
    → a.data_length + left ≤ 16
    → left ≤ length rest
    → (held (filled a left rest) ≡ held a ++ take left rest)
      × (length (filled a left rest).bytes ≡ 16)
unfolding filled
held-filled a left rest v h n = (
  take-overwrite a.bytes rest a.data_length left (omega (arith, v.size)) n,
  length_overwrite a.bytes rest a.data_length left (omega (arith, v.size)) n ∙ v.size,
)
