-- ===== src/Can/Recovery/Stream.antt =====
-- can/recovery.rs: the copying loop of `RecoveryAssembler::push`, and the bytes and offsets it moves.
use mathlib.Core.Path.{subst}
use native.Mathlib.Decide.{dec_lt}
use mathlib.Core.List.{append_assoc, append-nil}
use l_comboard.Base.{
  ℕ, zero, suc, ◌+◌, ◌-◌, ◌≤◌, ◌<◌, ◌≡◌, refl, ap, sym, ◌∙◌, List, ◌++◌, Bool, false, Option, none,
  some, ◌==◌, ◌&&◌, take, drop, length, length-drop, take-append-take-drop, arith,
}
use l_comboard.Can.Recovery.{
  RecoveryAssembler, RecoveryChunk, sat_add, copy, take_chunk, reached_end,
}
use l_comboard.Can.Recovery.Buffer.{
  held, chunk_bytes, IsBuffer, filled, emptied, held-filled, copy_zero, copy_within, copy_across,
}

-- Copying that does not fill the buffer.
record Within (a : RecoveryAssembler) (e : Option RecoveryChunk) (left : ℕ) (rest : List ℕ)
    (out : RecoveryAssembler × Option RecoveryChunk × ℕ) : Type 0 where
  emitted : out.1 ≡ e
  all : out.2 ≡ 0
  buffer : IsBuffer out.0
  stream : held out.0 ≡ held a ++ take left rest
  offset : out.0.offset ≡ a.offset
  count : out.0.data_length ≡ a.data_length + left
  transfer : out.0.transfer_id ≡ a.transfer_id
  active : out.0.active ≡ a.active
  total : out.0.total_size ≡ a.total_size
  expected : out.0.expected_sequence ≡ a.expected_sequence

copy-Within :
    (fuel : ℕ) (a : RecoveryAssembler) (e : Option RecoveryChunk) (left : ℕ) (rest : List ℕ)
    → IsBuffer a
    → a.data_length + left < 16
    → left ≤ length rest
    → Within a e left rest (copy (suc fuel) a e left rest)
unfolding filled
copy-Within fuel a e zero rest v h n = rw (copy_zero (suc fuel) a e rest) (record {
  emitted = refl;
  all = refl;
  buffer = v;
  stream = sym (append-nil (held a));
  offset = refl;
  count = omega arith;
  transfer = refl;
  active = refl;
  total = refl;
  expected = refl;
})
copy-Within fuel a e (suc left) rest v h n =
    let f = held-filled a (suc left) rest v (omega arith) n in
    rw (copy_within fuel a e left rest h) (record {
      emitted = refl;
      all = refl;
      buffer = record { room = h; size = f.1 };
      stream = f.0;
      offset = refl;
      count = refl;
      transfer = refl;
      active = refl;
      total = refl;
      expected = refl;
    })

-- What copying a fragment does to the offsets: nothing is emitted, or one full chunk at the buffer's
-- offset.
abbrev Emits : RecoveryAssembler → ℕ → RecoveryAssembler → Option RecoveryChunk → Type 0
Emits a left b none = (b.offset ≡ a.offset) × (b.data_length ≡ a.data_length + left)
Emits a left b (some c) =
    (c.offset ≡ a.offset)
    × (c.data_length ≡ 16)
    × (c.transfer_id ≡ a.transfer_id)
    × (b.offset ≡ sat_add a.offset 16)
    × (b.data_length + 16 ≡ a.data_length + left)

pub record Copied (a : RecoveryAssembler) (left : ℕ) (rest : List ℕ)
    (out : RecoveryAssembler × Option RecoveryChunk × ℕ) : Type 0 where
  pub all : out.2 ≡ 0
  pub buffer : IsBuffer out.0
  pub stream : chunk_bytes out.1 ++ held out.0 ≡ held a ++ take left rest
  pub emits : Emits a left out.0 out.1
  pub transfer : out.0.transfer_id ≡ a.transfer_id
  pub total : out.0.total_size ≡ a.total_size
  pub expected : out.0.expected_sequence ≡ a.expected_sequence
  pub active : a.total_size ≡ none → out.0.active ≡ a.active

Within-Copied :
    (a : RecoveryAssembler) (left : ℕ) (rest : List ℕ)
    (out : RecoveryAssembler × Option RecoveryChunk × ℕ)
    → Within a none left rest out
    → Copied a left rest out
Within-Copied a left rest (b, none, n) w = record {
  all = w.all;
  buffer = w.buffer;
  stream = w.stream;
  emits = (w.offset, w.count);
  transfer = w.transfer;
  total = w.total;
  expected = w.expected;
  active = λ h. w.active;
}
Within-Copied a left rest (b, some c, n) w = absurd (cc w.emitted)

-- The buffer once it has been filled and emitted.
emptied-IsBuffer : (a : RecoveryAssembler) (end : Bool) → IsBuffer (emptied a end)
unfolding emptied take_chunk
emptied-IsBuffer a end = record { room = omega arith; size = refl }

short :
    (a : RecoveryAssembler) (left : ℕ) (rest : List ℕ) (end : Bool)
    → suc left ≤ 6
    → a.data_length < 16
    → (emptied (filled a (16 - a.data_length) rest) end).data_length
        + (suc left - (16 - a.data_length))
      < 16
unfolding emptied take_chunk
short a left rest end h r = omega arith

across :
    (a : RecoveryAssembler) (left : ℕ) (rest : List ℕ) (end : Bool)
    (out : RecoveryAssembler × Option RecoveryChunk × ℕ)
    → IsBuffer a
    → left ≤ length rest
    → 16 ≤ a.data_length + left
    → (a.total_size ≡ none → end ≡ false)
    → let k = 16 - a.data_length in
      let full = filled a k rest in
      Within (emptied full end) (some (take_chunk full end).1) (left - k) (drop k rest) out
      → Copied a left rest out
unfolding emptied take_chunk filled
across a left rest end (b, e, n) v h m u w =
    let k = 16 - a.data_length in
    let full = filled a k rest in
    let room : a.data_length ≤ 16 = omega (arith, v.room) in
    let f = held-filled a k rest v (omega arith) (omega (arith, v.room)) in
    subst (λ x. Copied a left rest (b, x, n)) (sym w.emitted)
      (record {
        all = w.all;
        buffer = w.buffer;
        stream =
            ap (λ xs. held full ++ xs) w.stream
            ∙ ap (λ xs. xs ++ take (left - k) (drop k rest)) f.0
            ∙ append_assoc (held a) (take k rest) (take (left - k) (drop k rest))
            ∙ ap (λ xs. held a ++ xs) (take-append-take-drop k (left - k) rest)
            ∙ ap (λ j. held a ++ take j rest) (omega (arith, v.room));
        emits = (
          refl,
          omega (arith, v.room),
          refl,
          w.offset ∙ ap (λ j. sat_add a.offset j) (omega (arith, v.room)),
          omega (arith, v.room, w.count),
        );
        transfer = w.transfer;
        total = w.total;
        expected = w.expected;
        active = λ t. w.active ∙ ground (arith, u t);
      })

-- Without an end no chunk is the last.
never_last :
    (a : RecoveryAssembler) (left : ℕ) (rest : List ℕ)
    → a.total_size ≡ none
    → let k = 16 - a.data_length in (reached_end (filled a k rest) && suc left - k == 0) ≡ false
unfolding reached_end filled
never_last a left rest h = rw h refl

-- From a buffer with room, the fuel of 6 rounds copies a fragment of up to 6 bytes whole: no byte is
-- left, the buffer has room again, the bytes emitted and held back are those held before and those
-- copied, and the offsets follow; the transfer, its size and the number expected stay, and so does its
-- activity while its size is unknown.
pub copy-Copied :
    (a : RecoveryAssembler) (left : ℕ) (rest : List ℕ)
    → IsBuffer a
    → left ≤ 6
    → left ≤ length rest
    → Copied a left rest (copy 6 a none left rest)
copy-Copied a zero rest v h n =
    Within-Copied a 0 rest _ (copy-Within 5 a none 0 rest v (omega (arith, v.room)) n)
copy-Copied a (suc left) rest v h n = elim (dec_lt (a.data_length + suc left) 16) [
  | yes p ↦ Within-Copied a (suc left) rest _ (copy-Within 5 a none (suc left) rest v p n)
  | no p ↦ rw (copy_across 5 a none left rest v.room (omega arith)) (
      across a (suc left) rest _ _ v n (omega arith) (never_last a left rest) (
        copy-Within 4 _ _ _ _ (emptied-IsBuffer _ _) (short a left rest _ h v.room)
          (omega (arith, length-drop (16 - a.data_length) rest))))
]
