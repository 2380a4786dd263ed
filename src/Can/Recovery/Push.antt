-- ===== src/Can/Recovery/Push.antt =====
-- can/recovery.rs: `RecoveryAssembler::push` on one fragment.
use mathlib.Core.List.{append-nil}
use l_comboard.Base.{
  ℕ, zero, suc, ◌+◌, ◌-◌, ◌%◌, ◌^◌, ◌<◌, ◌≤◌, ◌≡◌, refl, ap, ◌∙◌, List, [], ◌∷◌, ◌++◌, true, Option,
  none, some, take, take_all, length, min, ltb, if◌then◌else◌, arith, Bool-cases, inl, inr, ◌⊎◌,
}
use l_comboard.Base.Result.{ok}
use l_comboard.Can.Protocol.Messages.{RecoveryLogData}
use l_comboard.Can.Recovery.{
  RecoveryAssembler, RecoveryChunk, copy, take_chunk, reached_end, fragment_length, accept, push,
  settle, expect_next, sat_add,
}
use l_comboard.Can.Recovery.Buffer.{IsBuffer, held, chunk_bytes}
use l_comboard.Can.Recovery.Stream.{Copied, copy-Copied}

fragment_length-le : (a : RecoveryAssembler) → fragment_length a ≤ 6
unfolding fragment_length
fragment_length-le a = ground arith

settle_lem :
    (a : RecoveryAssembler) (e : Option RecoveryChunk)
    → IsBuffer a
    → let (b, e') = settle a e in (chunk_bytes e' ++ held b ≡ chunk_bytes e ++ held a) × IsBuffer b
unfolding settle take_chunk
settle_lem a (some c) v = (refl, v)
settle_lem a none v = elim (Bool-cases (reached_end a)) [
  | inl h ↦ rw h (append-nil (held a), record { room = omega arith; size = refl })
  | inr h ↦ rw h (refl, v)
]

-- `accept` emits and holds back exactly the bytes that were held and those of the fragment that
-- belong to the log, and keeps the buffer.
pub accept_lem :
    (a : RecoveryAssembler) (f : RecoveryLogData)
    → IsBuffer a
    → length f.fragment ≡ 6
    → let (b, e) = accept a f in
      (chunk_bytes e ++ held b ≡ held a ++ take (fragment_length a) f.fragment) × IsBuffer b
unfolding accept fragment_length
accept_lem a f v n =
    let a' = expect_next a f in
    let c =
      copy-Copied a' (fragment_length a') f.fragment (record { room = v.room; size = v.size })
        (fragment_length-le a') (omega (arith, n, fragment_length-le a')) in
    let (b, e, left) = copy 6 a' none (fragment_length a') f.fragment in
    let s = settle_lem b e c.buffer in (s.0 ∙ c.stream, s.1)

pub accept_continues :
    (a : RecoveryAssembler) (f : RecoveryLogData)
    → IsBuffer a
    → length f.fragment ≡ 6
    → a.total_size ≡ none
    → let (b, e) = accept a f in
      (b.active ≡ a.active)
      × (b.transfer_id ≡ a.transfer_id)
      × (b.total_size ≡ none)
      × (b.expected_sequence ≡ some ((f.sequence + 1) % 256))
unfolding accept settle reached_end
accept_continues a f v n t =
    let a' = expect_next a f in
    let c =
      copy-Copied a' (fragment_length a') f.fragment (record { room = v.room; size = v.size })
        (fragment_length-le a') (omega (arith, n, fragment_length-le a')) in
    go (copy 6 a' none (fragment_length a') f.fragment) c
  where
    go :
        (out : RecoveryAssembler × Option RecoveryChunk × ℕ)
        → Copied (expect_next a f) (fragment_length (expect_next a f)) f.fragment out
        → let (b, e) = settle out.0 out.1 in
          (b.active ≡ a.active)
          × (b.transfer_id ≡ a.transfer_id)
          × (b.total_size ≡ none)
          × (b.expected_sequence ≡ some ((f.sequence + 1) % 256))
    go (b, some k, left) c = (c.active t, c.transfer, c.total ∙ t, c.expected)
    go (b, none, left) c =
        let e : b.total_size ≡ none = c.total ∙ t in
        ground (arith, c.active t, c.transfer, c.expected)

-- The assembler is six bytes further in the log, as long as its offsets fit 32 bits.
pub accept_place :
    (a : RecoveryAssembler) (f : RecoveryLogData)
    → IsBuffer a
    → length f.fragment ≡ 6
    → a.total_size ≡ none
    → a.offset + a.data_length + 6 < 2 ^ 32
    → let b = (accept a f).0 in b.offset + b.data_length ≡ a.offset + a.data_length + 6
unfolding accept settle reached_end fragment_length
accept_place a f v n t small =
    let a' = expect_next a f in
    let c =
      copy-Copied a' (fragment_length a') f.fragment (record { room = v.room; size = v.size })
        (fragment_length-le a') (omega (arith, n, fragment_length-le a')) in
    go (copy 6 a' none (fragment_length a') f.fragment) c (rw t refl)
  where
    go :
        (out : RecoveryAssembler × Option RecoveryChunk × ℕ)
        → Copied (expect_next a f) (fragment_length (expect_next a f)) f.fragment out
        → fragment_length (expect_next a f) ≡ 6
        → let b = (settle out.0 out.1).0 in b.offset + b.data_length ≡ a.offset + a.data_length + 6
    go (b, some k, left) c six = ground (arith, c.emits, six, small)
    go (b, none, left) c six =
        let e : b.total_size ≡ none = c.total ∙ t in ground (arith, c.emits, six, e)

-- The fragment is the next of the transfer that the assembler is in.
pub record Continues (a : RecoveryAssembler) (f : RecoveryLogData) : Type 0 where
  pub active : a.active ≡ true
  pub transfer : f.transfer_id ≡ a.transfer_id
  pub next : (a.expected_sequence ≡ none) ⊎ (a.expected_sequence ≡ some f.sequence)
  pub whole : length f.fragment ≡ 6

pub push_accepts :
    (a : RecoveryAssembler) (f : RecoveryLogData)
    → Continues a f
    → push a f ≡ ((accept a f).0, ok (accept a f).1)
unfolding push
push_accepts a f c = ground (arith, c.active, c.transfer, c.next)

-- A size, where it is known, is that of a `u32`.
abbrev pub IsSize : Option ℕ → Type 0
IsSize none = Unit
IsSize (some total) = total < 2 ^ 32

-- The bytes before the end of a log of so many bytes, from the place of the first of them.
abbrev pub before_end : Option ℕ → ℕ → List ℕ → List ℕ
before_end none place xs = xs
before_end (some total) place [] = []
before_end (some total) place (x ∷ xs) =
    let rest = before_end (some total) (place + 1) xs in if ltb place total then x ∷ rest else []

take-before_end :
    (total place : ℕ) (xs : List ℕ)
    → take (min (total - place) (length xs)) xs ≡ before_end (some total) place xs
take-before_end total place [] = take-empty (min (total - place) 0)
  where
    take-empty : (n : ℕ) → take {A = ℕ} n [] ≡ []
    take-empty zero = refl
    take-empty (suc n) = refl
take-before_end total place (x ∷ xs) = elim (Bool-cases (ltb place total)) [
  | inl more ↦
      let n : min (total - place) (suc (length xs)) ≡ suc (min (total - (place + 1)) (length xs)) =
        ground (arith, more) in
      rw (more, n) (ap (λ ys. x ∷ ys) (take-before_end total (place + 1) xs))
  | inr end ↦
      let n : min (total - place) (suc (length xs)) ≡ 0 = ground (arith, end) in rw (end, n) refl
]

fragment_length-before_end :
    (a : RecoveryAssembler) (xs : List ℕ) (total : Option ℕ)
    → a.total_size ≡ total
    → IsSize total
    → length xs ≡ 6
    → take (fragment_length a) xs ≡ before_end total (a.offset + a.data_length) xs
unfolding fragment_length
fragment_length-before_end a xs none e h n = rw e (take_all 6 xs n)
fragment_length-before_end a xs (some total) e h n =
    let left : min (total - sat_add a.offset a.data_length) 6
        ≡ min (total - (a.offset + a.data_length)) (length xs) =
      ground (arith, h, n) in
    rw (e, left) (take-before_end total (a.offset + a.data_length) xs)

-- From a buffer with room and a size within 32 bits, a fragment that continues the transfer loses no byte of the
-- log: what `push` emits and what it holds back afterwards are, in order, what it held and the bytes of the
-- fragment that lie before the end of the log, which are all of them where the end is not known.
pub push_stream :
    (a : RecoveryAssembler) (f : RecoveryLogData)
    → IsBuffer a
    → IsSize a.total_size
    → Continues a f
    → let (b, answer) = push a f in
      (e : Option RecoveryChunk) × (answer ≡ ok e)
      × (chunk_bytes e ++ held b
          ≡ held a ++ before_end a.total_size (a.offset + a.data_length) f.fragment)
push_stream a f v h c =
    let same = fragment_length-before_end a f.fragment a.total_size refl h c.whole in
    rw (push_accepts a f c)
      ((accept a f).1, refl, (accept_lem a f v c.whole).0 ∙ ap (λ xs. held a ++ xs) same)

-- Whatever fragment of six bytes arrives, in sequence or not, a buffer of 16 bytes with fewer than 16
-- held back stays one.
pub push-IsBuffer :
    (a : RecoveryAssembler) (f : RecoveryLogData)
    → IsBuffer a
    → length f.fragment ≡ 6
    → IsBuffer (push a f).0
unfolding push
push-IsBuffer a f v n = ground (arith, (accept_lem a f v n).1)
