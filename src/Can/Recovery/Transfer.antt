-- ===== src/Can/Recovery/Transfer.antt =====
-- can/recovery.rs: a whole transfer, and what a gap in it costs.
use mathlib.Core.List.{append_assoc, append-nil}
use l_comboard.Base.{
  ℕ, ◌+◌, ◌%◌, ◌^◌, ◌<◌, ◌≡◌, ◌≢◌, refl, ap, sym, ◌∙◌, List, [], ◌∷◌, ◌++◌, true, false, Option,
  none, some, take, length, take_all, arith, inl, inr, ◌⊎◌,
}
use l_comboard.Base.Result.{Result, ok, err}
use l_comboard.Can.Protocol.RecoveryEnums.{RecoverySource}
use l_comboard.Can.Protocol.Messages.{RecoveryLogData}
use l_comboard.Can.Recovery.{
  RecoveryAssembler, RecoveryChunk, RecoveryAssemblyError, sequence_gap, take_chunk,
  fragment_length, accept, push, abort, begin, finish,
}
use l_comboard.Can.Recovery.Buffer.{IsBuffer, held, chunk_bytes}
use l_comboard.Can.Recovery.Push.{Continues, push_accepts, accept_lem, accept_continues}

abbrev pub emitted_bytes : Result RecoveryAssemblyError (Option RecoveryChunk) → List ℕ
emitted_bytes (ok e) = chunk_bytes e
emitted_bytes (err e) = []

-- The assembler after some fragments, and the bytes of the chunks that it emitted on the way.
unfoldable pub feed : RecoveryAssembler → List RecoveryLogData → RecoveryAssembler × List ℕ
feed a [] = (a, [])
feed a (f ∷ fs) =
    let (b, answer) = push a f in let (c, rest) = feed b fs in (c, emitted_bytes answer ++ rest)

-- Fragments of one transfer whose sequence numbers follow one another from `n` on.
abbrev pub InSequence : ℕ → ℕ → List RecoveryLogData → Type 0
InSequence transfer n [] = Unit
InSequence transfer n (f ∷ fs) =
    (f.transfer_id ≡ transfer)
    × (f.sequence ≡ n % 256)
    × (length f.fragment ≡ 6)
    × InSequence transfer (n + 1) fs

abbrev pub log_bytes : List RecoveryLogData → List ℕ
log_bytes [] = []
log_bytes (f ∷ fs) = f.fragment ++ log_bytes fs

-- The assembler waits for the fragment with this number.
pub record Waits (a : RecoveryAssembler) (n : ℕ) : Type 0 where
  pub buffer : IsBuffer a
  pub active : a.active ≡ true
  pub endless : a.total_size ≡ none
  pub next : (a.expected_sequence ≡ none) ⊎ (a.expected_sequence ≡ some (n % 256))

pub Waits-Continues :
    (a : RecoveryAssembler) (n : ℕ) (f : RecoveryLogData)
    → Waits a n
    → f.transfer_id ≡ a.transfer_id
    → f.sequence ≡ n % 256
    → length f.fragment ≡ 6
    → Continues a f
Waits-Continues a n f w t s l = record {
  active = w.active;
  transfer = t;
  next = elim w.next [ inl e ↦ inl e | inr e ↦ inr (rw s e) ];
  whole = l;
}

-- The next fragment makes it wait for the one behind.
pub accept-Waits :
    (a : RecoveryAssembler) (n : ℕ) (f : RecoveryLogData)
    → Waits a n
    → f.sequence ≡ n % 256
    → length f.fragment ≡ 6
    → Waits (accept a f).0 (n + 1)
accept-Waits a n f w e six =
    let k = accept_continues a f w.buffer six w.endless in
    record {
      buffer = (accept_lem a f w.buffer six).1;
      active = k.0 ∙ w.active;
      endless = k.2;
      next = inr (k.3 ∙ ap some (omega (arith, e)));
    }

fragment_length-endless : (a : RecoveryAssembler) → a.total_size ≡ none → fragment_length a ≡ 6
unfolding fragment_length
fragment_length-endless a h = rw h refl

pub feed-Waits :
    (a : RecoveryAssembler) (n : ℕ) (fs : List RecoveryLogData)
    → Waits a n
    → InSequence a.transfer_id n fs
    → let (b, out) = feed a fs in
      (out ++ held b ≡ held a ++ log_bytes fs) × (b.active ≡ true) × (b.transfer_id ≡ a.transfer_id)
unfolding feed
feed-Waits a n [] w s = (sym (append-nil (held a)), w.active, refl)
feed-Waits a n (f ∷ fs) w s =
    let c = Waits-Continues a n f w s.0 s.1 s.2 in
    let l = accept_lem a f w.buffer s.2 in
    let k = accept_continues a f w.buffer s.2 w.endless in
    let b = (accept a f).0 in
    let chunk = chunk_bytes (accept a f).1 in
    let w' = accept-Waits a n f w s.1 s.2 in
    let ih = feed-Waits b (n + 1) fs w' (rw k.1 s.3) in
    let six : take (fragment_length a) f.fragment ≡ f.fragment =
      ap (λ j. take j f.fragment) (fragment_length-endless a w.endless)
      ∙ take_all 6 f.fragment s.2 in
    rw (push_accepts a f c) (
      append_assoc chunk (feed b fs).1 (held (feed b fs).0)
          ∙ ap (λ xs. chunk ++ xs) ih.0
          ∙ sym (append_assoc chunk (held b) (log_bytes fs))
          ∙ ap (λ xs. xs ++ log_bytes fs) l.0
          ∙ append_assoc (held a) (take (fragment_length a) f.fragment) (log_bytes fs)
          ∙ ap (λ xs. held a ++ (xs ++ log_bytes fs)) six,
      ih.1,
      ih.2 ∙ k.1,
    )

pub begin-Waits :
    (transfer offset n : ℕ) (source : RecoverySource) → Waits (begin transfer source offset 0) n
unfolding begin
begin-Waits transfer offset n source = record {
  buffer = record { room = omega arith; size = refl };
  active = refl;
  endless = refl;
  next = inl refl;
}

pub begin_place :
    (transfer offset : ℕ) (source : RecoverySource)
    → let a = begin transfer source offset 0 in a.offset + a.data_length ≡ offset
unfolding begin
begin_place transfer offset source = omega arith

-- A dump of unknown length: from the start of a transfer on, fragments whose sequence numbers follow
-- one another, wrapping at 256, come out as the same bytes in the same order, the last of them when
-- the transfer is finished.
pub feed-begin :
    (transfer offset n : ℕ) (source : RecoverySource) (fs : List RecoveryLogData)
    → InSequence transfer n fs
    → let (b, out) = feed (begin transfer source offset 0) fs in
      out ++ chunk_bytes (finish b transfer).1 ≡ log_bytes fs
unfolding begin finish take_chunk
feed-begin transfer offset n source fs s =
    let a = begin transfer source offset 0 in
    let w = begin-Waits transfer offset n source in
    let l = feed-Waits a n fs w s in ground (arith, l.0, l.1, l.2)

-- A gap in an active transfer with a nonzero identifier, whose offset fits 32 bits: a fragment with any
-- number but the expected one is refused, the bytes held back are dropped, the transfer ends, and the offset to resume from still lies
-- behind the dropped bytes.
pub push_gap :
    (a : RecoveryAssembler) (f : RecoveryLogData) (n : ℕ)
    → a.active ≡ true
    → f.transfer_id ≡ a.transfer_id
    → a.transfer_id ≢ 0
    → a.expected_sequence ≡ some n
    → f.sequence ≢ n
    → a.offset + a.data_length < 2 ^ 32
    → let (b, answer) = push a f in
      let (c, resume) = abort b in
      (answer ≡ err sequence_gap)
      × (held b ≡ [])
      × (b.active ≡ false)
      × (resume
          ≡ some (record {
            transfer_id = a.transfer_id;
            source = a.source;
            offset = a.offset + a.data_length;
          }))
unfolding push abort
push_gap a f n h t z e g o = ground (arith, e, g)
