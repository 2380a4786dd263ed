-- ===== src/Lora/Uplink/Buffer.antt =====
-- lora_uplink.rs: the frame buffer against the list of bytes it stands for.
use l_comboard.Base.{
  ℕ, zero, suc, ◌+◌, ◌-◌, ◌<◌, ◌≡◌, ◌≢◌, refl, ap, List, [], ◌∷◌, ◌++◌, Option, none, some, ◌⊎◌,
  inl, inr, length, take, drop, set, arith, ◌==◌, take_prefix, take-set, take_all, length-set,
  length-take, length-append, length-drop, if◌then◌else◌, Bool-cases,
}
use l_comboard.Base.Result.{Result, ok, err}
use l_comboard.Lora.Uplink.{
  UplinkCommand, UplinkDecodeError, UplinkFrameBuffer, decode_uplink, header_position,
  resynchronize, complete, push,
}

-- The bytes from the first header on.
abbrev from_header : List ℕ → List ℕ
from_header [] = []
from_header (x ∷ xs) = if x == 0x55 then x ∷ xs else from_header xs

-- The buffer as a list: the bytes received since the last header kept.
abbrev pub held : UplinkFrameBuffer → List ℕ
held b = take b.length b.bytes

abbrev pub Outcome : Type 0
Outcome = Option (Result UplinkDecodeError UplinkCommand)

-- What eleven bytes become.
abbrev pub settled : List ℕ → Result UplinkDecodeError UplinkCommand → List ℕ × Outcome
settled h (ok c) = ([], some (ok c))
settled h (err e) = (from_header (drop 1 h), some (err e))

-- A byte after the bytes held.
abbrev pub held_push : List ℕ → ℕ → List ℕ × Outcome
held_push h x =
    if length h == 0
    then if x == 0x55 then (x ∷ [], none) else ([], none)
    else if length h == 10
    then settled (h ++ x ∷ []) (decode_uplink (h ++ x ∷ []))
    else (h ++ x ∷ [], none)

pub record IsBuffer (b : UplinkFrameBuffer) : Type 0 where
  pub size : length b.bytes ≡ 11
  pub room : b.length < 11

header_cases :
    (xs : List ℕ)
    → ((header_position xs ≡ none) × (from_header xs ≡ []))
      ⊎ ((i : ℕ) × (header_position xs ≡ some i) × (i < length xs) × (from_header xs ≡ drop i xs))
header_cases [] = inl (refl, refl)
header_cases (x ∷ xs) = elim (header_cases xs) [
  | inl (n, e) ↦ elim (Bool-cases (x == 0x55)) [
    | inl t ↦ inr (0, ground arith, omega arith, ground arith)
    | inr f ↦ inl (ground arith, ground arith)
  ]
  | inr (i, p, l, e) ↦ elim (Bool-cases (x == 0x55)) [
    | inl t ↦ inr (0, ground arith, omega arith, ground arith)
    | inr f ↦ inr (suc i, ground arith, omega arith, ground arith)
  ]
]

length-held : (b : UplinkFrameBuffer) → IsBuffer b → length (held b) ≡ b.length
length-held b w = ground (arith, length-take b.length b.bytes, w.size)

drop_one : (i : ℕ) (xs : List ℕ) → drop i (drop 1 xs) ≡ drop (i + 1) xs
drop_one zero xs = refl
drop_one (suc i) [] = let e : suc i + 1 ≡ suc (i + 1) = omega arith in rw e refl
drop_one (suc i) (x ∷ xs) = let e : suc i + 1 ≡ suc (suc i) = omega arith in rw e refl

length_11 : (xs : List ℕ) → length xs ≡ 11 → (x : ℕ) × (rest : List ℕ) × (xs ≡ x ∷ rest)
length_11 [] h = absurd (omega arith)
length_11 (x ∷ rest) h = (x, rest, refl)

-- A full buffer that was refused keeps what follows its first byte from the next header on.
resynchronize-held :
    (b : UplinkFrameBuffer)
    → length b.bytes ≡ 11
    → IsBuffer (resynchronize b) × (held (resynchronize b) ≡ from_header (drop 1 b.bytes))
unfolding resynchronize
resynchronize-held b n = elim (header_cases (drop 1 b.bytes)) [
  | inl (p, e) ↦
      let r : resynchronize b ≡ record { bytes = b.bytes; length = 0 } = ground arith in
      rw (r, e) (record { size = n; room = omega arith }, refl)
  | inr (i, p, l, e) ↦
      let d : drop i (drop 1 b.bytes) ≡ drop (i + 1) b.bytes = drop_one i b.bytes in
      let r : resynchronize b ≡ record {
        bytes = drop (i + 1) b.bytes ++ drop (11 - (i + 1)) b.bytes;
        length = 11 - (i + 1);
      } =
        ground arith in
      let le = length-drop (i + 1) b.bytes in
      let lt = length-drop (11 - (i + 1)) b.bytes in
      let la = length-append (drop (i + 1) b.bytes) (drop (11 - (i + 1)) b.bytes) in
      rw (r, e, d)
        (record { size = omega arith; room = omega arith }, take_prefix _ _ _ (omega arith))
]

complete-held :
    (b : UplinkFrameBuffer) (r : Result UplinkDecodeError UplinkCommand)
    → length b.bytes ≡ 11
    → IsBuffer (complete b r).0 × ((held (complete b r).0, (complete b r).1) ≡ settled b.bytes r)
unfolding complete
complete-held b (ok c) n = (record { size = n; room = omega arith }, refl)
complete-held b (err e) n =
    let (w, h) = resynchronize-held b n in (w, ap (λ k. (k, some (err e))) h)

push_first-held :
    (b : UplinkFrameBuffer) (x : ℕ)
    → IsBuffer b
    → b.length ≡ 0
    → IsBuffer (push b x).0 × ((held (push b x).0, (push b x).1) ≡ held_push (held b) x)
unfolding push
push_first-held b x w z =
    let n = length-held b w in
    let t = take-set 0 b.bytes x (omega (arith, w.size)) in
    let l = length-set b.bytes 0 x in
    elim (Bool-cases (x == 0x55)) [
      | inl e ↦
          let p : push b x ≡ (record { bytes = set b.bytes 0 x; length = 1 }, none) =
            ground arith in
          let h : held_push (held b) x ≡ (x ∷ [], none) = ground arith in
          rw (p, h)
            (record { size = omega (arith, w.size); room = omega arith }, ap (λ k. (k, none)) t)
      | inr e ↦
          let p : push b x ≡ (b, none) = ground arith in
          let h : held_push (held b) x ≡ ([], none) = ground arith in
          rw (p, h) (w, ap (λ k. (take k b.bytes, none)) z)
    ]

push_next-held :
    (b : UplinkFrameBuffer) (x : ℕ)
    → IsBuffer b
    → b.length ≢ 0
    → IsBuffer (push b x).0 × ((held (push b x).0, (push b x).1) ≡ held_push (held b) x)
unfolding push
push_next-held b x w nz =
    let n = length-held b w in
    let l = length-set b.bytes b.length x in
    let t = take-set b.length b.bytes x (omega (arith, w.room, w.size)) in
    let b' : UplinkFrameBuffer = record { bytes = set b.bytes b.length x; length = b.length + 1 } in
    elim (Bool-cases (b.length == 10)) [
      | inl f ↦
          let ten : b.length ≡ 10 = ground arith in
          let p : push b x ≡ complete b' (decode_uplink b'.bytes) = ground arith in
          let whole = take_all (b.length + 1) (set b.bytes b.length x) (omega (arith, w.size, l)) in
          let h : held_push (held b) x ≡ settled b'.bytes (decode_uplink b'.bytes) = ground arith in
          rw (p, h) (complete-held b' (decode_uplink b'.bytes) (omega (arith, w.size, l)))
      | inr g ↦
          let more : b.length ≢ 10 = ground arith in
          let p : push b x ≡ (b', none) = ground arith in
          let h : held_push (held b) x ≡ (held b ++ x ∷ [], none) = ground arith in
          rw (p, h)
            (
              record { size = omega (arith, w.size, l); room = omega (arith, w.room, more) },
              ap (λ k. (k, none)) t,
            )
    ]

-- A push onto a well-formed buffer keeps it well-formed and does to the bytes it stands for, and
-- reports, what `held_push` says: a first byte is kept only if it is the header; the eleventh
-- byte is decoded with the ten before it, and a refused frame leaves its bytes from the next
-- header on.
pub push-held :
    (b : UplinkFrameBuffer) (x : ℕ)
    → IsBuffer b
    → IsBuffer (push b x).0 × ((held (push b x).0, (push b x).1) ≡ held_push (held b) x)
push-held b x w = elim (Bool-cases (b.length == 0)) [
  | inl z ↦ push_first-held b x w (ground arith)
  | inr nz ↦ push_next-held b x w (ground arith)
]
