-- ===== src/Lora/Payload/Writer/Read.antt =====
-- payload.rs: fields read back from the bits, and `BitWriter` against that reader.
use l_comboard.Base.{
  ℕ, zero, suc, ◌+◌, ◌-◌, ◌*◌, ◌/◌, ◌%◌, ◌^◌, ◌≤◌, ◌<◌, ◌≡◌, inl, inr, refl, sym, ap, ◌∙◌, List, [],
  ◌∷◌, map, ◌==◌, length, replicate, get_or, arith, Bool-cases, All,
}
use native.Mathlib.Nat.{pow-suc}
use l_comboard.Base.Bits.{bit, bit-zero}
use l_comboard.Base.Result.{ok, err, Result-cases}
use l_comboard.Lora.Payload.Writer.{
  BitWriter, EncodeError, out_of_range, new, write, write_all, write_bits,
}
use l_comboard.Lora.Payload.Writer.Bits.{bit_at, write_bits_lem, length-write_bits}

-- The number whose bits stand from a place on, lowest first.
abbrev pub read_bits : List ℕ → ℕ → ℕ → ℕ
read_bits bytes place zero = 0
read_bits bytes place (suc n) = bit_at bytes place + read_bits bytes (place + 1) n * 2

-- The numbers of the given widths behind one another.
abbrev pub read_fields : List ℕ → ℕ → List ℕ → List ℕ
read_fields bytes place [] = []
read_fields bytes place (width ∷ widths) =
    read_bits bytes place width ∷ read_fields bytes (place + width) widths

-- A number fits its width, which is one of a `u32`.
abbrev pub FitsField : ℕ × ℕ → Type 0
FitsField (value, width) = (width ≤ 32) × (value < 2 ^ width)

abbrev pub widths : List (ℕ × ℕ) → List ℕ
widths fields = map (λ f. f.1) fields

abbrev pub values : List (ℕ × ℕ) → List ℕ
values fields = map (λ f. f.0) fields

abbrev pub total : List ℕ → ℕ
total [] = 0
total (width ∷ ws) = width + total ws

-- The bits behind the offset are clear.
pub record IsWriter (w : BitWriter) : Type 0 where
  pub clear : (place : ℕ) → w.bit_offset ≤ place → bit_at w.bytes place ≡ 0

read_bits-eq :
    (n : ℕ) (bytes : List ℕ) (place value : ℕ)
    → value < 2 ^ n
    → ((i : ℕ) → i < n → bit_at bytes (place + i) ≡ bit i value)
    → read_bits bytes place n ≡ value
read_bits-eq zero bytes place value h b = omega arith
read_bits-eq (suc n) bytes place value h b =
    let r = read_bits-eq n bytes (place + 1) (value / 2) (omega (arith, pow-suc 2 n)) (λ i q.
      let e : place + 1 + i ≡ place + suc i = omega arith in rw e (b (suc i) (omega arith))) in
    let z : bit_at bytes (place + 0) ≡ value % 2 = b 0 (omega arith) in
    let e : place + 0 ≡ place = omega arith in
    let z' : bit_at bytes place ≡ value % 2 = ap (bit_at bytes) (sym e) ∙ z in omega (arith, r, z')

read_bits-cong :
    (n : ℕ) (xs ys : List ℕ) (place : ℕ)
    → ((i : ℕ) → i < place + n → bit_at xs i ≡ bit_at ys i)
    → read_bits xs place n ≡ read_bits ys place n
read_bits-cong zero xs ys place h = refl
read_bits-cong (suc n) xs ys place h =
    omega
      (arith, h place (omega arith), read_bits-cong n xs ys (place + 1) (λ i q. h i (omega arith)))

pub read_fields-cong :
    (ws : List ℕ) (xs ys : List ℕ) (place : ℕ)
    → ((i : ℕ) → i < place + total ws → bit_at xs i ≡ bit_at ys i)
    → read_fields xs place ws ≡ read_fields ys place ws
read_fields-cong [] xs ys place h = refl
read_fields-cong (w ∷ ws) xs ys place h =
    let head = read_bits-cong w xs ys place (λ i q. h i (omega arith)) in
    let rest = read_fields-cong ws xs ys (place + w) (λ i q. h i (omega arith)) in
    rw (head, rest) refl

-- What a successful write leaves.
record Written (w : BitWriter) (value n : ℕ) (w' : BitWriter) : Type 0 where
  offset : w'.bit_offset ≡ w.bit_offset + n
  size : length w'.bytes ≡ length w.bytes
  writer : IsWriter w'
  reads : read_bits w'.bytes w.bit_offset n ≡ value
  before : (place : ℕ) → place < w.bit_offset → bit_at w'.bytes place ≡ bit_at w.bytes place

write-Written :
    (w : BitWriter) (value n : ℕ)
    → IsWriter w
    → FitsField (value, n)
    → w.bit_offset + n ≤ length w.bytes * 8
    → (w' : BitWriter) × (write w value n ≡ ok w') × Written w value n w'
unfolding write
write-Written w value n v f room =
    let after = write_bits n w.bytes value w.bit_offset 0 in
    let (l, bits) =
      write_bits_lem n w.bytes value w.bit_offset 0 (omega arith)
        (λ place q. v.clear place (omega arith)) in
    (
      record { bytes = after; bit_offset = w.bit_offset + n },
      ground arith,
      record {
        offset = refl;
        size = l;
        writer = record { clear = λ place q. ground (arith, bits place, v.clear place) };
        reads = read_bits-eq n after w.bit_offset value f.1 (λ i q.
            let e : w.bit_offset + i - w.bit_offset ≡ i = omega arith in
            ground (arith, bits (w.bit_offset + i), ap (λ (t : ℕ). bit t value) e));
        before = λ place q. ground (arith, bits place);
      },
    )

-- What a sequence of successful writes leaves.
pub record AllWritten (fields : List (ℕ × ℕ)) (w w' : BitWriter) : Type 0 where
  pub offset : w'.bit_offset ≡ w.bit_offset + total (widths fields)
  pub size : length w'.bytes ≡ length w.bytes
  pub writer : IsWriter w'
  pub reads : read_fields w'.bytes w.bit_offset (widths fields) ≡ values fields
  pub before : (place : ℕ) → place < w.bit_offset → bit_at w'.bytes place ≡ bit_at w.bytes place

Written-AllWritten :
    (w w' w'' : BitWriter) (value n : ℕ) (fields : List (ℕ × ℕ))
    → Written w value n w'
    → AllWritten fields w' w''
    → AllWritten ((value, n) ∷ fields) w w''
Written-AllWritten w w' w'' value n fields a b = record {
  offset = omega (arith, a.offset, b.offset);
  size = b.size ∙ a.size;
  writer = b.writer;
  reads =
      ap2
        (read_bits-cong n w''.bytes w'.bytes w.bit_offset
            (λ i q. b.before i (omega (arith, a.offset)))
          ∙ a.reads)
        (ap (λ (t : ℕ). read_fields w''.bytes t (widths fields)) (sym a.offset) ∙ b.reads);
  before = λ place q. b.before place (omega (arith, a.offset)) ∙ a.before place q;
}
  where
    ap2 : {x y : ℕ} {xs ys : List ℕ} → x ≡ y → xs ≡ ys → x ∷ xs ≡ y ∷ ys
    ap2 p q = ground (arith, p, q)

-- Fields that fit, with room for all of them, are written, and are read back; what stands before is
-- kept.
pub write_all-AllWritten :
    (fields : List (ℕ × ℕ)) (w : BitWriter)
    → IsWriter w
    → All FitsField fields
    → w.bit_offset + total (widths fields) ≤ length w.bytes * 8
    → (w' : BitWriter) × (write_all fields w ≡ ok w') × AllWritten fields w w'
unfolding write_all
write_all-AllWritten [] w v f room = (
  w,
  refl,
  record { offset = omega arith; size = refl; writer = v; reads = refl; before = λ place q. refl },
)
write_all-AllWritten ((value, n) ∷ fields) w v (f, fs) room =
    let (w', e, a) = write-Written w value n v f (omega arith) in
    let (w'', e', b) =
      write_all-AllWritten fields w' a.writer fs (omega (arith, a.offset, a.size)) in
    (w'', rw e e', Written-AllWritten w w' w'' value n fields a b)

-- A write of a `u32` that succeeds had a number that fits, and room for it.
write-fits :
    (w w' : BitWriter) (value n : ℕ)
    → value < 2 ^ 32
    → write w value n ≡ ok w'
    → FitsField (value, n)
      × (w'.bit_offset ≡ w.bit_offset + n)
      × (w.bit_offset + n ≤ length w.bytes * 8)
      × (length w'.bytes ≡ length w.bytes)
unfolding write
write-fits w w' value n h e =
    let l = length-write_bits n w.bytes value w.bit_offset 0 in
    elim (Bool-cases (n == 32)) [
      | inl whole ↦
          let q : n ≡ 32 = ground arith in
          let p : 2 ^ n ≡ 2 ^ 32 = ap (λ (t : ℕ). 2 ^ t) q in ground (arith, l)
      | inr part ↦ ground (arith, l)
    ]

-- So a sequence of writes succeeds only where every field fits and there is room for all.
pub write_all-fits :
    (fields : List (ℕ × ℕ)) (w w' : BitWriter)
    → All (λ f. f.0 < 2 ^ 32) fields
    → w.bit_offset ≤ length w.bytes * 8
    → write_all fields w ≡ ok w'
    → All FitsField fields × (w.bit_offset + total (widths fields) ≤ length w.bytes * 8)
unfolding write_all
write_all-fits [] w w' h room e = (tt, omega arith)
write_all-fits ((value, n) ∷ fields) w w' (h, hs) room e = elim (Result-cases (write w value n)) [
  | inl (w1, e1) ↦
      let (f, o, r, l) = write-fits w w1 value n h e1 in
      let rest : write_all fields w1 ≡ ok w' = ground (arith, e1) in
      let (fs, rs) = write_all-fits fields w1 w' hs (omega (arith, o, r, l)) rest in
      ((f, fs), omega (arith, rs, o, l))
  | inr (x, e1) ↦ absurd (ground (arith, e1))
]

write-err :
    (w : BitWriter) (value n : ℕ) (x : EncodeError) → write w value n ≡ err x → x ≡ out_of_range
unfolding write
write-err w value n x e = ground arith

-- What does not succeed is out of range.
pub write_all-err :
    (fields : List (ℕ × ℕ)) (w : BitWriter) (x : EncodeError)
    → write_all fields w ≡ err x
    → x ≡ out_of_range
unfolding write_all
write_all-err [] w x e = ground (arith, e)
write_all-err ((value, n) ∷ fields) w x e = elim (Result-cases (write w value n)) [
  | inl (w1, e1) ↦ write_all-err fields w1 x (ground (arith, e1))
  | inr (y, e1) ↦ let q : x ≡ y = ground (arith, e1) in q ∙ write-err w value n y e1
]

pub new-IsWriter : (n : ℕ) → IsWriter (new n)
unfolding new
new-IsWriter n = record {
  clear = λ place q. ap (bit (place % 8)) (zeros n (place / 8)) ∙ bit-zero (place % 8);
}
  where
    zeros : (n j : ℕ) → get_or {A = ℕ} (replicate n 0) j 0 ≡ 0
    zeros zero j = refl
    zeros (suc n) zero = refl
    zeros (suc n) (suc j) = zeros n j
