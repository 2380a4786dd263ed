-- ===== src/Gnss/Ack/Stream.antt =====
-- gnss/settings.rs: what `AckParser` answers of the bytes that it was given.
use mathlib.Core.List.{append_assoc, append-nil}
use l_comboard.Base.{
  ℕ, zero, suc, ◌+◌, ◌*◌, ◌%◌, ◌≤◌, ◌<◌, ◌≡◌, ◌≢◌, ◌⊎◌, inl, inr, refl, sym, ap, ◌∙◌, List, [], ◌∷◌,
  ◌++◌, false, not, ◌&&◌, Option, none, some, ◌==◌, ltb, if◌then◌else◌, get_or, set, take, length,
  length-set, take-set, take_all, arith, Bool-cases, All,
}
use l_comboard.Gnss.Ack.{
  AckOutcome, ack, nak, AckParser, new, sums, answer, store, push, or_later, first_answer,
}

abbrev code : AckOutcome → ℕ
code ack = 1
code nak = 0

-- The reply of the receiver, as its manual writes it: header, length, the setting and the two sums of
-- Fletcher, of which the second counts each byte as often as it is followed by one, and once more.
abbrev pub reply : ℕ → ℕ → AckOutcome → List ℕ
reply class id o =
    0xb5
    ∷ 0x62
    ∷ 0x05
    ∷ code o
    ∷ 0x02
    ∷ 0x00
    ∷ class
    ∷ id
    ∷ (5 + code o + 2 + 0 + class + id) % 256
    ∷ (6 * 5 + 5 * code o + 4 * 2 + 3 * 0 + 2 * class + id) % 256
    ∷ []

sums-reply :
    (class id c : ℕ)
    → let (a, b) = sums (0x05 ∷ c ∷ 0x02 ∷ 0x00 ∷ class ∷ id ∷ []) 0 0 in
      (a ≡ (5 + c + 2 + 0 + class + id) % 256)
      × (b ≡ (6 * 5 + 5 * c + 4 * 2 + 3 * 0 + 2 * class + id) % 256)
sums-reply class id c = omega arith

-- The parser between two bytes: what it holds starts like a reply.
pub record IsParser (p : AckParser) : Type 0 where
  pub size : length p.bytes ≡ 10
  pub room : p.length < 10
  pub start : (p.length ≡ 0) ⊎ (get_or p.bytes 0 0 ≡ 0xb5)
  pub second : (p.length < 2) ⊎ (get_or p.bytes 1 0 ≡ 0x62)

abbrev held : AckParser → List ℕ
held p = take p.length p.bytes

answer-reply :
    (bytes : List ℕ) (class id : ℕ) (o : AckOutcome)
    → length bytes ≡ 10
    → get_or bytes 0 0 ≡ 0xb5
    → get_or bytes 1 0 ≡ 0x62
    → answer bytes class id ≡ some o
    → bytes ≡ reply class id o
answer-reply (b0 ∷ b1 ∷ b2 ∷ b3 ∷ b4 ∷ b5 ∷ b6 ∷ b7 ∷ b8 ∷ b9 ∷ []) class id ack h s t e =
    ground (arith, s, t, e, sums-reply class id 1)
answer-reply (b0 ∷ b1 ∷ b2 ∷ b3 ∷ b4 ∷ b5 ∷ b6 ∷ b7 ∷ b8 ∷ b9 ∷ []) class id nak h s t e =
    ground (arith, s, t, e, sums-reply class id 0)
answer-reply _ class id o h s t e = absurd (omega (arith, h))

-- One byte: the parser stays one, and an answer closes a reply that ends with this byte.
record Pushed (before : List ℕ) (byte class id : ℕ) (q : AckParser) (o : Option AckOutcome)
    : Type 0 where
  parser : IsParser q
  rest : (gone : List ℕ) × (gone ++ held q ≡ before ++ byte ∷ [])
  answered :
      (a : AckOutcome)
      → o ≡ some a
      → (gone : List ℕ) × (gone ++ reply class id a ≡ before ++ byte ∷ [])

first_set :
    (xs : List ℕ) (n v : ℕ)
    → length xs ≡ 10
    → (n ≡ 0 → v ≡ 0xb5)
    → (n ≡ 0) ⊎ (get_or xs 0 0 ≡ 0xb5)
    → get_or (set xs n v) 0 0 ≡ 0xb5
first_set [] n v e f h = absurd (omega arith)
first_set (x ∷ xs) zero v e f h = f refl
first_set (x ∷ xs) (suc n) v e f h = elim h [ inl z ↦ absurd (omega arith) | inr b ↦ b ]

second_set :
    (xs : List ℕ) (n v : ℕ)
    → length xs ≡ 10
    → 1 ≤ n
    → (n ≡ 1 → v ≡ 0x62)
    → (n < 2) ⊎ (get_or xs 1 0 ≡ 0x62)
    → get_or (set xs n v) 1 0 ≡ 0x62
second_set [] n v e l f h = absurd (omega arith)
second_set (x ∷ []) n v e l f h = absurd (omega arith)
second_set (x ∷ y ∷ xs) zero v e l f h = absurd (omega arith)
second_set (x ∷ y ∷ xs) (suc zero) v e l f h = f refl
second_set (x ∷ y ∷ xs) (suc (suc n)) v e l f h = elim h [
  | inl z ↦ absurd (omega arith)
  | inr b ↦ b
]

take-none : (xs : List ℕ) (n : ℕ) → n ≡ 0 → take n xs ≡ []
take-none xs zero e = refl
take-none xs (suc n) e = absurd (omega arith)

-- What was held, with the byte, stands at the front of the buffer.
held-set :
    (p : AckParser) (byte : ℕ)
    → IsParser p
    → take (p.length + 1) (set p.bytes p.length byte) ≡ held p ++ byte ∷ []
held-set p byte w = take-set p.length p.bytes byte (omega (arith, w.size, w.room))

store-Pushed :
    (p : AckParser) (gone : List ℕ) (byte class id : ℕ)
    → IsParser p
    → (p.length ≡ 0 → byte ≡ 0xb5)
    → (p.length ≡ 1 → byte ≡ 0x62)
    → Pushed (gone ++ held p) byte class id (store p byte class id).0 (store p byte class id).1
unfolding store
store-Pushed p gone byte class id w first second =
    let bytes = set p.bytes p.length byte in
    let size : length bytes ≡ 10 = length-set p.bytes p.length byte ∙ w.size in
    let start : get_or bytes 0 0 ≡ 0xb5 = first_set p.bytes p.length byte w.size first w.start in
    let joined = append_assoc gone (held p) (byte ∷ []) in
    elim (Bool-cases (ltb (p.length + 1) 10)) [
      | inl more ↦ rw more (record {
        parser = record {
          size = size;
          room = ground (arith, more);
          start = inr start;
          second = elim (Bool-cases (p.length == 0)) [
            | inl none_held ↦ inl (ground (arith, none_held))
            | inr some_held ↦ inr (
                second_set p.bytes p.length byte w.size (ground (arith, some_held)) second w.second)
          ];
        };
        rest = (gone, ap (λ xs. gone ++ xs) (held-set p byte w) ∙ sym joined);
        answered = λ a e. absurd cc;
      })
      | inr full ↦ rw full (record {
        parser = record {
          size = size;
          room = omega arith;
          start = inl refl;
          second = inl (omega arith);
        };
        rest = ((gone ++ held p) ++ byte ∷ [], append-nil _);
        answered = λ a e.
            let ten : p.length + 1 ≡ 10 = ground (arith, full, w.room) in
            let whole = take_all (p.length + 1) bytes (size ∙ sym ten) in
            let second_byte =
              second_set p.bytes p.length byte w.size (omega (arith, ten)) second w.second in
            let same = answer-reply bytes class id a size start second_byte e in
            (gone, ap (λ xs. gone ++ xs) (sym same ∙ sym whole ∙ held-set p byte w) ∙ sym joined);
      })
    ]

-- A byte that starts again: it is kept when it is the first of a reply.
restart-Pushed :
    (p : AckParser) (gone : List ℕ) (byte class id : ℕ)
    → IsParser p
    → Pushed
        (gone ++ held p)
        byte
        class
        id
        (record { bytes = set p.bytes 0 byte; length = if byte == 0xb5 then 1 else 0 })
        none
restart-Pushed p gone byte class id w = elim (Bool-cases (byte == 0xb5)) [
  | inl a ↦
      let header : byte ≡ 0xb5 = ground (arith, a) in
      rw a (record {
        parser = record {
          size = length-set p.bytes 0 byte ∙ w.size;
          room = omega arith;
          start = inr (first_set p.bytes 0 byte w.size (λ e. header) (inl refl));
          second = inl (omega arith);
        };
        rest = (
          gone ++ held p,
          ap (λ xs. (gone ++ held p) ++ xs) (take-set 0 p.bytes byte (omega (arith, w.size))),
        );
        answered = λ o e. absurd cc;
      })
  | inr a ↦ rw a (record {
    parser = record {
      size = length-set p.bytes 0 byte ∙ w.size;
      room = omega arith;
      start = inl refl;
      second = inl (omega arith);
    };
    rest = ((gone ++ held p) ++ byte ∷ [], append-nil _);
    answered = λ o e. absurd cc;
  })
]

push-Pushed :
    (p : AckParser) (gone : List ℕ) (byte class id : ℕ)
    → IsParser p
    → Pushed (gone ++ held p) byte class id (push p byte class id).0 (push p byte class id).1
unfolding push
push-Pushed p gone byte class id w = elim (Bool-cases (p.length == 0 && not (byte == 0xb5))) [
  | inl a ↦
      let empty = take-none p.bytes p.length (ground (arith, a)) in
      rw a (record {
        parser = w;
        rest = (
          (gone ++ held p) ++ byte ∷ [],
          ap (λ xs. ((gone ++ held p) ++ byte ∷ []) ++ xs) empty ∙ append-nil _,
        );
        answered = λ o e. absurd cc;
      })
  | inr a ↦ elim (Bool-cases (p.length == 1 && not (byte == 0x62))) [
    | inl b ↦ rw (a, b) (restart-Pushed p gone byte class id w)
    | inr b ↦
        rw (a, b) (store-Pushed p gone byte class id w (ground (arith, a)) (ground (arith, b)))
  ]
]

new-IsParser : IsParser new
unfolding new
new-IsParser = record {
  size = refl;
  room = omega arith;
  start = inl refl;
  second = inl (omega arith);
}

or_later-cases :
    (x later : Option AckOutcome) (o : AckOutcome)
    → or_later x later ≡ some o
    → (x ≡ some o) ⊎ ((x ≡ none) × (later ≡ some o))
or_later-cases (some a) later o e = inl e
or_later-cases none later o e = inr (refl, e)

-- An answer to a stream closes a reply in it.
first_answer-reply :
    (p : AckParser) (gone xs : List ℕ) (class id : ℕ) (o : AckOutcome)
    → IsParser p
    → first_answer p xs class id ≡ some o
    → (before : List ℕ) × (after : List ℕ) × ((gone ++ held p) ++ xs
        ≡ before ++ (reply class id o ++ after))
unfolding first_answer
first_answer-reply p gone [] class id o w e = absurd cc
first_answer-reply p gone (b ∷ bs) class id o w e =
    let step = push-Pushed p gone b class id w in
    let joined = append_assoc (gone ++ held p) (b ∷ []) bs in
    let q = (push p b class id).0 in
    elim (or_later-cases (push p b class id).1 (first_answer q bs class id) o e) [
      | inl now ↦
          let (before, same) = step.answered o now in
          (
            before,
            bs,
            sym joined ∙ ap (λ xs. xs ++ bs) (sym same) ∙ append_assoc before (reply class id o) bs,
          )
      | inr (_, later) ↦
          let (before, same) = step.rest in
          let (front, back, found) = first_answer-reply q before bs class id o step.parser later in
          (front, back, sym joined ∙ ap (λ xs. xs ++ bs) (sym same) ∙ found)
    ]

-- The parser reports only replies that it was sent: an answer to a stream of bytes stands in it as the
-- whole reply of that outcome to the expected setting, checksums included.
pub first_answer_sound :
    (xs : List ℕ) (class id : ℕ) (o : AckOutcome)
    → first_answer new xs class id ≡ some o
    → (before : List ℕ) × (after : List ℕ) × (xs ≡ before ++ (reply class id o ++ after))
unfolding new
first_answer_sound xs class id o e = first_answer-reply new [] xs class id o new-IsParser e

answer_own : (class id : ℕ) (o : AckOutcome) → answer (reply class id o) class id ≡ some o
answer_own class id ack = ground (arith, sums-reply class id 1)
answer_own class id nak = ground (arith, sums-reply class id 0)

first_answer-whole :
    (rest : List ℕ) (class id : ℕ) (o : AckOutcome)
    → first_answer new (reply class id o ++ rest) class id ≡ some o
unfolding first_answer new push store
first_answer-whole rest class id o = rw (answer_own class id o) refl

-- A reply of either outcome to the expected setting is reported, whatever follows it, when no byte
-- before it is the first of a reply.
pub first_answer-delivered :
    (noise rest : List ℕ) (class id : ℕ) (o : AckOutcome)
    → All (λ b. b ≢ 0xb5) noise
    → first_answer new (noise ++ (reply class id o ++ rest)) class id ≡ some o
unfolding first_answer push new
first_answer-delivered [] rest class id o h = first_answer-whole rest class id o
first_answer-delivered (b ∷ bs) rest class id o (n, h) =
    let other : b == 0xb5 ≡ false = ground (arith, n) in
    rw other (first_answer-delivered bs rest class id o h)
