-- ===== src/Gnss/Time/Checked.antt =====
-- gnss/time.rs: what a sentence is that `verify_checksum` accepts.
use l_comboard.Base.{
  ℕ, zero, suc, ◌+◌, ◌-◌, ◌*◌, ◌≤◌, ◌<◌, ◌≡◌, ◌⊎◌, inl, inr, refl, sym, ap, ◌∙◌, List, [], ◌∷◌,
  some, take, drop, length, get_elem?, ◌==◌, ltb, is_value, arith, Bool-cases, Option-cases,
}
use mathlib.Core.Path.{subst}
use l_comboard.Base.Result.{ok}
use l_comboard.Lora.Checksum.{xor_checksum}
use l_comboard.Gnss.Time.{to_digit, read_digits, from_str_radix, position, verify_checksum}

-- The letter of a hexadecimal digit, in either case.
abbrev pub IsHex : ℕ → ℕ → Type 0
IsHex b v = ((v < 10) × (b ≡ 48 + v)) ⊎ ((10 ≤ v) × (v < 16) × ((b ≡ 55 + v) ⊎ (b ≡ 87 + v)))

-- The sentence starts with a dollar, and behind the star stands the exclusive or of the bytes between the two, as
-- two hexadecimal digits, or as a plus sign and one.
pub record IsChecked (sentence : List ℕ) (star : ℕ) : Type 0 where
  pub high : ℕ
  pub low : ℕ
  pub first : ℕ
  pub second : ℕ
  pub dollar : get_elem? sentence 0 ≡ some 36
  pub at_star : get_elem? sentence star ≡ some 42
  pub first_at : get_elem? sentence (star + 1) ≡ some first
  pub second_at : get_elem? sentence (star + 2) ≡ some second
  pub high_read : IsHex first high ⊎ ((first ≡ 43) × (high ≡ 0))
  pub low_read : IsHex second low
  pub sum : xor_checksum (take (star - 1) (drop 1 sentence)) ≡ high * 16 + low

to_digit-IsHex : (b d : ℕ) → to_digit 16 b ≡ some d → IsHex b d
to_digit-IsHex b d h = ground arith

read_digits-step :
    (n b : ℕ) (bs : List ℕ) (v : ℕ)
    → read_digits 16 n (b ∷ bs) ≡ some v
    → (d : ℕ) × IsHex b d × (read_digits 16 (n * 16 + d) bs ≡ some v)
read_digits-step n b bs v h = elim (Option-cases (to_digit 16 b)) [
  | inl e ↦ absurd (ground (arith, e, h))
  | inr (d, e) ↦ (d, to_digit-IsHex b d e, ground (arith, e, h))
]

-- Two letters that are read.
record IsRead (b c v : ℕ) : Type 0 where
  high : ℕ
  low : ℕ
  high_read : IsHex b high ⊎ ((b ≡ 43) × (high ≡ 0))
  low_read : IsHex c low
  value : v ≡ high * 16 + low

from_str_radix-IsRead : (b c v : ℕ) → from_str_radix 16 (b ∷ c ∷ []) ≡ some v → IsRead b c v
from_str_radix-IsRead b c v h = elim (Bool-cases (b == 43)) [
  | inl plus ↦
      let (l, hex, e) = read_digits-step 0 c [] v (simp plus at h) in
      record {
        high = 0;
        low = l;
        high_read = inr (ground (arith, plus), refl);
        low_read = hex;
        value = ground (arith, e);
      }
  | inr other ↦
      let (k, upper, e) = read_digits-step 0 b (c ∷ []) v (simp other at h) in
      let (l, lower, e') = read_digits-step (0 * 16 + k) c [] v e in
      record {
        high = k;
        low = l;
        high_read = inl upper;
        low_read = lower;
        value = ground (arith, e');
      }
]

record IsReadAt (xs : List ℕ) (n v : ℕ) : Type 0 where
  b : ℕ
  c : ℕ
  b_at : get_elem? xs n ≡ some b
  c_at : get_elem? xs (suc n) ≡ some c
  digits : IsRead b c v

read_at :
    (xs : List ℕ) (n v : ℕ)
    → n + 2 ≤ length xs
    → from_str_radix 16 (take 2 (drop n xs)) ≡ some v
    → IsReadAt xs n v
read_at [] n v l h = absurd (omega arith)
read_at (b ∷ []) zero v l h = absurd (omega arith)
read_at (b ∷ c ∷ xs) zero v l h = record {
  b = b;
  c = c;
  b_at = refl;
  c_at = refl;
  digits = from_str_radix-IsRead b c v h;
}
read_at (b ∷ xs) (suc n) v l h =
    let r = read_at xs n v (omega arith) h in
    record { b = r.b; c = r.c; b_at = r.b_at; c_at = r.c_at; digits = r.digits }

position-at :
    (b i : ℕ) (xs : List ℕ) (p : ℕ)
    → position b i xs ≡ some p
    → (i ≤ p) × (get_elem? xs (p - i) ≡ some b)
position-at b i [] p h = absurd cc
position-at b i (x ∷ xs) p h = elim (Bool-cases (x == b)) [
  | inl e ↦
      let same : p ≡ i = ground (arith, e, h) in
      let none_left : p - i ≡ 0 = omega (arith, same) in
      (omega (arith, same), rw none_left (ground (arith, e)))
  | inr e ↦
      let (l, at) = position-at b (i + 1) xs p (simp e at h) in
      let one_more : p - i ≡ suc (p - (i + 1)) = omega (arith, l) in
      (omega (arith, l), rw one_more at)
]

-- What the steps of the test amount to.
steps-IsChecked :
    (s : List ℕ) (p x : ℕ)
    → get_elem? s 0 ≡ some 36
    → position 42 0 s ≡ some p
    → p + 3 ≤ length s
    → from_str_radix 16 (take 2 (drop (p + 1) s)) ≡ some x
    → xor_checksum (take (p - 1) (drop 1 s)) ≡ x
    → IsChecked s p
steps-IsChecked s p x a e l n sum =
    let r = read_at s (p + 1) x (omega (arith, l)) n in
    let here : p - 0 ≡ p = omega arith in
    let next : p + 2 ≡ suc (p + 1) = omega arith in
    record {
      high = r.digits.high;
      low = r.digits.low;
      first = r.b;
      second = r.c;
      dollar = a;
      at_star = ap (λ i. get_elem? s i) (sym here) ∙ (position-at 42 0 s p e).1;
      first_at = r.b_at;
      second_at = ap (λ i. get_elem? s i) next ∙ r.c_at;
      high_read = r.digits.high_read;
      low_read = r.digits.low_read;
      sum = sum ∙ r.digits.value;
    }

pub verify_checksum-IsChecked :
    (sentence : List ℕ) (star : ℕ) → verify_checksum sentence ≡ ok star → IsChecked sentence star
unfolding verify_checksum
verify_checksum-IsChecked s star v = elim (Bool-cases (is_value (get_elem? s 0) 36)) [
  | inr a ↦ absurd (ground (arith, a, v))
  | inl a ↦ elim (Option-cases (position 42 0 s)) [
    | inl p ↦ absurd (ground (arith, a, p, v))
    | inr (p, e) ↦ elim (Bool-cases (ltb (length s) (p + 3))) [
      | inl short ↦ absurd (ground (arith, a, e, short, v))
      | inr long ↦ elim (Option-cases (from_str_radix 16 (take 2 (drop (p + 1) s)))) [
        | inl n ↦ absurd (ground (arith, a, e, long, n, v))
        | inr (x, n) ↦ elim (Bool-cases (xor_checksum (take (p - 1) (drop 1 s)) == x)) [
          | inr wrong ↦ absurd (ground (arith, a, e, long, n, wrong, v))
          | inl right ↦
              let same : p ≡ star = ground (arith, a, e, long, n, right, v) in
              subst (IsChecked s) same (
                steps-IsChecked s p x (ground (arith, a)) e (ground (arith, long)) n
                  (ground (arith, right)))
        ]
      ]
    ]
  ]
]
