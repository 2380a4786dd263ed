-- ===== src/Gnss/Time/Parse.antt =====
-- gnss/time.rs: the ranges of what the fields and the sentences parse to.
use l_comboard.Base.{
  ℕ, zero, suc, ◌+◌, ◌*◌, ◌≤◌, ◌<◌, ◌≡◌, ◌⊎◌, inl, inr, refl, Bool, true, false, not, ◌||◌, Option,
  some, if◌then◌else◌, ◌==◌, ltb, leb, arith, Bool-cases, Option-cases, List, [], ◌∷◌, take, drop,
  length, get_elem?,
}
use l_comboard.Base.Result.{ok, err, refuse, ok_or, ◌>>=◌, ◌>>◌}
use l_comboard.Gnss.Time.{
  Parsed, to_digit, read_digits, from_str_radix, parse_u8, parse_milliseconds, read_fraction,
  digit_at, all_digits, parse_time, parse_date, days_in_month, out_of_range, parse_error,
}
use l_comboard.Gnss.Time.Calendar.{IsDate, days_in_month-IsMonth}

to_digit-lt : (b d : ℕ) → to_digit 10 b ≡ some d → d < 10
to_digit-lt b d h = ground arith

read_digits_step :
    (n b : ℕ) (bs : List ℕ) (v : ℕ)
    → read_digits 10 n (b ∷ bs) ≡ some v
    → (d : ℕ) × (d < 10) × (read_digits 10 (n * 10 + d) bs ≡ some v)
read_digits_step n b bs v h = elim (Option-cases (to_digit 10 b)) [
  | inl e ↦ absurd (ground (arith, e, h))
  | inr (d, e) ↦ (d, to_digit-lt b d e, ground (arith, e, h))
]

read_digits-one : (b v : ℕ) → read_digits 10 0 (b ∷ []) ≡ some v → v ≤ 9
read_digits-one b v h = let (d, lt, e) = read_digits_step 0 b [] v h in ground (arith, lt, e)

read_digits-two : (b c v : ℕ) → read_digits 10 0 (b ∷ c ∷ []) ≡ some v → v ≤ 99
read_digits-two b c v h =
    let (d, lt, e) = read_digits_step 0 b (c ∷ []) v h in
    let (u, lt', e') = read_digits_step (0 * 10 + d) c [] v e in ground (arith, lt, lt', e')

if-either :
    (t : Bool) (x y : Option ℕ) (v : ℕ)
    → (if t then x else y) ≡ some v
    → (x ≡ some v) ⊎ (y ≡ some v)
if-either true x y v h = inl h
if-either false x y v h = inr h

from_str_radix-two : (bs : List ℕ) (v : ℕ) → from_str_radix 10 (take 2 bs) ≡ some v → v ≤ 99
from_str_radix-two [] v h = ground arith
from_str_radix-two (b ∷ []) v h = omega (arith, read_digits-one b v h)
from_str_radix-two (b ∷ c ∷ bs) v h =
    elim (if-either (b == 43) (read_digits 10 0 (c ∷ [])) (read_digits 10 0 (b ∷ c ∷ [])) v h) [
      | inl e ↦ omega (arith, read_digits-one c v e)
      | inr e ↦ read_digits-two b c v e
    ]

parse_u8-two : (bs : List ℕ) (v : ℕ) → parse_u8 (take 2 bs) ≡ ok v → v ≤ 99
unfolding parse_u8
parse_u8-two bs v h = elim (Option-cases (from_str_radix 10 (take 2 bs))) [
  | inl e ↦ absurd (ground (arith, e, h))
  | inr (n, e) ↦ from_str_radix-two bs v (ground (arith, e, h))
]

all_digits-get :
    (bs : List ℕ) (i d : ℕ) → all_digits bs ≡ true → get_elem? bs i ≡ some d → (48 ≤ d) × (d ≤ 57)
all_digits-get [] i d h e = absurd (ground (arith, e))
all_digits-get (b ∷ bs) zero d h e = ground (arith, h, e)
all_digits-get (b ∷ bs) (suc i) d h e = all_digits-get bs i d (ground (arith, h)) e

digit_at_range : (bs : List ℕ) (i : ℕ) → all_digits bs ≡ true → digit_at bs i ≤ 9
unfolding digit_at
digit_at_range bs i h = elim (Option-cases (get_elem? bs i)) [
  | inl e ↦ rw (e, digit_at) (omega arith)
  | inr (d, e) ↦ rw (e, digit_at) (omega (arith, all_digits-get bs i d h e))
]

read_fraction_range : (bs : List ℕ) → all_digits bs ≡ true → read_fraction bs 0 3 0 < 1000
read_fraction_range bs h =
    omega (arith, digit_at_range bs 0 h, digit_at_range bs 1 h, digit_at_range bs 2 h)

parse_milliseconds_range : (field : List ℕ) (ms : ℕ) → parse_milliseconds field ≡ ok ms → ms < 1000
unfolding parse_milliseconds
parse_milliseconds_range field ms h = elim (Bool-cases (all_digits (drop 7 field))) [
  | inl d ↦ ground (arith, h, read_fraction_range (drop 7 field) d)
  | inr d ↦ ground (arith, d, h)
]

pub record IsTime (hour minute second : ℕ) : Type 0 where
  pub hours : hour < 24
  pub minutes : minute < 60
  pub seconds : second ≤ 60

-- `parse_time` after its fields were read.
abbrev join_time : Bool → Parsed ℕ → Parsed ℕ → Parsed ℕ → Parsed ℕ → Parsed (ℕ × ℕ × ℕ × ℕ)
join_time short rh rm rs rms = do
  refuse short parse_error
  hour ← rh
  minute ← rm
  second ← rs
  refuse (leb 24 hour || (leb 60 minute || ltb 60 second)) out_of_range
  milliseconds ← rms
  ok (hour, minute, second, milliseconds)

join_time-IsTime :
    (short : Bool) (rh rm rs rms : Parsed ℕ) (h m s ms : ℕ)
    → join_time short rh rm rs rms ≡ ok (h, m, s, ms)
    → IsTime h m s × (rms ≡ ok ms)
join_time-IsTime false (ok a) (ok b) (ok c) (ok d) h m s ms e = ground arith
join_time-IsTime true _ _ _ _ h m s ms e = ground arith
join_time-IsTime false (err x) _ _ _ h m s ms e = ground arith
join_time-IsTime false (ok a) (err x) _ _ h m s ms e = ground arith
join_time-IsTime false (ok a) (ok b) (err x) _ h m s ms e = ground arith
join_time-IsTime false (ok a) (ok b) (ok c) (err x) h m s ms e = ground arith

-- A time that parses is a time of a day, with at most a leap second.
pub parse_time-IsTime :
    (field : List ℕ) (h m s ms : ℕ)
    → parse_time field ≡ ok (h, m, s, ms)
    → IsTime h m s × (ms < 1000)
unfolding parse_time
parse_time-IsTime field h m s ms e =
    let (time, r) =
      join_time-IsTime (ltb (length field) 6) (parse_u8 (take 2 field))
        (parse_u8 (take 2 (drop 2 field))) (parse_u8 (take 2 (drop 4 field)))
        (parse_milliseconds field) h m s ms e in
    (time, parse_milliseconds_range field ms r)

-- `parse_date` after its fields were read.
abbrev join_date : Bool → Parsed ℕ → Parsed ℕ → Parsed ℕ → Parsed (ℕ × ℕ × ℕ)
join_date odd rd rm rs = do
  refuse odd parse_error
  day ← rd
  month ← rm
  short_year ← rs
  let year = if leb 80 short_year then 1900 + short_year else 2000 + short_year
  maximum_day ← ok_or (days_in_month year month) out_of_range
  refuse ((day == 0) || ltb maximum_day day) out_of_range
  ok (year, month, day)

date_checked :
    (a b c k y m d : ℕ)
    → days_in_month (if leb 80 c then 1900 + c else 2000 + c) b ≡ some k
    → join_date false (ok a) (ok b) (ok c) ≡ ok (y, m, d)
    → ((y ≡ (if leb 80 c then 1900 + c else 2000 + c)) × (m ≡ b) × (d ≡ a)) × (1 ≤ a) × (a ≤ k)
date_checked a b c k y m d found e = ground (arith, found, e)

join_date-IsDate :
    (odd : Bool) (rd rm rs : Parsed ℕ) (y m d : ℕ)
    → ((s : ℕ) → rs ≡ ok s → s ≤ 99)
    → join_date odd rd rm rs ≡ ok (y, m, d)
    → IsDate (record { year = y; month = m; day = d }) × (1980 ≤ y) × (y ≤ 2079)
join_date-IsDate false (ok a) (ok b) (ok c) y m d two e =
    let low = two c refl in
    let year = if leb 80 c then 1900 + c else 2000 + c in
    elim (Option-cases (days_in_month year b)) [
      | inl none_left ↦ absurd (ground (arith, none_left, e))
      | inr (k, found) ↦
          let (month, days) = days_in_month-IsMonth year b k found in
          let ((in_year, in_month, on_day), first, last) = date_checked a b c k y m d found e in
          rw (in_year, in_month, on_day)
            (
              record { month_in = month; day_in = (first, omega (arith, days, last)) },
              ground (arith, low),
              ground (arith, low),
            )
    ]
join_date-IsDate true _ _ _ y m d two e = ground arith
join_date-IsDate false (err x) _ _ y m d two e = ground arith
join_date-IsDate false (ok a) (err x) _ y m d two e = ground arith
join_date-IsDate false (ok a) (ok b) (err x) y m d two e = ground arith

pub parse_date-IsDate :
    (field : List ℕ) (y m d : ℕ)
    → parse_date field ≡ ok (y, m, d)
    → IsDate (record { year = y; month = m; day = d }) × (1980 ≤ y) × (y ≤ 2079)
unfolding parse_date
parse_date-IsDate field y m d e =
    join_date-IsDate (not (length field == 6)) (parse_u8 (take 2 field))
      (parse_u8 (take 2 (drop 2 field))) (parse_u8 (take 2 (drop 4 field))) y m d
      (λ s. parse_u8-two (drop 4 field) s) e
