-- ===== src/Gnss/Time.antt =====
-- gnss/time.rs: the date and the time of an RMC sentence. A byte is a number below 256.
pub mod Calendar
pub mod Count
pub mod Parse
pub mod Checked
pub mod Sentence
use l_comboard.Base.{
  ℕ, zero, suc, ◌+◌, ◌-◌, ◌*◌, ◌/◌, ◌%◌, ◌^◌, min, List, [], ◌∷◌, Bool, true, false, not, ◌&&◌,
  ◌||◌, Option, none, some, ◌==◌, ltb, leb, if◌then◌else◌, length, get_elem?, get_or, take, drop,
  is_value,
}
use mathlib.Core.Option
use l_comboard.Base.Checked.{checked, u32_max, u64_max}
use l_comboard.Base.Result.{Result, ok, err, ◌>>=◌, ◌>>◌, ok_or, refuse}
use l_comboard.Lora.Checksum.{xor_checksum}

pub record GnssDateTime : Type 0 where
  pub unix_seconds : ℕ
  pub milliseconds : ℕ

pub data GnssTimeParseError : Type 0 where
  invalid_start : GnssTimeParseError
  missing_field : GnssTimeParseError
  invalid_checksum : GnssTimeParseError
  invalid_talker : GnssTimeParseError
  parse_error : GnssTimeParseError
  out_of_range : GnssTimeParseError

abbrev pub Parsed : Type 0 → Type 0
Parsed A = Result GnssTimeParseError A

-- `char::to_digit` on an ASCII byte, for a radix up to 16.
abbrev pub to_digit : ℕ → ℕ → Option ℕ
to_digit radix b =
    let d =
      if leb 48 b && leb b 57
      then some (b - 48)
      else if leb 65 b && leb b 70
      then some (b - 55)
      else if leb 97 b && leb b 102
      then some (b - 87)
      else none in
    elim d [ none ↦ none | some v ↦ if ltb v radix then some v else none ]

-- The digits of `u8::from_str_radix`, after those that gave `n`.
abbrev pub read_digits : ℕ → ℕ → List ℕ → Option ℕ
read_digits radix n [] = some n
read_digits radix n (b ∷ bs) = elim (to_digit radix b) [
  | none ↦ none
  | some d ↦
      let m = n * radix + d in let rest = read_digits radix m bs in if leb m 255 then rest else none
]

-- `u8::from_str_radix`: digits, at least one, after at most one `+`.
abbrev pub from_str_radix : ℕ → List ℕ → Option ℕ
from_str_radix radix [] = none
from_str_radix radix (b ∷ []) = read_digits radix 0 (b ∷ [])
from_str_radix radix (b ∷ c ∷ bs) =
    if b == 43 then read_digits radix 0 (c ∷ bs) else read_digits radix 0 (b ∷ c ∷ bs)

-- `iter().position`, from an index on.
abbrev pub position : ℕ → ℕ → List ℕ → Option ℕ
position b i [] = none
position b i (x ∷ xs) = let rest = position b (i + 1) xs in if x == b then some i else rest

-- The index of the `*` of a sentence whose checksum is right.
unfoldable pub verify_checksum : List ℕ → Parsed ℕ
verify_checksum sentence = do
  refuse (not (is_value (get_elem? sentence 0) 36)) invalid_start
  star ← ok_or (position 42 0 sentence) missing_field
  refuse (ltb (length sentence) (star + 3)) parse_error
  expected ← ok_or (from_str_radix 16 (take 2 (drop (star + 1) sentence))) parse_error
  refuse (not (xor_checksum (take (star - 1) (drop 1 sentence)) == expected)) invalid_checksum
  ok star

-- `from_utf8` and `parse::<u8>`: bytes that are not UTF-8 are not digits either.
unfoldable pub parse_u8 : List ℕ → Parsed ℕ
parse_u8 field = ok_or (from_str_radix 10 field) parse_error

abbrev pub is_ascii_digit : ℕ → Bool
is_ascii_digit b = leb 48 b && leb b 57

abbrev pub all_digits : List ℕ → Bool
all_digits [] = true
all_digits (b ∷ bs) = is_ascii_digit b && all_digits bs

-- A digit of a fraction, 0 where there is none.
unfoldable pub digit_at : List ℕ → ℕ → ℕ
digit_at fraction index = elim (get_elem? fraction index) [ none ↦ 0 | some digit ↦ digit - 48 ]

-- The loop over the first three digits of a fraction, from `index` on with `left` to go.
abbrev pub read_fraction : List ℕ → ℕ → ℕ → ℕ → ℕ
read_fraction fraction index zero value = value
read_fraction fraction index (suc left) value =
    read_fraction fraction (index + 1) left (value * 10 + digit_at fraction index)

unfoldable pub parse_milliseconds : List ℕ → Parsed ℕ
parse_milliseconds field = if length field == 6 then ok 0 else do
  refuse (not (is_value (get_elem? field 6) 46)) parse_error
  let fraction = drop 7 field
  refuse (length fraction == 0 || not (all_digits fraction)) parse_error
  ok (read_fraction fraction 0 3 0)

unfoldable pub parse_time : List ℕ → Parsed (ℕ × ℕ × ℕ × ℕ)
parse_time field = do
  refuse (ltb (length field) 6) parse_error
  hour ← parse_u8 (take 2 field)
  minute ← parse_u8 (take 2 (drop 2 field))
  second ← parse_u8 (take 2 (drop 4 field))
  refuse (leb 24 hour || (leb 60 minute || ltb 60 second)) out_of_range
  milliseconds ← parse_milliseconds field
  ok (hour, minute, second, milliseconds)

abbrev pub leap_year : ℕ → Bool
leap_year year = (year % 4 == 0) && (not (year % 100 == 0) || (year % 400 == 0))

abbrev pub is_one_of : ℕ → List ℕ → Bool
is_one_of n [] = false
is_one_of n (m ∷ ms) = (n == m) || is_one_of n ms

abbrev pub days_in_month : ℕ → ℕ → Option ℕ
days_in_month year month =
    if is_one_of month (1 ∷ 3 ∷ 5 ∷ 7 ∷ 8 ∷ 10 ∷ 12 ∷ [])
    then some 31
    else if is_one_of month (4 ∷ 6 ∷ 9 ∷ 11 ∷ [])
    then some 30
    else if month == 2
    then some (if leap_year year then 29 else 28)
    else none

unfoldable pub parse_date : List ℕ → Parsed (ℕ × ℕ × ℕ)
parse_date field = do
  refuse (not (length field == 6)) parse_error
  day ← parse_u8 (take 2 field)
  month ← parse_u8 (take 2 (drop 2 field))
  short_year ← parse_u8 (take 2 (drop 4 field))
  let year = if leb 80 short_year then 1900 + short_year else 2000 + short_year
  maximum_day ← ok_or (days_in_month year month) out_of_range
  refuse ((day == 0) || ltb maximum_day day) out_of_range
  ok (year, month, day)

unfoldable pub days_before_year : ℕ → ℕ
days_before_year year =
    let before = year - 1 in 365 * before + before / 4 - before / 100 + before / 400

-- `unwrap_or(0)`
abbrev pub or_zero : Option ℕ → ℕ
or_zero none = 0
or_zero (some n) = n

-- The loop of `days_before_month`, from `current` on with `left` months to go.
unfoldable pub sum_months : ℕ → ℕ → ℕ → ℕ → ℕ
sum_months year current zero days = days
sum_months year current (suc left) days =
    sum_months year (current + 1) left (days + or_zero (days_in_month year current))

unfoldable pub days_before_month : ℕ → ℕ → ℕ
days_before_month year month = sum_months year 1 (month - 1) 0

-- Of a year after 1970 and a day that is not 0, the only arguments it is called with.
unfoldable pub days_since_epoch : ℕ → ℕ → ℕ → ℕ
days_since_epoch year month day =
    days_before_year year - days_before_year 1970 + days_before_month year month + (day - 1)

-- `checked_add` of u64, on a sum that may be missing.
abbrev pub add_checked : Option ℕ → ℕ → Option ℕ
add_checked none n = none
add_checked (some s) n = checked u64_max (s + n)

unfoldable pub seconds_of : ℕ → ℕ → ℕ → ℕ → Option ℕ
seconds_of days hour minute second =
    let leap_second_carry = if second == 60 then 1 else 0 in
    let normal_second = min second 59 in
    let hours = add_checked (checked u64_max (days * 86400)) (hour * 3600) in
    add_checked (add_checked hours (minute * 60)) (normal_second + leap_second_carry)

unfoldable pub to_unix_seconds : ℕ → ℕ → ℕ → ℕ → ℕ → ℕ → Parsed ℕ
to_unix_seconds year month day hour minute second = do
  refuse (ltb year 1970) out_of_range
  let days = days_since_epoch year month day
  seconds ← ok_or (seconds_of days hour minute second) out_of_range
  ok_or (checked u32_max seconds) out_of_range

-- `split(|value| *value == b',')`: the field so far, reversed, then the others.
abbrev pub split : List ℕ → List (List ℕ)
split [] = [] ∷ []
split (b ∷ bs) =
    let fields = split bs in
    if b == 44 then [] ∷ fields else (b ∷ get_or fields 0 []) ∷ drop 1 fields

-- `&talker[talker.len() - 3..] != b"RMC"`
abbrev pub is_rmc : List ℕ → Bool
is_rmc talker =
    let end = drop (length talker - 3) talker in
    leb 5 (length talker)
    && is_value (get_elem? end 0) 82
    && is_value (get_elem? end 1) 77
    && is_value (get_elem? end 2) 67

-- The ten calls of `fields.next()`: the fields 0, 1 and 9 are used, and the others must be there.
unfoldable pub parse_rmc_datetime : List ℕ → Parsed GnssDateTime
parse_rmc_datetime sentence = do
  star ← verify_checksum sentence
  let fields = split (take (star - 1) (drop 1 sentence))
  talker ← ok_or (get_elem? fields 0) missing_field
  refuse (not (is_rmc talker)) invalid_talker
  time ← ok_or (get_elem? fields 1) missing_field
  refuse (ltb (length fields) 9) missing_field
  date ← ok_or (get_elem? fields 9) missing_field
  (hour, minute, second, milliseconds) ← parse_time time
  (year, month, day) ← parse_date date
  unix_seconds ← to_unix_seconds year month day hour minute second
  ok (record { unix_seconds = unix_seconds; milliseconds = milliseconds })
