-- ===== src/Gnss/Time/Sentence.antt =====
-- gnss/time.rs: `parse_rmc_datetime` from its fields to its seconds.
use l_comboard.Base.{
  ℕ, zero, suc, ◌+◌, ◌-◌, ◌*◌, ◌≤◌, ◌<◌, ◌≡◌, refl, Bool, true, false, not, Option, some, arith,
  List, [], ◌∷◌, take, drop, length, get_elem?, ltb,
}
use mathlib.Core.Path.{subst}
use l_comboard.Base.Result.{ok, refuse, ok_or, ◌>>=◌, ◌>>◌}
use l_comboard.Gnss.Time.{
  GnssDateTime, Parsed, verify_checksum, parse_time, parse_date, parse_rmc_datetime,
  to_unix_seconds, split, is_rmc, invalid_talker, missing_field,
}
use l_comboard.Gnss.Time.Calendar.{Date, day_number, after, to_unix_seconds-after}
use l_comboard.Gnss.Time.Count.{day_number_range, after-day_number}
use l_comboard.Gnss.Time.Parse.{IsTime, parse_time-IsTime, parse_date-IsDate}

-- What a sentence tells: a day counted from 1970-01-01, and a time of that day.
pub record Told (time date : List ℕ) (d : GnssDateTime) : Type 0 where
  pub days : ℕ
  pub hour : ℕ
  pub minute : ℕ
  pub second : ℕ
  pub in_range : (3652 ≤ days) × (days ≤ 40176)
  pub of_day : IsTime hour minute second
  pub time_read : parse_time time ≡ ok (hour, minute, second, d.milliseconds)
  pub date_read : parse_date date ≡ ok ((after days).year, (after days).month, (after days).day)
  pub seconds : d.unix_seconds ≡ days * 86400 + hour * 3600 + minute * 60 + second
  pub fraction : d.milliseconds < 1000

-- The last part of `parse_rmc_datetime`.
abbrev convert : List ℕ → List ℕ → Parsed GnssDateTime
convert time date = do
  (hour, minute, second, milliseconds) ← parse_time time
  (year, month, day) ← parse_date date
  unix_seconds ← to_unix_seconds year month day hour minute second
  ok (record { unix_seconds = unix_seconds; milliseconds = milliseconds })

get_elem?-length :
    (xs : List (List ℕ)) (i : ℕ) (x : List ℕ) → get_elem? xs i ≡ some x → i < length xs
get_elem?-length [] i x h = absurd cc
get_elem?-length (y ∷ ys) zero x h = omega arith
get_elem?-length (y ∷ ys) (suc i) x h = omega (arith, get_elem?-length ys i x h)

told :
    (time date : List ℕ) (h m s ms y mo d : ℕ)
    → parse_time time ≡ ok (h, m, s, ms)
    → parse_date date ≡ ok (y, mo, d)
    → (t : GnssDateTime) × (convert time date ≡ ok t) × Told time date t
told time date h m s ms y mo d pt pd =
    let t : Date = record { year = y; month = mo; day = d } in
    let (clock, fraction) = parse_time-IsTime time h m s ms pt in
    let (w, low, high) = parse_date-IsDate date y mo d pd in
    let n = day_number t in
    let range = day_number_range t w low high in
    let reached = after-day_number n t w (omega arith) refl in
    let total =
      to_unix_seconds-after n h m s (omega (arith, range)) clock.hours clock.minutes
        clock.seconds in
    let here : to_unix_seconds y mo d h m s ≡ ok (n * 86400 + h * 3600 + m * 60 + s) =
      subst
        (λ (u : Date).
          to_unix_seconds u.year u.month u.day h m s ≡ ok (n * 86400 + h * 3600 + m * 60 + s))
        reached total in
    (
      record { unix_seconds = n * 86400 + h * 3600 + m * 60 + s; milliseconds = ms },
      rw (pt, pd, here) refl,
      record {
        days = n;
        hour = h;
        minute = m;
        second = s;
        in_range = range;
        of_day = clock;
        time_read = pt;
        date_read = rw reached pd;
        seconds = refl;
        fraction = fraction;
      },
    )

-- The middle of `parse_rmc_datetime`, on the fields that it looks up.
abbrev join_fields :
    Option (List ℕ) → Option (List ℕ) → Bool → Option (List ℕ) → Parsed GnssDateTime
join_fields first second short tenth = do
  talker ← ok_or first missing_field
  refuse (not (is_rmc talker)) invalid_talker
  time ← ok_or second missing_field
  refuse short missing_field
  date ← ok_or tenth missing_field
  convert time date

-- The fields of a sentence without its `$`, up to the star.
abbrev pub fields_of : List ℕ → ℕ → List (List ℕ)
fields_of sentence star = split (take (star - 1) (drop 1 sentence))

-- Once the checksum, the talker, the time and the date of a sentence are read, it is accepted: the
-- conversion to seconds cannot fail.
pub parse_rmc_datetime_total :
    (sentence : List ℕ) (star h m s ms y mo d : ℕ) (talker time date : List ℕ)
    → verify_checksum sentence ≡ ok star
    → get_elem? (fields_of sentence star) 0 ≡ some talker
    → is_rmc talker ≡ true
    → get_elem? (fields_of sentence star) 1 ≡ some time
    → get_elem? (fields_of sentence star) 9 ≡ some date
    → parse_time time ≡ ok (h, m, s, ms)
    → parse_date date ≡ ok (y, mo, d)
    → (t : GnssDateTime) × (parse_rmc_datetime sentence ≡ ok t)
unfolding parse_rmc_datetime
parse_rmc_datetime_total sentence star h m s ms y mo d talker time date v f0 rmc f1 f9 pt pd =
    let (t, e, _) = told time date h m s ms y mo d pt pd in
    let fields = fields_of sentence star in
    let long : ltb (length fields) 9 ≡ false = ground (arith, get_elem?-length fields 9 date f9) in
    (t, rw (v, f0, rmc, f1, long, f9) e)
