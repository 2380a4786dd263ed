-- ===== src/Gnss/Time/Calendar.antt =====
-- gnss/time.rs: the seconds of a date against the calendar counted day by day.
use l_comboard.Base.{
  ℕ, zero, suc, ◌+◌, ◌-◌, ◌*◌, ◌/◌, ◌%◌, ◌≤◌, ◌<◌, ◌≡◌, ◌≢◌, ◌⊎◌, inl, inr, refl, ap, ◌∙◌, some,
  if◌then◌else◌, ltb, leb, ◌==◌, ◌&&◌, ◌||◌, not, arith, Bool-cases,
}
use l_comboard.Base.Result.{ok}
use l_comboard.Gnss.Time.{
  leap_year, days_in_month, days_before_year, or_zero, sum_months, days_before_month,
  days_since_epoch, seconds_of, to_unix_seconds,
}

pub record Date : Type 0 where
  pub year : ℕ
  pub month : ℕ
  pub day : ℕ

-- A month has days exactly from 1 to 12, at least 28 of them.
pub record IsMonth (m : ℕ) : Type 0 where
  pub first : 1 ≤ m
  pub last : m ≤ 12

unfoldable pub month_days : ℕ → ℕ → ℕ
month_days y m = or_zero (days_in_month y m)

pub record IsDate (t : Date) : Type 0 where
  pub month_in : IsMonth t.month
  pub day_in : (1 ≤ t.day) × (t.day ≤ month_days t.year t.month)

pub days_in_month-IsMonth :
    (y m k : ℕ) → days_in_month y m ≡ some k → IsMonth m × (month_days y m ≡ k)
unfolding month_days
days_in_month-IsMonth y m k h = ground arith

pub month_days_least : (y m : ℕ) → IsMonth m → 28 ≤ month_days y m
unfolding month_days
month_days_least y m h = ground (arith, h.first, h.last)

-- The days of a month by the Gregorian calendar, 0 where there is no such month.
unfoldable pub month_length : ℕ → ℕ → ℕ
month_length y m =
    if m == 2
    then (if (y % 400 == 0) || ((y % 4 == 0) && not (y % 100 == 0)) then 29 else 28)
    else if (m == 4) || ((m == 6) || ((m == 9) || (m == 11)))
    then 30
    else if leb 1 m && leb m 12
    then 31
    else 0

pub month_length_lem : (y m : ℕ) → month_length y m ≡ month_days y m
unfolding month_length month_days
month_length_lem y m = ground arith

-- The day after a date.
unfoldable pub next_day : Date → Date
next_day t =
    if ltb t.day (month_length t.year t.month)
    then record t { day = t.day + 1 }
    else if ltb t.month 12
    then record { year = t.year; month = t.month + 1; day = 1 }
    else record { year = t.year + 1; month = 1; day = 1 }

another_month : (y n a b : ℕ) → a ≡ b → n + month_days y a ≡ n + month_days y b
another_month y n a b e = ap (λ m. n + month_days y m) e

sum_months_last :
    (y c k n : ℕ) → sum_months y c (suc k) n ≡ sum_months y c k n + month_days y (c + k)
unfolding sum_months month_days
sum_months_last y c zero n = another_month y n c (c + 0) (omega arith)
sum_months_last y c (suc k) n =
    sum_months_last y (c + 1) k (n + month_days y c)
    ∙ another_month y (sum_months y (c + 1) k (n + month_days y c)) (c + 1 + k) (c + suc k)
        (omega arith)

pub days_before_month-suc :
    (y m : ℕ)
    → days_before_month y (suc (suc m)) ≡ days_before_month y (suc m) + month_days y (suc m)
unfolding days_before_month
days_before_month-suc y m =
    let two : suc (suc m) - 1 ≡ suc m = omega arith in
    let one : suc m - 1 ≡ m = omega arith in
    rw (two, one)
      (sum_months_last y 1 m 0 ∙ another_month y (sum_months y 1 m 0) (1 + m) (suc m) (omega arith))

fourths :
    (y : ℕ)
    → 1 ≤ y
    → ((y % 4 ≡ 0) × (y / 4 ≡ (y - 1) / 4 + 1)) ⊎ ((y % 4 ≢ 0) × (y / 4 ≡ (y - 1) / 4))
fourths y h = ground arith

centuries :
    (y : ℕ)
    → 1 ≤ y
    → ((y % 100 ≡ 0) × (y / 100 ≡ (y - 1) / 100 + 1)) ⊎ ((y % 100 ≢ 0) × (y / 100 ≡ (y - 1) / 100))
centuries y h = ground arith

cycles :
    (y : ℕ)
    → 1 ≤ y
    → ((y % 400 ≡ 0) × (y / 400 ≡ (y - 1) / 400 + 1)) ⊎ ((y % 400 ≢ 0) × (y / 400 ≡ (y - 1) / 400))
cycles y h = ground arith

pub days_before_year-suc :
    (y : ℕ)
    → 1 ≤ y
    → days_before_year (suc y) ≡ days_before_year y + 365 + (if leap_year y then 1 else 0)
unfolding days_before_year
days_before_year-suc y h = ground (arith, fourths y h, centuries y h, cycles y h)

pub december : (y : ℕ) → days_before_month y 12 + 31 ≡ 365 + (if leap_year y then 1 else 0)
unfolding days_before_month sum_months
december y = ground arith

pub days_before_year-least : (y : ℕ) → 1970 ≤ y → days_before_year 1970 ≤ days_before_year y
unfolding days_before_year
days_before_year-least y h = omega arith

-- The day counted from the epoch.
abbrev pub day_number : Date → ℕ
day_number t = days_since_epoch t.year t.month t.day

pub record IsNext (t u : Date) : Type 0 where
  pub valid : IsDate u
  pub late : 1970 ≤ u.year
  pub number : day_number u ≡ day_number t + 1

same_month : (y m d : ℕ) → 1 ≤ d → days_since_epoch y m (d + 1) ≡ days_since_epoch y m d + 1
unfolding days_since_epoch
same_month y m d h = omega arith

month_end :
    (y m : ℕ) → IsMonth m → days_since_epoch y (m + 1) 1 ≡ days_since_epoch y m (month_days y m) + 1
unfolding days_since_epoch
month_end y zero h = absurd (omega (arith, h.first))
month_end y (suc m) h =
    let next : suc m + 1 ≡ suc (suc m) = omega arith in
    rw next (omega (arith, days_before_month-suc y m, month_days_least y (suc m) h))

pub january : (y : ℕ) → days_before_month y 1 ≡ 0
unfolding days_before_month sum_months
january y = refl

pub december_days : (y : ℕ) → month_days y 12 ≡ 31
unfolding month_days
december_days y = refl

january_days : (y : ℕ) → month_days y 1 ≡ 31
unfolding month_days
january_days y = refl

year_end : (y : ℕ) → 1970 ≤ y → days_since_epoch (y + 1) 1 1 ≡ days_since_epoch y 12 31 + 1
unfolding days_since_epoch
year_end y h =
    let next : y + 1 ≡ suc y = omega arith in
    rw next (
      ground (
        arith,
        days_before_year-suc y (omega arith),
        days_before_year-least y h,
        december y,
        january (suc y),
      ))

pub next_day-IsNext : (t : Date) → IsDate t → 1970 ≤ t.year → IsNext t (next_day t)
unfolding next_day
next_day-IsNext t w h =
    rw (month_length_lem t.year t.month)
      (elim (Bool-cases (ltb t.day (month_days t.year t.month))) [
        | inl a ↦ rw a (record {
          valid = record { month_in = w.month_in; day_in = ground (arith, a, w.day_in) };
          late = h;
          number = same_month t.year t.month t.day w.day_in.0;
        })
        | inr a ↦
            let full : t.day ≡ month_days t.year t.month = ground (arith, a, w.day_in) in
            elim (Bool-cases (ltb t.month 12)) [
              | inl b ↦
                  rw (a, b)
                    (let m : IsMonth (t.month + 1) = record {
                      first = omega arith;
                      last = ground (arith, b);
                    } in
                      record {
                        valid = record {
                          month_in = m;
                          day_in = omega (arith, month_days_least t.year (t.month + 1) m);
                        };
                        late = h;
                        number = rw full (month_end t.year t.month w.month_in);
                      })
              | inr b ↦
                  rw (a, b)
                    (let twelve : t.month ≡ 12 = ground (arith, b, w.month_in.last) in
                      record {
                        valid = record {
                          month_in = record { first = omega arith; last = omega arith };
                          day_in = omega (arith, january_days (t.year + 1));
                        };
                        late = omega arith;
                        number = rw (full, twelve, december_days t.year) (year_end t.year h);
                      })
            ]
      ])

-- The date some days after 1970-01-01.
unfoldable pub after : ℕ → Date
after zero = record { year = 1970; month = 1; day = 1 }
after (suc n) = next_day (after n)

after_lem : (n : ℕ) → IsDate (after n) × (1970 ≤ (after n).year) × (day_number (after n) ≡ n)
unfolding after days_since_epoch days_before_year days_before_month sum_months
after_lem zero = (
  record {
    month_in = record { first = omega arith; last = omega arith };
    day_in = omega (arith, january_days 1970);
  },
  omega arith,
  refl,
)
after_lem (suc n) =
    let (w, late, number) = after_lem n in
    let next = next_day-IsNext (after n) w late in
    (next.valid, next.late, omega (arith, next.number, number))

seconds_of_lem :
    (n hour minute second : ℕ)
    → n ≤ 49709
    → hour < 24
    → minute < 60
    → second ≤ 60
    → seconds_of n hour minute second ≡ some (n * 86400 + hour * 3600 + minute * 60 + second)
unfolding seconds_of
seconds_of_lem n hour minute second d h m s = ground arith

-- On the date that lies `n` days after 1970-01-01, counted by the calendar one day at a time, and up to
-- the last day that a u32 holds, the conversion gives the seconds of `n` days and of the time of the
-- day, the second 60 included.
pub to_unix_seconds-after :
    (n hour minute second : ℕ)
    → n ≤ 49709
    → hour < 24
    → minute < 60
    → second ≤ 60
    → let t = after n in
      to_unix_seconds t.year t.month t.day hour minute second
      ≡ ok (n * 86400 + hour * 3600 + minute * 60 + second)
unfolding to_unix_seconds
to_unix_seconds-after n hour minute second d h m s =
    let (w, late, number) = after_lem n in
    let seconds = seconds_of_lem n hour minute second d h m s in
    rw (number, seconds) (ground (arith, late))
