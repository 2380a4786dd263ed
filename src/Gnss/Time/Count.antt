-- ===== src/Gnss/Time/Count.antt =====
-- gnss/time.rs: the day number of a date, which the calendar reaches.
use l_comboard.Base.{
  ℕ, zero, suc, ◌+◌, ◌-◌, ◌*◌, ◌≤◌, ◌≡◌, ◌⊎◌, inl, inr, refl, sym, ap, ◌∙◌, if◌then◌else◌, arith,
  Bool-cases, ltb, ◌==◌, true, false,
}
use mathlib.Core.Path.{subst}
use l_comboard.Gnss.Time.{
  leap_year, days_before_year, days_before_month, days_since_epoch, sum_months,
}
use l_comboard.Gnss.Time.Calendar.{
  Date, IsDate, IsMonth, month_days, month_length, month_length_lem, month_days_least, day_number,
  next_day, next_day-IsNext, after, days_before_month-suc, december, december_days,
}

month_start :
    (y k m : ℕ) → 1 ≤ m → m + k ≡ 12 → days_before_month y m + k * 28 ≤ days_before_month y 12
month_start y zero m h e = let last : m ≡ 12 = omega arith in rw last (omega arith)
month_start y (suc k) zero h e = absurd (omega arith)
month_start y (suc k) (suc m) h e =
    let rest = month_start y k (suc (suc m)) (omega arith) (omega arith) in
    omega (
      arith,
      rest,
      days_before_month-suc y m,
      month_days_least y (suc m) (record { first = omega arith; last = omega arith }),
    )

day_of_year_before :
    (y k m d : ℕ)
    → 1 ≤ m
    → m + k ≡ 11
    → d ≤ month_days y m
    → days_before_month y m + d ≤ 365 + (if leap_year y then 1 else 0)
day_of_year_before y k zero d h e l = absurd (omega arith)
day_of_year_before y k (suc m) d h e l = omega (
  arith,
  days_before_month-suc y m,
  month_start y k (suc (suc m)) (omega arith) (omega arith),
  december y,
)

-- A date lies in its year.
day_of_year :
    (t : Date)
    → IsDate t
    → days_before_month t.year t.month + t.day ≤ 365 + (if leap_year t.year then 1 else 0)
day_of_year t w = elim (Bool-cases (t.month == 12)) [
  | inl e ↦
      let last : t.month ≡ 12 = ground (arith, e) in
      let d : t.day ≤ month_days t.year 12 =
        subst (λ m. t.day ≤ month_days t.year m) last w.day_in.1 in
      rw last (omega (arith, d, december t.year, december_days t.year))
  | inr e ↦
      day_of_year_before t.year (11 - t.month) t.month t.day w.month_in.first
        (ground (arith, e, w.month_in.last)) w.day_in.1
]

years :
    (y : ℕ)
    → 1980 ≤ y
    → y ≤ 2079
    → (3652 ≤ days_before_year y - days_before_year 1970)
      × (days_before_year y - days_before_year 1970 + 365 + (if leap_year y then 1 else 0) ≤ 40177)
unfolding days_before_year
years y a b = (omega arith, ground arith)

-- The day numbers of the years from 1980 to 2079.
pub day_number_range :
    (t : Date)
    → IsDate t
    → 1980 ≤ t.year
    → t.year ≤ 2079
    → (3652 ≤ day_number t) × (day_number t ≤ 40176)
unfolding days_since_epoch
day_number_range t w a b = omega (arith, day_of_year t w, years t.year a b, w.day_in)

unfoldable prev_day : Date → Date
prev_day t =
    if ltb 1 t.day
    then record t { day = t.day - 1 }
    else if ltb 1 t.month
    then record { year = t.year; month = t.month - 1; day = month_days t.year (t.month - 1) }
    else record { year = t.year - 1; month = 12; day = 31 }

record IsPrev (t s : Date) : Type 0 where
  valid : IsDate s
  late : 1970 ≤ s.year
  next : next_day s ≡ t

abbrev epoch : Date
epoch = record { year = 1970; month = 1; day = 1 }

month_before :
    (y m : ℕ)
    → 2 ≤ m
    → m ≤ 12
    → IsDate (record { year = y; month = m - 1; day = month_days y (m - 1) })
month_before y m h l =
    let w : IsMonth (m - 1) = record { first = omega arith; last = omega arith } in
    record { month_in = w; day_in = omega (arith, month_days_least y (m - 1) w) }

date_eq : {t u : Date} → t.year ≡ u.year → t.month ≡ u.month → t.day ≡ u.day → t ≡ u
date_eq a b c = cc

next_in_month :
    (t : Date)
    → 2 ≤ t.day
    → t.day ≤ month_days t.year t.month
    → next_day (record t { day = t.day - 1 }) ≡ t
unfolding next_day
next_in_month t a b =
    let early : ltb (t.day - 1) (month_days t.year t.month) ≡ true = ground arith in
    rw (month_length_lem t.year t.month, early) (date_eq refl refl (omega arith))

next_in_year :
    (t : Date)
    → 2 ≤ t.month
    → t.month ≤ 12
    → t.day ≡ 1
    → next_day
        (record { year = t.year; month = t.month - 1; day = month_days t.year (t.month - 1) })
      ≡ t
unfolding next_day
next_in_year t a b c =
    let d = month_days t.year (t.month - 1) in
    let full : ltb d d ≡ false = ground arith in
    let early : ltb (t.month - 1) 12 ≡ true = ground arith in
    rw (month_length_lem t.year (t.month - 1), full, early) (date_eq refl (omega arith) (sym c))

next_to_year :
    (t : Date)
    → 1 ≤ t.year
    → t.month ≡ 1
    → t.day ≡ 1
    → next_day (record { year = t.year - 1; month = 12; day = 31 }) ≡ t
unfolding next_day month_length
next_to_year t a b c = date_eq (omega arith) (sym b) (sym c)

prev_day-IsPrev : (t : Date) → IsDate t → 1970 ≤ t.year → (t ≡ epoch) ⊎ IsPrev t (prev_day t)
unfolding prev_day next_day
prev_day-IsPrev t w h = elim (Bool-cases (ltb 1 t.day)) [
  | inl a ↦ inr (
      rw a (record {
        valid = record { month_in = w.month_in; day_in = ground (arith, a, w.day_in) };
        late = h;
        next = next_in_month t (ground (arith, a)) w.day_in.1;
      }))
  | inr a ↦ elim (Bool-cases (ltb 1 t.month)) [
    | inl b ↦ inr (
        rw (a, b)
          (record {
            valid = month_before t.year t.month (ground (arith, b)) w.month_in.last;
            late = h;
            next = next_in_year t (ground (arith, b)) w.month_in.last (ground (arith, a, w.day_in));
          }))
    | inr b ↦ elim (Bool-cases (ltb 1970 t.year)) [
      | inl c ↦ inr (
          rw (a, b)
            (record {
              valid = record {
                month_in = record { first = omega arith; last = omega arith };
                day_in = omega (arith, december_days (t.year - 1));
              };
              late = ground (arith, c);
              next =
                  next_to_year t (omega arith) (ground (arith, b, w.month_in.first))
                    (ground (arith, a, w.day_in));
            }))
      | inr c ↦ inl (
          date_eq (ground (arith, c)) (ground (arith, b, w.month_in.first))
            (ground (arith, a, w.day_in)))
    ]
  ]
]

epoch_number : day_number epoch ≡ 0
unfolding days_since_epoch days_before_year days_before_month sum_months
epoch_number = refl

next_number : (t : Date) → IsPrev t (prev_day t) → day_number t ≡ day_number (prev_day t) + 1
next_number t p = ap day_number (sym p.next) ∙ (next_day-IsNext (prev_day t) p.valid p.late).number

-- Every date from 1970 on is the one that its day number counts.
pub after-day_number :
    (n : ℕ) (t : Date) → IsDate t → 1970 ≤ t.year → day_number t ≡ n → after n ≡ t
unfolding after
after-day_number zero t w h e = elim (prev_day-IsPrev t w h) [
  | inl first ↦ sym first
  | inr p ↦ absurd (omega (arith, next_number t p, e))
]
after-day_number (suc n) t w h e = elim (prev_day-IsPrev t w h) [
  | inl first ↦
      let zero_number : day_number t ≡ day_number epoch = ap day_number first in
      absurd (omega (arith, zero_number, epoch_number, e))
  | inr p ↦
      ap next_day
        (after-day_number n (prev_day t) p.valid p.late (omega (arith, next_number t p, e)))
      ∙ p.next
]
