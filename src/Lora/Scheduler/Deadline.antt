-- ===== src/Lora/Scheduler/Deadline.antt =====
-- lora_scheduler.rs: the absolute deadline of the periodic packets.
use l_comboard.Base.{
  ℕ, ◌+◌, ◌-◌, ◌*◌, ◌/◌, ◌≤◌, ◌<◌, ◌≡◌, ◌↔◌, ◌⊎◌, none, some, ltb, if◌then◌else◌, min, arith,
}
use l_comboard.Base.Checked.{u32_max, u64_max}
use l_comboard.Lora.Scheduler.{DeadlineAdvance, advance_deadline}

-- The intervals from the old deadline to the next.
abbrev pub slots : ℕ → ℕ → ℕ → ℕ
slots deadline now interval = if ltb now deadline then 0 else (now - deadline) / interval + 1

div_bounds :
    (n i : ℕ)
    → 0 < i
    → ((n / i + 1) * i ≤ n + i) × (n < (n / i + 1) * i) × (n / i + 1 ≤ (n / i + 1) * i)
div_bounds n i h = grind arith

-- The deadline that is due: the old one if it lies ahead, and else the first of its phase after now.
abbrev pub due : ℕ → ℕ → ℕ → ℕ
due deadline now interval = deadline + slots deadline now interval * interval

-- From a deadline within 64 bits, a successful step gives the due deadline, a whole number of intervals after the old one, with the
-- number of intervals, up to the largest of 32 bits, as missed slots. It lies after now, at most one
-- interval after it unless it is the old deadline, and fits 64 bits.
pub advance_deadline_lem :
    (deadline now interval : ℕ) (a : DeadlineAdvance)
    → deadline ≤ u64_max
    → advance_deadline deadline now interval ≡ some a
    → (a.next_deadline_us ≡ due deadline now interval)
      × (now < a.next_deadline_us)
      × ((a.next_deadline_us ≡ deadline) ⊎ (a.next_deadline_us ≤ now + interval))
      × (a.next_deadline_us ≤ u64_max)
      × (a.missed_slots ≡ min (slots deadline now interval) u32_max)
unfolding advance_deadline
advance_deadline_lem deadline now interval a h e =
    ground (arith, div_bounds (now - deadline) interval)

-- With both times within 64 bits, the step fails exactly where no deadline can be given: without an
-- interval, and where the due deadline does not fit 64 bits.
pub advance_deadline-none :
    (deadline now interval : ℕ)
    → deadline ≤ u64_max
    → now ≤ u64_max
    → (advance_deadline deadline now interval ≡ none)
      ↔ ((interval ≡ 0) ⊎ (u64_max < due deadline now interval))
unfolding advance_deadline
advance_deadline-none deadline now interval h n =
    ground (arith, div_bounds (now - deadline) interval)
