-- ===== src/Lora/Scheduler/Fairness.antt =====
-- lora_scheduler.rs: the order of the sources, and the retry of a displaced periodic packet.
use l_comboard.Base.{
  ℕ, ◌+◌, ◌≤◌, ◌<◌, ◌≡◌, ◌≢◌, ◌↔◌, ◌⊎◌, Bool, true, false, Option, none, some, if◌then◌else◌, arith,
}
use l_comboard.Base.Checked.{u64_max}
use l_comboard.Lora.Scheduler.{
  LoRaTxSource, is_periodic, is_recovery, is_higher_priority, select_periodic_deadline,
  consume_periodic_selection, periodic_retry_after_nonperiodic_attempt,
  recovery_displaced_regular_slot, periodic_retry_after_recovery_us,
}

-- The sources are in a strict total order: none is above itself, of two different ones exactly one is
-- above the other, and what is above a higher one is above a lower one.
pub is_higher_priority_order :
    (a b c : LoRaTxSource)
    → (is_higher_priority a a ≡ false)
      × ((a ≡ b) ⊎ (is_higher_priority a b ≢ is_higher_priority b a))
      × ((is_higher_priority a b ≡ false)
          ⊎ (is_higher_priority b c ≡ false)
          ⊎ (is_higher_priority a c ≡ true))
unfolding is_higher_priority
is_higher_priority_order a b c = ground arith

-- Where the next regular deadline fits 64 bits, the periodic deadline that is taken is the earlier one of a valid regular deadline and a retry, the
-- regular one on a tie; taking a retry leaves the regular deadline where it is, taking the regular one
-- moves it by one interval, and either way no retry is left.
pub select_periodic_deadline_lem :
    (regular interval : ℕ) (valid : Bool) (retry : Option ℕ)
    → regular + interval ≤ u64_max
    → let s = select_periodic_deadline regular valid retry in
      let c = consume_periodic_selection regular s.retry_selected interval in
      ((s.retry_selected ≡ true)
        ↔ ((at : ℕ) × (retry ≡ some at) × ((valid ≡ false) ⊎ (at < regular))))
      × ((s.deadline_us ≡ regular) ⊎ (retry ≡ some s.deadline_us))
      × (c.next_regular_deadline_us
          ≡ some (if s.retry_selected then regular else regular + interval))
      × (c.retry_at_us ≡ none)
unfolding select_periodic_deadline consume_periodic_selection
select_periodic_deadline_lem regular interval valid none h = ground arith
select_periodic_deadline_lem regular interval valid (some at) h = ground arith

-- Where that time fits 64 bits, a periodic packet is retried exactly when a recovery chunk has
-- displaced it from its regular slot, at the end of that chunk and the minimum gap; the retry outlives
-- a further attempt of another source exactly when that one ends before the retry's time.
pub periodic_retry_lem :
    (selected higher attempted : LoRaTxSource) (regular : Bool) (completed gap later : ℕ)
    → completed + gap ≤ u64_max
    → is_periodic attempted ≡ false
    → let displaced = recovery_displaced_regular_slot selected higher regular in
      let retry = periodic_retry_after_recovery_us completed gap displaced in
      let kept = periodic_retry_after_nonperiodic_attempt retry later attempted in
      ((retry ≡ some (completed + gap))
        ↔ ((regular ≡ true) × (is_periodic selected ≡ true) × (is_recovery higher ≡ true)))
      × ((kept ≡ none) ↔ ((displaced ≡ false) ⊎ (completed + gap ≤ later)))
      × ((kept ≡ none) ⊎ (kept ≡ retry))
unfolding recovery_displaced_regular_slot periodic_retry_after_recovery_us
    periodic_retry_after_nonperiodic_attempt
periodic_retry_lem selected higher attempted regular completed gap later h p = ground arith
