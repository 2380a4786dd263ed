-- ===== src/Lora/Scheduler/Tests.antt =====
-- The cases of the schedule that lora_scheduler.rs tests, and some others.
use l_comboard.Base.{ℕ, ◌+◌, ◌≤◌, ◌<◌, ◌≡◌, ◌⊎◌, refl, true, false, some, arith, min}
use l_comboard.Base.Checked.{u32_max, u64_max}
use l_comboard.Lora.Scheduler.{
  periodic, recovery, DeadlineAdvance, advance_deadline, ground_time_queue_action, ignore_duplicate,
  replace_oldest, should_clear_periodic_events, should_defer_preempted,
  preempted_periodic_missed_slots, recovery_next_eligible_at_us, periodic_due_for_reselection,
  deferred_recovery_blocked,
}
use l_comboard.Lora.Scheduler.Deadline.{slots, due, advance_deadline_lem}

abbrev advance : DeadlineAdvance
advance = record { next_deadline_us = 2500000; missed_slots = 4 }

-- `scheduler_recovers_after_a_long_timeout`
advance_after_timeout : advance_deadline 500000 2130000 500000 ≡ some advance
unfolding advance_deadline
advance_after_timeout = refl

abbrev interval : ℕ
interval = 500000

advance_deadline_lem_example :
    (advance.next_deadline_us ≡ due 500000 2130000 interval)
    × (2130000 < advance.next_deadline_us)
    × ((advance.next_deadline_us ≡ 500000) ⊎ (advance.next_deadline_us ≤ 2130000 + interval))
    × (advance.next_deadline_us ≤ u64_max)
    × (advance.missed_slots ≡ min (slots 500000 2130000 interval) u32_max)
advance_deadline_lem_example =
    advance_deadline_lem 500000 2130000 interval advance (omega arith) advance_after_timeout

duplicate_ignored : ground_time_queue_action (some 7) 7 true ≡ ignore_duplicate
unfolding ground_time_queue_action
duplicate_ignored = refl

full_queue_replaces : ground_time_queue_action (some 7) 8 true ≡ replace_oldest
unfolding ground_time_queue_action
full_queue_replaces = refl

events_kept : should_clear_periodic_events periodic true 0 ≡ false
unfolding should_clear_periodic_events
events_kept = refl

slot_missed : preempted_periodic_missed_slots periodic ≡ 1
unfolding preempted_periodic_missed_slots
slot_missed = refl

recovery_deferred : should_defer_preempted recovery ≡ true
unfolding should_defer_preempted
recovery_deferred = refl

recovery_spaced : recovery_next_eligible_at_us 1000 50 ≡ some 1050
unfolding recovery_next_eligible_at_us
recovery_spaced = refl

invalid_deadline_not_due : periodic_due_for_reselection recovery false true ≡ false
unfolding periodic_due_for_reselection
invalid_deadline_not_due = refl

recovery_blocked : deferred_recovery_blocked recovery true true ≡ true
unfolding deferred_recovery_blocked
recovery_blocked = refl
