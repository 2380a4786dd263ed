-- ===== src/Lora/Scheduler.antt =====
-- lora_scheduler.rs: the pure decisions of the transmission schedule. Times are u64 microseconds.
pub mod Deadline
pub mod Fairness
mod Tests
use l_comboard.Base.{
  ℕ, ◌+◌, ◌-◌, ◌*◌, ◌/◌, Bool, true, false, not, ◌&&◌, ◌||◌, Option, none, some, ◌==◌, leb, ltb,
  is_value, if◌then◌else◌, min,
}
use l_comboard.Base.Checked.{◌>>=◌, checked, checked_sub, u32_max, u64_max}

pub data LoRaTxSource : Type 0 where
  periodic recovery ground_time_request command_result emergency_result : LoRaTxSource

pub record DeadlineAdvance : Type 0 where
  pub next_deadline_us : ℕ
  pub missed_slots : ℕ

-- `advance_deadline` once the deadline has passed.
abbrev pub skip_slots : ℕ → ℕ → ℕ → Option DeadlineAdvance
skip_slots deadline_us now_us interval_us = do
  elapsed_us ← checked_sub now_us deadline_us
  skipped ← checked u64_max (elapsed_us / interval_us + 1)
  advance_us ← checked u64_max (skipped * interval_us)
  next_deadline_us ← checked u64_max (deadline_us + advance_us)
  if leb next_deadline_us now_us
      then none
      else some (record {
        next_deadline_us = next_deadline_us;
        missed_slots = if ltb u32_max skipped then u32_max else skipped;
      })

pub advance_deadline : ℕ → ℕ → ℕ → Option DeadlineAdvance
advance_deadline deadline_us now_us interval_us =
    if interval_us == 0
    then none
    else if ltb now_us deadline_us
    then some (record { next_deadline_us = deadline_us; missed_slots = 0 })
    else skip_slots deadline_us now_us interval_us

pub data GroundTimeQueueAction : Type 0 where
  ignore_duplicate enqueue replace_oldest : GroundTimeQueueAction

unfoldable pub ground_time_queue_action : Option ℕ → ℕ → Bool → GroundTimeQueueAction
ground_time_queue_action previous_request_id request_id queue_is_full =
    if is_value previous_request_id request_id
    then ignore_duplicate
    else if queue_is_full
    then replace_oldest
    else enqueue

-- `matches!(source, LoRaTxSource::Periodic)` and `matches!(source, LoRaTxSource::Recovery)`
abbrev pub is_periodic : LoRaTxSource → Bool
is_periodic periodic = true
is_periodic _ = false

abbrev pub is_recovery : LoRaTxSource → Bool
is_recovery recovery = true
is_recovery _ = false

pub should_clear_periodic_events : LoRaTxSource → Bool → ℕ → Bool
should_clear_periodic_events source transmitted interval_events =
    is_periodic source && (transmitted && not (interval_events == 0))

-- `source as u8`
unfoldable pub priority : LoRaTxSource → ℕ
priority periodic = 0
priority recovery = 1
priority ground_time_request = 2
priority command_result = 3
priority emergency_result = 4

unfoldable pub is_higher_priority : LoRaTxSource → LoRaTxSource → Bool
unfolding priority
is_higher_priority candidate selected = ltb (priority selected) (priority candidate)

unfoldable pub should_defer_preempted : LoRaTxSource → Bool
should_defer_preempted source = not (is_periodic source)

pub preempted_periodic_missed_slots : LoRaTxSource → ℕ
preempted_periodic_missed_slots periodic = 1
preempted_periodic_missed_slots _ = 0

unfoldable pub recovery_next_eligible_at_us : ℕ → ℕ → Option ℕ
recovery_next_eligible_at_us completed_at_us minimum_gap_us =
    checked u64_max (completed_at_us + minimum_gap_us)

unfoldable pub recovery_allowed : Bool → Bool → Bool
recovery_allowed recovery_sent_since_periodic periodic_due =
    not recovery_sent_since_periodic || not periodic_due

pub periodic_due_for_reselection : LoRaTxSource → Bool → Bool → Bool
periodic_due_for_reselection selected_source periodic_deadline_valid deadline_reached =
    is_periodic selected_source || (periodic_deadline_valid && deadline_reached)

unfoldable pub deferred_recovery_blocked : LoRaTxSource → Bool → Bool → Bool
unfolding recovery_allowed
deferred_recovery_blocked deferred_source recovery_sent_since_periodic periodic_due =
    is_recovery deferred_source && not (recovery_allowed recovery_sent_since_periodic periodic_due)

pub update_recovery_fairness : Bool → LoRaTxSource → Bool
update_recovery_fairness recovery_sent_since_periodic recovery = true
update_recovery_fairness recovery_sent_since_periodic periodic = false
update_recovery_fairness recovery_sent_since_periodic _ = recovery_sent_since_periodic

pub record PeriodicDeadlineSelection : Type 0 where
  pub deadline_us : ℕ
  pub retry_selected : Bool

unfoldable pub select_periodic_deadline : ℕ → Bool → Option ℕ → PeriodicDeadlineSelection
select_periodic_deadline regular_deadline_us regular_deadline_valid none = record {
  deadline_us = regular_deadline_us;
  retry_selected = false;
}
select_periodic_deadline regular_deadline_us regular_deadline_valid (some retry_at_us) =
    if not regular_deadline_valid || ltb retry_at_us regular_deadline_us
    then record { deadline_us = retry_at_us; retry_selected = true }
    else record { deadline_us = regular_deadline_us; retry_selected = false }

unfoldable regular_deadline_after_selection : ℕ → Bool → ℕ → Option ℕ
regular_deadline_after_selection regular_deadline_us retry_selected interval_us =
    if retry_selected
    then some regular_deadline_us
    else checked u64_max (regular_deadline_us + interval_us)

pub record PeriodicDeadlineConsumption : Type 0 where
  pub next_regular_deadline_us : Option ℕ
  pub retry_at_us : Option ℕ

pub consume_periodic_selection : ℕ → Bool → ℕ → PeriodicDeadlineConsumption
unfolding regular_deadline_after_selection
consume_periodic_selection regular_deadline_us retry_selected interval_us = record {
  next_regular_deadline_us =
      regular_deadline_after_selection regular_deadline_us retry_selected interval_us;
  retry_at_us = none;
}

pub periodic_retry_after_nonperiodic_attempt : Option ℕ → ℕ → LoRaTxSource → Option ℕ
periodic_retry_after_nonperiodic_attempt retry_at_us completed_at_us attempted_source =
    if is_periodic attempted_source then retry_at_us else elim retry_at_us [
      | some at_us ↦ if leb at_us completed_at_us then none else some at_us
      | none ↦ none
    ]

pub periodic_retry_after_recovery_us : ℕ → ℕ → Bool → Option ℕ
periodic_retry_after_recovery_us completed_at_us minimum_gap_us displaced_regular_slot =
    if displaced_regular_slot then checked u64_max (completed_at_us + minimum_gap_us) else none

pub recovery_displaced_regular_slot : LoRaTxSource → LoRaTxSource → Bool → Bool
recovery_displaced_regular_slot selected_source higher_source regular_periodic_selected =
    regular_periodic_selected && (is_periodic selected_source && is_recovery higher_source)
