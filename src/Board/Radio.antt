-- ===== src/Board/Radio.antt =====
-- tasks/lora_task_base.rs: what the radio sends next, and the deadlines after it. An instant is its
-- microseconds, the greatest one `Instant::MAX`; `try_from` stands for `Instant::try_from_micros`.
pub mod Priority
pub mod Deadlines
pub mod Deferred
use l_comboard.Base.{
  ℕ, ◌+◌, ◌*◌, ◌/◌, Bool, true, false, not, ◌&&◌, ◌||◌, Option, none, some, ◌==◌, leb,
  if◌then◌else◌,
}
use l_comboard.Base.Checked.{◌>>=◌, saturating, u32_max, u64_max}
use l_comboard.Can.Cache.{CanCache}
use l_comboard.Lora.Payload.Packets.{LoraFrame}
use l_comboard.Lora.Periodic.{GnssTelemetry, Shared}
use l_comboard.Lora.Periodic.Packet.{PeriodicPacket, periodic_packet}
use l_comboard.Lora.Scheduler.{
  LoRaTxSource, DeadlineAdvance, PeriodicDeadlineSelection, advance_deadline, is_higher_priority,
  periodic_due_for_reselection, recovery_allowed, update_recovery_fairness,
  select_periodic_deadline, consume_periodic_selection, periodic_retry_after_nonperiodic_attempt,
  recovery_next_eligible_at_us, periodic_retry_after_recovery_us, is_recovery,
}
use l_comboard.Lora.Scheduler.{
  should_defer_preempted, preempted_periodic_missed_slots, recovery_displaced_regular_slot,
}
use l_comboard.Board.Channel.{Channels}
use l_comboard.Board.Downlink.{Downlink, LoRaTxEnvelope, periodic}

pub periodic_interval_ms : Bool → Bool → ℕ
periodic_interval_ms recovery_active control_roll_cycle_active =
    if recovery_active then 10000 else if control_roll_cycle_active then 500 / 2 else 500

-- The local variables of `lora_tx_task`, and LORA_PERIODIC_MISSED_SLOT_COUNT.
pub record TxTask : Type 0 where
  pub control_roll_cycle_active : Bool
  pub prefer_control_roll_v2 : Bool
  pub interval_us : ℕ
  pub next_tx_at : ℕ
  pub periodic_deadline_valid : Bool
  pub next_recovery_at : ℕ
  pub pending_recovery : Option LoRaTxEnvelope
  pub deferred_envelope : Option LoRaTxEnvelope
  pub periodic_retry_at : Option ℕ
  pub recovery_sent_since_periodic : Bool
  pub missed_slots : ℕ

unfoldable pub add_periodic_missed_slots : TxTask → ℕ → TxTask
add_periodic_missed_slots t value =
    if value == 0
    then t
    else record t { missed_slots = saturating u32_max (t.missed_slots + value) }

-- What the step of the deadline makes of the task, and the slots that it missed.
abbrev pub advanced : TxTask → Option DeadlineAdvance → Option (TxTask × ℕ)
advanced t none = none
advanced t (some a) = some (
  add_periodic_missed_slots (record t { next_tx_at = a.next_deadline_us }) a.missed_slots,
  a.missed_slots,
)

pub skip_overdue_periodic_deadlines : TxTask → ℕ → Option (TxTask × ℕ)
skip_overdue_periodic_deadlines t now = advanced t (advance_deadline t.next_tx_at now t.interval_us)

-- Where no deadline can be given, the periodic packets stop.
abbrev pub stopped_or : TxTask → Option (TxTask × ℕ) → TxTask × ℕ
stopped_or t none = (record t { periodic_deadline_valid = false }, 0)
stopped_or t (some r) = r

unfoldable pub settle_deadline : TxTask → ℕ → TxTask × ℕ
unfolding skip_overdue_periodic_deadlines
settle_deadline t now =
    if t.periodic_deadline_valid
    then stopped_or t (skip_overdue_periodic_deadlines t now)
    else (t, 0)

-- A periodic deadline was selected: its interval is chosen anew and it is consumed, whether it is the regular one
-- or the retry.
abbrev pub regular_deadline : TxTask → Option ℕ → TxTask
regular_deadline t none = record t { periodic_deadline_valid = false }
regular_deadline t (some deadline) = record t { next_tx_at = deadline }

pub consume_slot : (ℕ → Option ℕ) → TxTask → PeriodicDeadlineSelection → Bool → TxTask
unfolding periodic_interval_ms
consume_slot try_from t selection recovery_active =
    let interval = periodic_interval_ms recovery_active t.control_roll_cycle_active * 1000 in
    let c = consume_periodic_selection t.next_tx_at selection.retry_selected interval in
    let t1 : TxTask = record t {
      interval_us = interval;
      periodic_retry_at = c.retry_at_us >>= try_from;
    } in
    if selection.retry_selected
    then t1
    else regular_deadline t1 (c.next_regular_deadline_us >>= try_from)

-- The envelope of a periodic packet, or the end of a slot without one.
pub periodic_envelope : TxTask → Option PeriodicPacket → ℕ → TxTask × Option LoRaTxEnvelope
unfolding settle_deadline
periodic_envelope t none now = (
  (settle_deadline
      (record t {
        recovery_sent_since_periodic =
            update_recovery_fairness t.recovery_sent_since_periodic LoRaTxSource.periodic;
      })
      now).0,
  none,
)
periodic_envelope t (some p) now = (
  record t {
    control_roll_cycle_active = p.control_roll_cycle_available;
    prefer_control_roll_v2 = p.control_roll_cycle_available && not p.is_control_roll_v2;
  },
  some (periodic p.frame p.transmitted_events p.event_revision),
)

-- A slot of the periodic packets, from its deadline to its envelope.
pub periodic_slot :
    (ℕ → Option ℕ)
    → TxTask
    → PeriodicDeadlineSelection
    → CanCache
    → ℕ
    → GnssTelemetry
    → Shared
    → ℕ
    → TxTask × Option LoRaTxEnvelope × Shared
unfolding consume_slot periodic_envelope
periodic_slot try_from t selection cache now_ms gnss shared now_us =
    let t1 = consume_slot try_from t selection shared.recovery_beacon_active in
    let (packet, shared') =
      periodic_packet t1.prefer_control_roll_v2 false cache now_ms gnss shared in
    let (t2, envelope) = periodic_envelope t1 packet now_us in (t2, envelope, shared')

-- Without a next instant the log waits for ever.
abbrev pub or_max : Option ℕ → ℕ
or_max none = u64_max
or_max (some at) = at

-- The end of a round, after an attempt to send: the retry, the next time of the log, the fairness, and
-- the deadlines that have passed. RECOVERY_LOG_INTERVAL_MS is 200.
abbrev pub retry_after : (ℕ → Option ℕ) → TxTask → LoRaTxSource → ℕ → Bool → Option ℕ
retry_after try_from t source completed_at displaced =
    if displaced && is_recovery source
    then periodic_retry_after_recovery_us completed_at 200000 true >>= try_from
    else t.periodic_retry_at

abbrev pub attempted : (ℕ → Option ℕ) → TxTask → LoRaTxSource → ℕ → TxTask
attempted try_from t source completed_at = record t {
  periodic_retry_at =
      periodic_retry_after_nonperiodic_attempt t.periodic_retry_at completed_at source >>= try_from;
  next_recovery_at =
      if is_recovery source
      then or_max (recovery_next_eligible_at_us completed_at 200000 >>= try_from)
      else t.next_recovery_at;
  recovery_sent_since_periodic = update_recovery_fairness t.recovery_sent_since_periodic source;
}

pub after_attempt : (ℕ → Option ℕ) → TxTask → LoRaTxSource → ℕ → Bool → ℕ → TxTask
unfolding settle_deadline
after_attempt try_from t source completed_at recovery_displaced_regular now =
    let t1 = attempted try_from t source completed_at in
    let (t2, missed) = settle_deadline t1 now in
    record t2 {
      periodic_retry_at =
          retry_after try_from t2 source completed_at
            (recovery_displaced_regular || (is_recovery source && not (missed == 0)));
    }

-- A higher envelope takes the place of the selected one, which is kept unless it is periodic; and
-- whether the log has displaced a regular slot.
unfoldable pub preempt : TxTask → LoRaTxEnvelope → LoRaTxEnvelope → Bool → TxTask × Bool
preempt t envelope higher regular = (
  add_periodic_missed_slots
      (record t {
        deferred_envelope =
            if should_defer_preempted envelope.source then some envelope else t.deferred_envelope;
      })
      (if regular then preempted_periodic_missed_slots envelope.source else 0),
  recovery_displaced_regular_slot envelope.source higher.source regular,
)

module _ ⦃ch : Channels⦄ where
  open ch use {Channel, try_receive}

  -- What is left of the queues, and the envelope that was waiting longest in the log's.
  abbrev pub Taken : Type 0
  Taken = Option LoRaTxEnvelope × Downlink × Option LoRaTxEnvelope

  -- The last of the four attempts: the log, unless it has to wait.
  abbrev pub from_log : Downlink → Option (LoRaTxEnvelope × Channel LoRaTxEnvelope) → Taken
  from_log d none = (none, d, none)
  from_log d (some (e, q)) = (some e, record d { recovery_frames = q }, none)

  unfoldable pub take_log : Bool → Downlink → Option LoRaTxEnvelope → Taken
  take_log false d pending = (none, d, pending)
  take_log true d (some envelope) = (some envelope, d, none)
  take_log true d none = from_log d (try_receive d.recovery_frames)

  -- An attempt is made where its source has the higher priority, and the next one where it gave nothing.
  abbrev pub attempt :
      Bool
      → Option (LoRaTxEnvelope × Channel LoRaTxEnvelope)
      → (Channel LoRaTxEnvelope → Downlink)
      → Option LoRaTxEnvelope
      → Taken
      → Taken
  attempt true (some (e, q)) keep pending rest = (some e, keep q, pending)
  attempt true none keep pending rest = rest
  attempt false o keep pending rest = rest

  unfoldable pub take_higher_priority_envelope :
      Downlink → LoRaTxSource → Bool → ℕ → Bool → ℕ → Option LoRaTxEnvelope → ℕ → Taken
  unfolding take_log
  take_higher_priority_envelope d selected sent next_recovery_at valid next_periodic_at pending
        now =
      let periodic_due = periodic_due_for_reselection selected valid (leb next_periodic_at now) in
      attempt (is_higher_priority LoRaTxSource.emergency_result selected)
        (try_receive d.emergency_results) (λ q. record d { emergency_results = q }) pending
        (attempt (is_higher_priority LoRaTxSource.command_result selected)
          (try_receive d.command_results) (λ q. record d { command_results = q }) pending
          (attempt (is_higher_priority LoRaTxSource.ground_time_request selected)
            (try_receive d.ground_time_requests) (λ q. record d { ground_time_requests = q })
            pending
            (take_log
              (is_higher_priority LoRaTxSource.recovery selected
                && (recovery_allowed sent periodic_due && leb next_recovery_at now))
              d pending)))
