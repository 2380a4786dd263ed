-- ===== src/Board/Radio/Deferred.antt =====
-- tasks/lora_task_base.rs: the envelope that was overtaken, at the start of the next round.
use l_comboard.Base.{ℕ, Bool, true, false, ◌&&◌, ◌||◌, Option, none, some, leb, if◌then◌else◌}
use l_comboard.Base.Checked.{u64_max}
use l_comboard.Can.Cache.{CanCache, clear_event_flags}
use l_comboard.Lora.Scheduler.{
  PeriodicDeadlineSelection, select_periodic_deadline, deferred_recovery_blocked, recovery_allowed,
  should_clear_periodic_events,
}
use l_comboard.Board.Downlink.{LoRaTxEnvelope}
use l_comboard.Board.Radio.{TxTask}

pub selection : TxTask → PeriodicDeadlineSelection
selection t = select_periodic_deadline t.next_tx_at t.periodic_deadline_valid t.periodic_retry_at

abbrev is_some {ℓ} : {A : Type ℓ} → Option A → Bool
is_some none = false
is_some (some a) = true

-- `Instant::try_from_micros(…).unwrap_or(Instant::MAX)`
abbrev or_latest : Option ℕ → ℕ
or_latest none = u64_max
or_latest (some at) = at

pub periodic_due : (ℕ → Option ℕ) → TxTask → ℕ → Bool
unfolding selection
periodic_due try_from t now =
    let s = selection t in
    (if s.retry_selected then is_some t.periodic_retry_at else t.periodic_deadline_valid)
    && leb (or_latest (try_from s.deadline_us)) now

abbrev blocked : Option LoRaTxEnvelope → Bool → Bool → Bool
blocked none sent due = false
blocked (some e) sent due = deferred_recovery_blocked e.source sent due

-- The candidate that is sent before the queues are looked at, by whether a periodic packet is due.
pub take_deferred : TxTask → Bool → TxTask × Option LoRaTxEnvelope
take_deferred t due =
    if blocked t.deferred_envelope t.recovery_sent_since_periodic due
    then (t, none)
    else (record t { deferred_envelope = none }, t.deferred_envelope)

-- A frame of the log that is ready: it is sent, or waits for its time.
pub offer_log : TxTask → LoRaTxEnvelope → Bool → Bool → ℕ → TxTask × Option LoRaTxEnvelope
offer_log t envelope had_pending due now =
    if (had_pending || leb t.next_recovery_at now)
      && recovery_allowed t.recovery_sent_since_periodic due
    then (record t { pending_recovery = none }, some envelope)
    else (record t { pending_recovery = some envelope }, none)

-- The end of a round: the events of a periodic packet that was transmitted are cleared.
pub clear_sent_events : CanCache → LoRaTxEnvelope → Bool → CanCache
clear_sent_events c envelope transmitted =
    if should_clear_periodic_events envelope.source transmitted envelope.interval_events
    then clear_event_flags c envelope.interval_events envelope.event_revision
    else c
