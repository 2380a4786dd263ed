-- ===== src/Lora/Timing/Collector.antt =====
-- lora_timing.rs: `TimingCollector::record`, in the order of its statements.
pub mod Window
use l_comboard.Base.{
  ℕ, ◌+◌, ◌-◌, List, [], ◌∷◌, map, Bool, true, false, Option, none, some, ltb, if◌then◌else◌, set,
  get_or, replicate,
}
use l_comboard.Base.Checked.{saturating, checked_sub, u32_max}
use l_comboard.Lora.Scheduler.{LoRaTxSource}
use l_comboard.Lora.Timing.{
  source_index, TxTimingTrace, MetricStats, new_stats, record_value, summary, TimingReport,
  TimingCollector,
}

-- `invalid_timestamp_count.saturating_add(1)`
pub count_invalid : TimingCollector → TimingCollector
count_invalid c = record c {
  invalid_timestamp_count = saturating u32_max (c.invalid_timestamp_count + 1);
}

pub record_delta : TimingCollector → ℕ → Option ℕ → Option ℕ → TimingCollector
unfolding count_invalid
record_delta c metric (some later) (some earlier) = elim (checked_sub later earlier) [
  | some delta ↦ record c {
    metrics = set c.metrics metric (record_value (get_or c.metrics metric new_stats) delta);
  }
  | none ↦ count_invalid c
]
record_delta c metric _ _ = c

pub record_source_delta : TimingCollector → ℕ → ℕ → ℕ → TimingCollector
unfolding count_invalid
record_source_delta c index later earlier = elim (checked_sub later earlier) [
  | some delta ↦ record c {
    source_tx_total =
        set c.source_tx_total index (record_value (get_or c.source_tx_total index new_stats) delta);
  }
  | none ↦ count_invalid c
]

pub record_emergency_queue_delta : TimingCollector → ℕ → ℕ → TimingCollector
unfolding count_invalid
record_emergency_queue_delta c later earlier = elim (checked_sub later earlier) [
  | some delta ↦ record c { emergency_queue_wait = record_value c.emergency_queue_wait delta }
  | none ↦ count_invalid c
]

-- The counters at the start of `record`.
pub count_trace : TimingCollector → TxTimingTrace → TimingCollector
count_trace c trace =
    let index = source_index trace.source in
    record c {
      sample_count = saturating u32_max (c.sample_count + 1);
      source_samples =
          set c.source_samples index (saturating u32_max (get_or c.source_samples index 0 + 1));
      periodic_missed_slots =
          saturating u32_max (c.periodic_missed_slots + trace.periodic_missed_slots);
      aux_low_not_observed =
          if trace.aux_low_not_observed
          then saturating u32_max (c.aux_low_not_observed + 1)
          else c.aux_low_not_observed;
    }

-- The interval to the last request of the same source.
pub record_request : TimingCollector → TxTimingTrace → TimingCollector
record_request c trace =
    let index = source_index trace.source in
    let d =
      record_delta c 0 (some trace.requested_at_us)
        (get_or c.previous_requested_at_us index none) in
    record d {
      previous_requested_at_us = set d.previous_requested_at_us index (some trace.requested_at_us);
    }

-- The calls of `record_delta` on two times of the trace, in order: the metric, the later and the
-- earlier time.
pub steps : TxTimingTrace → List (ℕ × Option ℕ × Option ℕ)
steps t =
    (1, t.uart_write_started_at_us, some t.requested_at_us)
    ∷ (2, t.transmit_started_at_us, some t.requested_at_us)
    ∷ (3, t.initial_aux_ready_at_us, t.transmit_started_at_us)
    ∷ (4, t.rx_guard_done_at_us, t.initial_aux_ready_at_us)
    ∷ (5, t.post_guard_aux_ready_at_us, t.rx_guard_done_at_us)
    ∷ (6, t.uart_write_finished_at_us, t.uart_write_started_at_us)
    ∷ (7, t.uart_flush_finished_at_us, t.uart_write_finished_at_us)
    ∷ (8, t.aux_low_at_us, t.uart_flush_finished_at_us)
    ∷ (9, t.aux_high_at_us, t.aux_low_at_us)
    ∷ (10, t.completed_at_us, t.uart_flush_finished_at_us)
    ∷ (11, t.completed_at_us, t.transmit_started_at_us)
    ∷ []

pub record_steps : TimingCollector → List (ℕ × Option ℕ × Option ℕ) → TimingCollector
record_steps c [] = c
record_steps c ((metric, later, earlier) ∷ rest) =
    record_steps (record_delta c metric later earlier) rest

-- `if later.is_some() { previous = later }`
abbrev pub or_keep : Option ℕ → Option ℕ → Option ℕ
or_keep (some at) previous = some at
or_keep none previous = previous

-- The intervals to the write and the end of the last transmission.
pub record_intervals : TimingCollector → TxTimingTrace → TimingCollector
record_intervals c trace =
    let d = record_delta c 12 trace.uart_write_started_at_us c.previous_write_started_at_us in
    let e = record d {
      previous_write_started_at_us =
          or_keep trace.uart_write_started_at_us d.previous_write_started_at_us;
    } in
    let f = record_delta e 13 trace.completed_at_us e.previous_completed_at_us in
    let g = record_delta f 14 trace.uart_write_started_at_us f.previous_completed_at_us in
    record g { previous_completed_at_us = or_keep trace.completed_at_us g.previous_completed_at_us }

pub record_source_total : TimingCollector → TxTimingTrace → TimingCollector
record_source_total c trace = elim trace.completed_at_us [
  | none ↦ c
  | some completed ↦ elim trace.transmit_started_at_us [
    | none ↦ c
    | some started ↦ record_source_delta c (source_index trace.source) completed started
  ]
]

abbrev pub is_emergency : LoRaTxSource → Bool
is_emergency LoRaTxSource.emergency_result = true
is_emergency _ = false

pub record_emergency : TimingCollector → TxTimingTrace → TimingCollector
record_emergency c trace =
    if is_emergency trace.source
    then elim trace.uart_write_started_at_us [
      | none ↦ c
      | some write_started ↦ record_emergency_queue_delta c write_started trace.requested_at_us
    ]
    else c

pub reset_window : TimingCollector → TimingCollector
reset_window c = record c {
  metrics = replicate 15 new_stats;
  source_samples = replicate 5 0;
  source_tx_total = replicate 5 new_stats;
  emergency_queue_wait = new_stats;
  sample_count = 0;
  aux_low_not_observed = 0;
  invalid_timestamp_count = 0;
  periodic_missed_slots = 0;
}

-- The report at the end of `record`.
pub report : TimingCollector → TimingReport
report c = record {
  metrics = map summary c.metrics;
  source_samples = c.source_samples;
  source_tx_total = map summary c.source_tx_total;
  emergency_queue_wait = summary c.emergency_queue_wait;
  aux_low_not_observed = c.aux_low_not_observed;
  invalid_timestamp_count = c.invalid_timestamp_count;
  periodic_missed_slots = c.periodic_missed_slots;
}

-- `record` before the test of the number of samples.
pub collect : TimingCollector → TxTimingTrace → TimingCollector
collect c trace =
    let counted = count_trace c trace in
    let stepped = record_steps (record_request counted trace) (steps trace) in
    record_emergency (record_source_total (record_intervals stepped trace) trace) trace

-- `TimingCollector::record`
pub record_trace : TimingCollector → TxTimingTrace → TimingCollector × Option TimingReport
record_trace c trace =
    let d = collect c trace in
    if ltb d.sample_count 10 then (d, none) else (reset_window d, some (report d))
