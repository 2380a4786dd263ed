-- ===== src/Lora/Timing.antt =====
-- lora_timing.rs: the durations of the steps of a transmission, collected over ten transmissions to a
-- report. The arrays of the collector are lists; times are u64 microseconds.
mod Tests
pub mod Collector
pub mod Stats
pub mod Reselect
use l_comboard.Base.{
  ℕ, zero, suc, ◌+◌, ◌-◌, ◌*◌, ◌/◌, ◌^◌, min, max, List, [], ◌∷◌, map, Bool, true, false, Option,
  none, some, ◌==◌, ltb, if◌then◌else◌, set, get_or, replicate,
}
use mathlib.Core.Option
use l_comboard.Base.Checked.{saturating, checked_sub, u32_max, u64_max}
use l_comboard.Lora.Scheduler.{LoRaTxSource}

abbrev pub source_index : LoRaTxSource → ℕ
source_index LoRaTxSource.emergency_result = 0
source_index LoRaTxSource.command_result = 1
source_index LoRaTxSource.ground_time_request = 2
source_index LoRaTxSource.recovery = 3
source_index LoRaTxSource.periodic = 4

pub record TxTimingTrace : Type 0 where
  pub source : LoRaTxSource
  pub requested_at_us : ℕ
  pub transmit_started_at_us : Option ℕ
  pub initial_aux_ready_at_us : Option ℕ
  pub rx_guard_done_at_us : Option ℕ
  pub post_guard_aux_ready_at_us : Option ℕ
  pub uart_write_started_at_us : Option ℕ
  pub uart_write_finished_at_us : Option ℕ
  pub uart_flush_finished_at_us : Option ℕ
  pub aux_low_at_us : Option ℕ
  pub aux_high_at_us : Option ℕ
  pub completed_at_us : Option ℕ
  pub aux_low_not_observed : Bool
  pub periodic_missed_slots : ℕ

-- `TxTimingTrace::new`
pub new_trace : ℕ → LoRaTxSource → TxTimingTrace
new_trace requested_at_us source = record {
  source = source;
  requested_at_us = requested_at_us;
  transmit_started_at_us = none;
  initial_aux_ready_at_us = none;
  rx_guard_done_at_us = none;
  post_guard_aux_ready_at_us = none;
  uart_write_started_at_us = none;
  uart_write_finished_at_us = none;
  uart_flush_finished_at_us = none;
  aux_low_at_us = none;
  aux_high_at_us = none;
  completed_at_us = none;
  aux_low_not_observed = false;
  periodic_missed_slots = 0;
}

pub reselect_prepared_trace : TxTimingTrace → ℕ → LoRaTxSource → TxTimingTrace
unfolding new_trace
reselect_prepared_trace prepared requested_at_us source =
    let floor =
      λ (timestamp : Option ℕ). Option.map (λ (value : ℕ). max value requested_at_us) timestamp in
    record (new_trace requested_at_us source) {
      transmit_started_at_us = some requested_at_us;
      initial_aux_ready_at_us = floor prepared.initial_aux_ready_at_us;
      rx_guard_done_at_us = floor prepared.rx_guard_done_at_us;
      post_guard_aux_ready_at_us = floor prepared.post_guard_aux_ready_at_us;
    }

pub record MetricSummary : Type 0 where
  pub count : ℕ
  pub smallest : ℕ
  pub largest : ℕ
  pub average : ℕ

-- The fields `min` and `max` are `smallest` and `largest`.
pub record MetricStats : Type 0 where
  pub count : ℕ
  pub smallest : ℕ
  pub largest : ℕ
  pub total : ℕ

-- `MetricStats::new`
pub new_stats : MetricStats
new_stats = record { count = 0; smallest = u64_max; largest = 0; total = 0 }

-- `MetricStats::record`
pub record_value : MetricStats → ℕ → MetricStats
record_value s value = record {
  count = saturating u32_max (s.count + 1);
  smallest = min s.smallest value;
  largest = max s.largest value;
  total = saturating u64_max (s.total + value);
}

pub summary : MetricStats → MetricSummary
summary s =
    if s.count == 0 then record { count = 0; smallest = 0; largest = 0; average = 0 } else record {
      count = s.count;
      smallest = s.smallest;
      largest = s.largest;
      average = s.total / s.count;
    }

pub record TimingReport : Type 0 where
  pub metrics : List MetricSummary
  pub source_samples : List ℕ
  pub source_tx_total : List MetricSummary
  pub emergency_queue_wait : MetricSummary
  pub aux_low_not_observed : ℕ
  pub invalid_timestamp_count : ℕ
  pub periodic_missed_slots : ℕ

-- `source_samples.iter().sum()`
abbrev pub sum : List ℕ → ℕ
sum [] = 0
sum (x ∷ xs) = x + sum xs

-- `TimingReport::sample_count`
pub report_sample_count : TimingReport → ℕ
report_sample_count r = sum r.source_samples

pub record TimingCollector : Type 0 where
  pub metrics : List MetricStats
  pub source_samples : List ℕ
  pub source_tx_total : List MetricStats
  pub emergency_queue_wait : MetricStats
  pub previous_requested_at_us : List (Option ℕ)
  pub previous_write_started_at_us : Option ℕ
  pub previous_completed_at_us : Option ℕ
  pub sample_count : ℕ
  pub aux_low_not_observed : ℕ
  pub invalid_timestamp_count : ℕ
  pub periodic_missed_slots : ℕ

-- `TimingCollector::new`
unfoldable pub new_collector : TimingCollector
unfolding new_stats
new_collector = record {
  metrics = replicate 15 new_stats;
  source_samples = replicate 5 0;
  source_tx_total = replicate 5 new_stats;
  emergency_queue_wait = new_stats;
  previous_requested_at_us = replicate 5 none;
  previous_write_started_at_us = none;
  previous_completed_at_us = none;
  sample_count = 0;
  aux_low_not_observed = 0;
  invalid_timestamp_count = 0;
  periodic_missed_slots = 0;
}
