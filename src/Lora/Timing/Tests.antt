-- ===== src/Lora/Timing/Tests.antt =====
-- lora_timing.rs: a window of transmissions of the same source.
use l_comboard.Base.{◌+◌, ◌*◌, ◌≡◌, List, All, some, length, replicate}
use l_comboard.Lora.Scheduler.{LoRaTxSource}
use l_comboard.Lora.Timing.{TxTimingTrace, new_trace, report_sample_count, new_collector}
use l_comboard.Lora.Timing.Collector.Window.{
  IsWindow, record_all, record_all-reports, new_collector-IsWindow,
}

abbrev twelve : List TxTimingTrace
twelve = replicate 12 (new_trace 100 LoRaTxSource.periodic)

record_all-reports_example :
    let (d, reports) = record_all new_collector twelve in
    IsWindow d
    × (length reports * 10 + d.sample_count ≡ new_collector.sample_count + length twelve)
    × All (λ r. report_sample_count r ≡ 10) reports
record_all-reports_example = record_all-reports new_collector twelve new_collector-IsWindow

abbrev prepared : TxTimingTrace
unfolding new_trace
prepared = record (new_trace 100 LoRaTxSource.periodic) {
  initial_aux_ready_at_us = some 110;
  rx_guard_done_at_us = some 150;
  post_guard_aux_ready_at_us = some 150;
}
