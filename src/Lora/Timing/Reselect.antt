-- ===== src/Lora/Timing/Reselect.antt =====
-- lora_timing.rs: a prepared transmission that another packet takes over.
use l_comboard.Base.{ℕ, ◌≤◌, ◌≡◌, Option, none, some, arith}
use l_comboard.Lora.Scheduler.{LoRaTxSource}
use l_comboard.Lora.Timing.{TxTimingTrace, reselect_prepared_trace}

-- The earlier of two times is not after the later, where both are known.
abbrev pub InOrder : Option ℕ → Option ℕ → Type 0
InOrder (some earlier) (some later) = earlier ≤ later
InOrder _ _ = Unit

-- The preparation of a transmission happened in order.
abbrev pub Prepared : TxTimingTrace → Type 0
Prepared t =
    InOrder t.initial_aux_ready_at_us t.rx_guard_done_at_us
    × InOrder t.rx_guard_done_at_us t.post_guard_aux_ready_at_us

-- The trace of the packet that takes over a preparation in order is in order too, from its own request
-- on, and claims nothing of the transmission itself.
pub reselect_prepared_trace_lem :
    (t : TxTimingTrace) (requested : ℕ) (source : LoRaTxSource)
    → Prepared t
    → let u = reselect_prepared_trace t requested source in
      Prepared u
      × InOrder (some requested) u.transmit_started_at_us
      × InOrder u.transmit_started_at_us u.initial_aux_ready_at_us
      × (u.uart_write_started_at_us ≡ none)
      × (u.completed_at_us ≡ none)
unfolding reselect_prepared_trace
reselect_prepared_trace_lem t requested source h = ground arith
