-- ===== src/Can/Health.antt =====
-- can/health.rs: the health of the controller from its error counters.
mod Tests
use l_comboard.Base.{
  ℕ, ◌≤◌, ◌<◌, ◌≡◌, ◌≢◌, ◌↔◌, ◌⊎◌, Bool, true, false, leb, if◌then◌else◌, max, arith,
}

pub data CanHealth : Type 0 where
  active warning passive bus_off : CanHealth

-- `tec` and `rec` are the transmit and the receive error counter.
pub classify_can_health : ℕ → ℕ → Bool → CanHealth
classify_can_health tec rec is_bus_off =
    if is_bus_off
    then bus_off
    else if leb 128 (max tec rec)
    then passive
    else if leb 96 (max tec rec)
    then warning
    else active

-- How bad a health is.
abbrev pub severity : CanHealth → ℕ
severity active = 0
severity warning = 1
severity passive = 2
severity bus_off = 3

-- The health does not improve when neither counter falls and the controller does not come back to the
-- bus.
pub classify_can_health_mono :
    (tec rec tec' rec' : ℕ) (off off' : Bool)
    → tec ≤ tec'
    → rec ≤ rec'
    → (off ≡ true → off' ≡ true)
    → severity (classify_can_health tec rec off) ≤ severity (classify_can_health tec' rec' off')
unfolding classify_can_health
classify_can_health_mono tec rec tec' rec' off off' p q r = ground arith

-- The states of the CAN standard: off the bus when the controller says so, else error passive from
-- 128 on in either counter, error warning from 96 on in either, and active below.
pub classify_can_health_iff :
    (tec rec : ℕ)
    → (classify_can_health tec rec true ≡ bus_off)
      × ((classify_can_health tec rec false ≡ passive) ↔ ((128 ≤ tec) ⊎ (128 ≤ rec)))
      × ((classify_can_health tec rec false ≡ active) ↔ ((tec < 96) × (rec < 96)))
      × (classify_can_health tec rec false ≢ bus_off)
unfolding classify_can_health
classify_can_health_iff tec rec = ground arith
