-- ===== src/Board/Power.antt =====
-- tasks/recovery_power_task.rs: the supply voltages that the beacon sends after the mission has gone
-- silent. The task holds the last ones up to their age limit, and stores them again as fresh.
pub mod Age
pub mod Heard
use l_comboard.Base.{
  ℕ, ◌-◌, Bool, true, false, not, ◌&&◌, Option, none, some, leb, ltb, ◌==◌, is_value, if◌then◌else◌,
}
use l_comboard.Can.Protocol.Messages.{PowerTimeTelemetry}
use l_comboard.Can.Cache.{CanCache, set_power_time, received_at, clear_recovery_power_snapshot}

abbrev pub unavailable_snapshot : PowerTimeTelemetry
unavailable_snapshot = record {
  sequence = 0;
  logic_voltage = 255;
  motor_voltage = 255;
  descent_elapsed = 0xfff1;
  recovery_elapsed = 0xfff1;
  flags = 0;
}

abbrev pub stale_snapshot : PowerTimeTelemetry → PowerTimeTelemetry
stale_snapshot previous = record {
  sequence = previous.sequence;
  logic_voltage = 253;
  motor_voltage = 253;
  descent_elapsed = previous.descent_elapsed;
  recovery_elapsed = 0xfffa;
  flags = previous.flags;
}

-- The local variables of the task.
pub record PowerTask : Type 0 where
  pub active_previous : Bool
  pub snapshot : PowerTimeTelemetry
  pub source_received_at_ms : Option ℕ
  pub last_refresh_received_at_ms : Option ℕ

abbrev pub new_power_task : PowerTask
new_power_task = record {
  active_previous = false;
  snapshot = unavailable_snapshot;
  source_received_at_ms = none;
  last_refresh_received_at_ms = none;
}

abbrev pub is_some {ℓ} : {A : Type ℓ} → Option A → Bool
is_some none = false
is_some (some a) = true

-- `!=` on optional times
abbrev pub differs : Option ℕ → Option ℕ → Bool
differs none none = false
differs none (some b) = true
differs (some a) b = not (is_value b a)

-- What a frame of the mission has put into the cache since the last refresh.
abbrev pub adopted : PowerTask → Option PowerTimeTelemetry → Option ℕ → PowerTask
adopted t none at = t
adopted t (some current) at =
    if is_some at && differs at t.last_refresh_received_at_ms
    then record t { snapshot = current; source_received_at_ms = at }
    else t

unfoldable adopt : CanCache → PowerTask → PowerTask
adopt c t = adopted t c.power_time.value (received_at c.power_time)

-- `source_age_ms.is_some_and(|age| age > RECOVERY_POWER_FRESHNESS_MS)`
abbrev pub is_aged : Option ℕ → ℕ → Bool
is_aged none now_ms = false
is_aged (some at) now_ms = leb at now_ms && ltb 30000 (now_ms - at)

unfoldable expire : PowerTask → ℕ → PowerTask
expire t now_ms =
    if is_aged t.source_received_at_ms now_ms
    then record t { snapshot = stale_snapshot t.snapshot; source_received_at_ms = none }
    else t

abbrev store : CanCache → PowerTask → ℕ → CanCache × PowerTask
store c t now_ms =
    (set_power_time c t.snapshot now_ms, record t { last_refresh_received_at_ms = some now_ms })

-- The three branches of a round, by whether the beacon is active now and was so before.
unfoldable branch : CanCache → PowerTask → Bool → Bool → ℕ → CanCache × PowerTask
unfolding adopt expire
branch c t true false now_ms =
    store c (record t { snapshot = unavailable_snapshot; source_received_at_ms = none }) now_ms
branch c t false true now_ms = (
  clear_recovery_power_snapshot c,
  record t { source_received_at_ms = none; last_refresh_received_at_ms = none },
)
branch c t true true now_ms = store c (expire (adopt c t) now_ms) now_ms
branch c t false false now_ms = (c, t)

-- A round of the task at the time given.
unfoldable pub power_round : CanCache → PowerTask → Bool → ℕ → CanCache × PowerTask
unfolding branch
power_round c t active now_ms =
    let (c', t') = branch c t active t.active_previous now_ms in
    (c', record t' { active_previous = active })
