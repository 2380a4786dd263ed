-- ===== src/Can/Cache.antt =====
-- can/cache.rs: the latest message of each kind, its age, and the latch of the mission's event flags.
pub mod Latch
pub mod Age
pub mod Kinds
pub mod Held
pub mod Bounds
mod Tests
use Prim.Native.Nat.{bit_and, bit_or}
use l_comboard.Base.{
  ℕ, ◌+◌, ◌-◌, ◌%◌, ◌^◌, List, [], ◌∷◌, Bool, not, ◌&&◌, ◌||◌, Option, none, some, ◌==◌, leb,
  is_value, if◌then◌else◌,
}
use l_comboard.Base.Bits.{complement}
use l_comboard.Can.Protocol.Messages.{
  CanRxMessage, CommandResult, MissionEvent, KinematicsTelemetry, ControlTelemetry,
  MissionStatusTelemetry, PowerTimeTelemetry, DescentCoreTelemetry, RecoveryStatus, RecoveryLogData,
  AttitudeTiltTelemetry, LpsTelemetry, AirspeedTelemetry, ControlRollTelemetryV2, command_result,
  time_request, mission_event, kinematics, control, mission_status, power_time, descent_core,
  recovery_status, recovery_log_data, attitude_tilt, lps, airspeed, control_roll_v2,
}

-- `data.first()` and `data.get(1)`
abbrev pub first : List ℕ → Option ℕ
first [] = none
first (x ∷ xs) = some x

abbrev pub second : List ℕ → Option ℕ
second [] = none
second (x ∷ xs) = first xs

pub observed_sequence : ℕ → List ℕ → Option ℕ
observed_sequence identifier xs =
    if identifier == 0x020
      || (leb 0x100 identifier && leb identifier 0x104)
      || (leb 0x107 identifier && leb identifier 0x10a)
    then first xs
    else if identifier == 0x106
    then second xs
    else none

pub sequence_gap : Option ℕ → ℕ → Bool
sequence_gap (some previous) current = not (current == (previous + 1) % 256)
sequence_gap none current = Bool.false

pub data Freshness : Type 0 where
  missing fresh stale : Freshness

pub record Latest (T : Type 0) : Type 0 where
  pub value : Option T
  received_at_ms : ℕ

module _ {T : Type 0} where
  abbrev pub empty : Latest T
  empty = record { value = none; received_at_ms = 0 }

  -- The method `update` of `Latest` replaces both fields.
  abbrev pub latest : T → ℕ → Latest T
  latest v at = record { value = some v; received_at_ms = at }

  abbrev pub clear : Latest T → Latest T
  clear l = record l { value = none; received_at_ms = 0 }

  unfoldable pub received_at : Latest T → Option ℕ
  received_at l = elim l.value [ some v ↦ some l.received_at_ms | none ↦ none ]

  unfoldable pub freshness : Latest T → ℕ → ℕ → Freshness
  freshness l now_ms maximum_age_ms = elim l.value [
    | none ↦ missing
    | some v ↦
        if leb l.received_at_ms now_ms && leb (now_ms - l.received_at_ms) maximum_age_ms
        then fresh
        else stale
  ]

pub data CacheUpdate : Type 0 where
  telemetry : CacheUpdate
  got_command_result : CommandResult → CacheUpdate
  got_time_request : ℕ → CacheUpdate
  got_mission_event : MissionEvent → (new_flags : ℕ) → CacheUpdate
  duplicate_mission_event : CacheUpdate
  got_recovery_status : RecoveryStatus → CacheUpdate
  got_recovery_log_data : RecoveryLogData → CacheUpdate

pub record CanCache : Type 0 where
  pub kinematics : Latest KinematicsTelemetry
  pub control : Latest ControlTelemetry
  pub mission_status : Latest MissionStatusTelemetry
  pub power_time : Latest PowerTimeTelemetry
  pub descent_core : Latest DescentCoreTelemetry
  pub attitude_tilt : Latest AttitudeTiltTelemetry
  pub lps : Latest LpsTelemetry
  pub airspeed : Latest AirspeedTelemetry
  pub control_roll_v2 : Latest ControlRollTelemetryV2
  pub recovery_status : Latest RecoveryStatus
  pub recovery_log_data : Latest RecoveryLogData
  pub command_result : Latest CommandResult
  pub time_request : Latest ℕ
  pub mission_event : Latest MissionEvent
  pub event_flags_latched : ℕ
  pub event_revision : ℕ
  last_event_sequence : Option ℕ

pub new : CanCache
new = record {
  kinematics = empty;
  control = empty;
  mission_status = empty;
  power_time = empty;
  descent_core = empty;
  attitude_tilt = empty;
  lps = empty;
  airspeed = empty;
  control_roll_v2 = empty;
  recovery_status = empty;
  recovery_log_data = empty;
  command_result = empty;
  time_request = empty;
  mission_event = empty;
  event_flags_latched = 0;
  event_revision = 0;
  last_event_sequence = none;
}

-- The arm of `update` for a mission event.
pub update_event : CanCache → MissionEvent → ℕ → CanCache × CacheUpdate
update_event c event at =
    if is_value c.last_event_sequence event.sequence then (c, duplicate_mission_event) else (
      record c {
        event_flags_latched = bit_or c.event_flags_latched event.flags;
        event_revision = (c.event_revision + 1) % 2 ^ 32;
        last_event_sequence = some event.sequence;
        mission_event = latest event at;
      },
      got_mission_event event (bit_and event.flags (complement 16 c.event_flags_latched)),
    )

unfoldable pub update : CanCache → CanRxMessage → ℕ → CanCache × CacheUpdate
unfolding update_event
update c (command_result v) at = (record c { command_result = latest v at }, got_command_result v)
update c (time_request id) at = (record c { time_request = latest id at }, got_time_request id)
update c (mission_event e) at = update_event c e at
update c (kinematics v) at = (record c { kinematics = latest v at }, telemetry)
update c (control v) at = (record c { control = latest v at }, telemetry)
update c (mission_status v) at = (record c { mission_status = latest v at }, telemetry)
update c (power_time v) at = (record c { power_time = latest v at }, telemetry)
update c (descent_core v) at = (record c { descent_core = latest v at }, telemetry)
update c (recovery_status v) at =
    (record c { recovery_status = latest v at }, got_recovery_status v)
update c (recovery_log_data v) at =
    (record c { recovery_log_data = latest v at }, got_recovery_log_data v)
update c (attitude_tilt v) at = (record c { attitude_tilt = latest v at }, telemetry)
update c (lps v) at = (record c { lps = latest v at }, telemetry)
update c (airspeed v) at = (record c { airspeed = latest v at }, telemetry)
update c (control_roll_v2 v) at = (record c { control_roll_v2 = latest v at }, telemetry)

pub event_snapshot : CanCache → ℕ × ℕ
event_snapshot c = (c.event_flags_latched, c.event_revision)

pub clear_event_flags : CanCache → ℕ → ℕ → CanCache
clear_event_flags c flags revision =
    if c.event_revision == revision
    then record c { event_flags_latched = bit_and c.event_flags_latched (complement 16 flags) }
    else c

unfoldable pub clear_recovery_power_snapshot : CanCache → CanCache
clear_recovery_power_snapshot c = record c { power_time = clear c.power_time }

-- `cache.power_time.update(value, at)`
unfoldable pub set_power_time : CanCache → PowerTimeTelemetry → ℕ → CanCache
set_power_time c v at = record c { power_time = latest v at }
