-- ===== src/Can/Cache/Held.antt =====
-- can/cache.rs: what the cache holds came from frames of the bus.
use l_comboard.Base.{
  ℕ, ◌≡◌, Option, none, some, AreBytes, List, Bool-cases, inl, inr, is_value, length, ◌==◌,
}
use l_comboard.Base.Result.{ok}
use l_comboard.Can.Protocol.Messages.{
  CanRxMessage, PowerTimeTelemetry, MissionEvent, command_result, time_request, mission_event,
  kinematics, control, mission_status, power_time, descent_core, recovery_status, recovery_log_data,
  attitude_tilt, lps, airspeed, control_roll_v2,
}
use l_comboard.Can.Protocol.Wire.{IsWire}
use l_comboard.Can.Protocol.Decode.{decode_standard}
use l_comboard.Can.Protocol.Complete.{decode_standard-Carries}
use l_comboard.Can.Cache.{
  CanCache, CacheUpdate, got_recovery_log_data, new, update, update_event,
  clear_recovery_power_snapshot, clear_event_flags, set_power_time,
}

-- A value that is there is one that a frame can carry.
abbrev pub Holds : {T : Type 0} → (T → CanRxMessage) → Option T → Type 0
Holds f none = Unit
Holds f (some v) = IsWire (f v)

-- Kinematics, control, mission status, power, descent, tilt, pressure, airspeed and roll, in this order.
abbrev pub IsCache : CanCache → Type 0
IsCache c =
    Holds kinematics c.kinematics.value
    × Holds control c.control.value
    × Holds mission_status c.mission_status.value
    × Holds power_time c.power_time.value
    × Holds descent_core c.descent_core.value
    × Holds attitude_tilt c.attitude_tilt.value
    × Holds lps c.lps.value
    × Holds airspeed c.airspeed.value
    × Holds control_roll_v2 c.control_roll_v2.value

pub new-IsCache : IsCache new
unfolding new
new-IsCache = (tt, tt, tt, tt, tt, tt, tt, tt, tt)

event-IsCache :
    (c : CanCache) (e : MissionEvent) (at : ℕ) → IsCache c → IsCache (update_event c e at).0
unfolding update_event
event-IsCache c e at h = elim (Bool-cases (is_value c.last_event_sequence e.sequence)) [
  | inl b ↦ rw b h
  | inr b ↦ rw b h
]

pub wire-IsCache :
    (c : CanCache) (m : CanRxMessage) (at : ℕ) → IsCache c → IsWire m → IsCache (update c m at).0
unfolding update
wire-IsCache c (kinematics v) at (k, t, m, p, d, a, l, s, r) w = (w, t, m, p, d, a, l, s, r)
wire-IsCache c (control v) at (k, t, m, p, d, a, l, s, r) w = (k, w, m, p, d, a, l, s, r)
wire-IsCache c (mission_status v) at (k, t, m, p, d, a, l, s, r) w = (k, t, w, p, d, a, l, s, r)
wire-IsCache c (power_time v) at (k, t, m, p, d, a, l, s, r) w = (k, t, m, w, d, a, l, s, r)
wire-IsCache c (descent_core v) at (k, t, m, p, d, a, l, s, r) w = (k, t, m, p, w, a, l, s, r)
wire-IsCache c (attitude_tilt v) at (k, t, m, p, d, a, l, s, r) w = (k, t, m, p, d, w, l, s, r)
wire-IsCache c (lps v) at (k, t, m, p, d, a, l, s, r) w = (k, t, m, p, d, a, w, s, r)
wire-IsCache c (airspeed v) at (k, t, m, p, d, a, l, s, r) w = (k, t, m, p, d, a, l, w, r)
wire-IsCache c (control_roll_v2 v) at (k, t, m, p, d, a, l, s, r) w = (k, t, m, p, d, a, l, s, w)
wire-IsCache c (mission_event e) at h w = event-IsCache c e at h
wire-IsCache c (command_result v) at h w = h
wire-IsCache c (time_request v) at h w = h
wire-IsCache c (recovery_status v) at h w = h
wire-IsCache c (recovery_log_data v) at h w = h

-- When a cache holds only telemetry that a frame can carry, it does so after the message of any frame
-- of bytes that decodes.
pub update-IsCache :
    (c : CanCache) (id : ℕ) (xs : List ℕ) (m : CanRxMessage) (at : ℕ)
    → IsCache c
    → AreBytes xs
    → decode_standard id xs ≡ ok m
    → IsCache (update c m at).0
update-IsCache c id xs m at h w e =
    let (_, _, carried) = decode_standard-Carries id xs m w e in wire-IsCache c m at h carried

-- A fragment that is taken over from the cache has six bytes.
abbrev pub FragmentFits : CacheUpdate → Type 0
FragmentFits (got_recovery_log_data v) = length v.fragment ≡ 6
FragmentFits u = Unit

event-FragmentFits :
    (c : CanCache) (e : MissionEvent) (at : ℕ) → FragmentFits (update_event c e at).1
unfolding update_event
event-FragmentFits c e at = elim (Bool-cases (is_value c.last_event_sequence e.sequence)) [
  | inl b ↦ rw b tt
  | inr b ↦ rw b tt
]

pub update-FragmentFits :
    (c : CanCache) (m : CanRxMessage) (at : ℕ) → IsWire m → FragmentFits (update c m at).1
unfolding update
update-FragmentFits c (recovery_log_data v) at w = w.fields
update-FragmentFits c (mission_event e) at w = event-FragmentFits c e at
update-FragmentFits c (kinematics v) at w = tt
update-FragmentFits c (control v) at w = tt
update-FragmentFits c (mission_status v) at w = tt
update-FragmentFits c (power_time v) at w = tt
update-FragmentFits c (descent_core v) at w = tt
update-FragmentFits c (attitude_tilt v) at w = tt
update-FragmentFits c (lps v) at w = tt
update-FragmentFits c (airspeed v) at w = tt
update-FragmentFits c (control_roll_v2 v) at w = tt
update-FragmentFits c (command_result v) at w = tt
update-FragmentFits c (time_request v) at w = tt
update-FragmentFits c (recovery_status v) at w = tt

-- A cleared snapshot leaves the rest.
pub clear_recovery_power_snapshot-IsCache :
    (c : CanCache) → IsCache c → IsCache (clear_recovery_power_snapshot c)
unfolding clear_recovery_power_snapshot
clear_recovery_power_snapshot-IsCache c (k, t, m, p, d, a, l, v, r) = (k, t, m, tt, d, a, l, v, r)

pub clear_event_flags-IsCache :
    (c : CanCache) (flags revision : ℕ) → IsCache c → IsCache (clear_event_flags c flags revision)
unfolding clear_event_flags
clear_event_flags-IsCache c flags revision h = elim (Bool-cases (c.event_revision == revision)) [
  | inl e ↦ rw e h
  | inr e ↦ rw e h
]

pub set_power_time-IsCache :
    (c : CanCache) (v : PowerTimeTelemetry) (at : ℕ)
    → IsWire (power_time v)
    → IsCache c
    → IsCache (set_power_time c v at)
unfolding set_power_time
set_power_time-IsCache c v at w (k, t, m, p, d, a, l, s, r) = (k, t, m, w, d, a, l, s, r)
