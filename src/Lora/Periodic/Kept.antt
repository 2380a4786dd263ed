-- ===== src/Lora/Periodic/Kept.antt =====
-- tasks/lora_task_base.rs: a periodic slot keeps the numbers that the packets carry.
use l_comboard.Base.{ℕ, Bool, true, false, Option, none, some, if◌then◌else◌, arith}
use l_comboard.Can.Protocol.Messages.{ControlRollTelemetryV2}
use l_comboard.Can.Protocol.MissionEnums.{MissionState}
use l_comboard.Can.Cache.{CanCache}
use l_comboard.Lora.Periodic.{GnssTelemetry, Shared, mission_link_fallback_packet}
use l_comboard.Lora.Periodic.Packet.{
  PeriodicPacket, Fresh, fresh_values, state_packet, slot_packet, periodic_packet,
}
use l_comboard.Lora.Periodic.Sent.{IsShared}

state-IsShared :
    (c : CanCache) (now : ℕ) (f : Fresh) (g : GnssTelemetry) (s : Shared) (m : MissionState)
    (available : Bool)
    → IsShared s
    → IsShared (state_packet c now f g s m available).1
unfolding mission_link_fallback_packet state_packet
state-IsShared c now f g s MissionState.unknown available i = record {
  health = i.health;
  sequence = omega arith;
}
state-IsShared c now f g s MissionState.command_receive available i = i
state-IsShared c now f g s MissionState.liftoff_detection available i = i
state-IsShared c now f g s MissionState.engine_burn available i = i
state-IsShared c now f g s MissionState.control available i = i
state-IsShared c now f g s MissionState.descent available i = i

if_IsShared :
    (b : Bool) (x y : Option PeriodicPacket × Shared)
    → IsShared x.1
    → IsShared y.1
    → IsShared (if b then x else y).1
if_IsShared true x y p q = p
if_IsShared false x y p q = q

slot-IsShared :
    (roll : Option ControlRollTelemetryV2) (event_only : Bool) (c : CanCache) (now : ℕ) (f : Fresh)
    (g : GnssTelemetry) (s : Shared) (m : MissionState) (available : Bool)
    → IsShared s
    → IsShared (slot_packet roll event_only c now f g s m available).1
slot-IsShared (some value) event_only c now f g s m available i = i
slot-IsShared none true c now f g s m available i = i
slot-IsShared none false c now f g s m available i =
    if_IsShared s.recovery_beacon_active _ (state_packet c now f g s m available) i
      (state-IsShared c now f g s m available i)

-- The health stays at most 6, and the sequence number that of a byte, whatever the slot sends.
pub periodic_packet-IsShared :
    (prefer event_only : Bool) (c : CanCache) (now : ℕ) (g : GnssTelemetry) (s : Shared)
    → IsShared s
    → IsShared (periodic_packet prefer event_only c now g s).1
unfolding periodic_packet
periodic_packet-IsShared prefer event_only c now g s i =
    slot-IsShared _ event_only c now (fresh_values c now) g s _ _ i
