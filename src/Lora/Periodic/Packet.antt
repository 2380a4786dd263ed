-- ===== src/Lora/Periodic/Packet.antt =====
-- tasks/lora_task_base.rs: `periodic_packet`, with the packet that each state of the mission has.
use Prim.Native.Nat.{bit_and, bit_or}
use mathlib.Core.Option
use l_comboard.Base.{ℕ, Bool, true, false, not, ◌&&◌, Option, none, some, leb, if◌then◌else◌}
use l_comboard.Base.Result.{ok, err}
use l_comboard.Can.Protocol.Messages.{
  KinematicsTelemetry, ControlTelemetry, MissionStatusTelemetry, PowerTimeTelemetry,
  AttitudeTiltTelemetry, LpsTelemetry, AirspeedTelemetry, ControlRollTelemetryV2,
}
use l_comboard.Can.Protocol.WireEnum.{to_u8}
use l_comboard.Can.Protocol.MissionEnums.{MissionState, fin_mode_wire, para_mode_wire}
use l_comboard.Can.Cache.{CanCache, event_snapshot}
use l_comboard.Lora.Payload.Packets.{
  PacketHeader, ApplicationPacket, LoraFrame, command_receive, flight, descent, recovery_beacon,
  control_roll_telemetry_v2,
}
use l_comboard.Lora.Payload.Encode.{encode}
use l_comboard.Lora.Periodic.Status.{
  put_flag, inject_link_health, map_command_receive_status, map_flight_interval_events,
}
use l_comboard.Lora.Periodic.{
  GnssTelemetry, Shared, stale_or, is_some, map_or, mission_link_fallback_packet,
}

pub record PeriodicPacket : Type 0 where
  pub frame : LoraFrame
  pub transmitted_events : ℕ
  pub event_revision : ℕ
  pub is_control_roll_v2 : Bool
  pub control_roll_cycle_available : Bool

unfoldable pub finish_periodic_packet : ApplicationPacket → ℕ → ℕ → Option (LoraFrame × ℕ × ℕ)
finish_periodic_packet packet interval_events event_revision = elim (encode packet) [
  | ok frame ↦ some (frame, interval_events, event_revision)
  | err error ↦ none
]

-- `finish_periodic_packet(…).map(…)`
unfoldable pub finished : ApplicationPacket → ℕ → ℕ → Bool → Bool → Option PeriodicPacket
unfolding finish_periodic_packet
finished packet events revision is_roll available =
    Option.map
      (λ (frame, transmitted_events, event_revision). record {
        frame = frame;
        transmitted_events = transmitted_events;
        event_revision = event_revision;
        is_control_roll_v2 = is_roll;
        control_roll_cycle_available = available;
      })
      (finish_periodic_packet packet events revision)

-- The fresh values of a slot: those of `stale_or` at the start of `periodic_packet`.
pub record Fresh : Type 0 where
  pub mission : Option MissionStatusTelemetry
  pub kinematics : Option KinematicsTelemetry
  pub control : Option ControlTelemetry
  pub tilt : Option AttitudeTiltTelemetry
  pub lps : Option LpsTelemetry
  pub airspeed : Option AirspeedTelemetry
  pub power : Option PowerTimeTelemetry
  pub control_roll_v2 : Option ControlRollTelemetryV2

unfoldable pub fresh_values : CanCache → ℕ → Fresh
fresh_values cache now_ms = record {
  mission = stale_or cache.mission_status now_ms 300;
  kinematics = stale_or cache.kinematics now_ms 30;
  control = stale_or cache.control now_ms 30;
  tilt = stale_or cache.attitude_tilt now_ms 300;
  lps = stale_or cache.lps now_ms 120;
  airspeed = stale_or cache.airspeed now_ms 30;
  power = stale_or cache.power_time now_ms 300;
  control_roll_v2 = stale_or cache.control_roll_v2 now_ms 300;
}

abbrev pub is_flight_state : MissionState → Bool
is_flight_state MissionState.liftoff_detection = true
is_flight_state MissionState.engine_burn = true
is_flight_state MissionState.control = true
is_flight_state _ = false

-- The arm of `MissionState::CommandReceive`.
unfoldable pub command_receive_packet : Fresh → GnssTelemetry → Shared → ApplicationPacket
command_receive_packet f gnss shared =
    let status =
      map_command_receive_status (map_or f.mission 0 (λ value. value.status))
        (map_or f.mission 0 (λ value. value.config)) f.power
        (map_or f.lps false (λ value. leb value.pressure 2031 && leb value.temperature 200))
        (map_or f.airspeed false (λ value. leb value.airspeed 245)) (is_some f.mission) in
    command_receive (record {
      status =
          put_flag 32 (put_flag 32 status 11 (not shared.sd_has_error)) 12
            (not shared.is_can_error);
      motor_profile = 0xff;
      tilt_magnitude = map_or f.tilt 123 (λ value. value.magnitude);
      tilt_direction = map_or f.tilt 0 (λ value. value.direction);
      fin_mode = map_or f.mission 15 (λ value. to_u8 value.fin_mode);
      para_mode = map_or f.mission 15 (λ value. to_u8 value.para_mode);
      fin_angle = map_or f.kinematics 249 (λ value. value.fin_angle);
      para_angle = map_or f.mission 247 (λ value. value.para_angle);
      pressure = map_or f.lps 2039 (λ value. value.pressure);
      temperature = map_or f.lps 247 (λ value. value.temperature);
      airspeed = map_or f.airspeed 252 (λ value. value.airspeed);
      logic_voltage = map_or f.power 253 (λ value. value.logic_voltage);
      motor_voltage = map_or f.power 253 (λ value. value.motor_voltage);
      east = gnss.east;
      north = gnss.north;
      height = gnss.height;
      display_roll = map_or f.kinematics 0x8004 (λ value. value.roll);
    })

-- The arm of the three states of the flight.
unfoldable pub flight_packet : PacketHeader → Fresh → GnssTelemetry → ℕ → Shared → ApplicationPacket
flight_packet header f gnss interval_events shared =
    let status = inject_link_health (map_or f.mission 0 (λ value. value.status)) 7 8 shared in
    flight (record {
      header = header;
      status = bit_or status (map_flight_interval_events interval_events);
      roll = map_or f.kinematics 0x8004 (λ value. value.roll);
      roll_rate = map_or f.kinematics 0x8004 (λ value. value.roll_rate);
      tilt_magnitude = map_or f.tilt 123 (λ value. value.magnitude);
      tilt_direction = map_or f.tilt 0 (λ value. value.direction);
      fin_angle = map_or f.kinematics 249 (λ value. value.fin_angle);
      fin_rate = map_or f.kinematics 0x8002 (λ value. value.fin_rate);
      pressure = map_or f.lps 2039 (λ value. value.pressure);
      temperature = map_or f.lps 247 (λ value. value.temperature);
      airspeed = map_or f.airspeed 252 (λ value. value.airspeed);
      requested_torque = map_or f.control 0x800 (λ value. value.requested_torque);
      elapsed = map_or f.control 0xfa (λ value. value.elapsed);
      east = gnss.east;
      north = gnss.north;
      height = gnss.height;
    })

-- The arm of `MissionState::Descent`.
unfoldable pub descent_packet : CanCache → ℕ → Fresh → GnssTelemetry → ApplicationPacket
descent_packet cache now_ms f gnss =
    let fallen = stale_or cache.descent_core now_ms 30 in
    descent (record {
      status = bit_and (map_or fallen 0 (λ value. value.status)) 0x1f;
      pressure = map_or f.lps 2039 (λ value. value.pressure);
      temperature = map_or f.lps 247 (λ value. value.temperature);
      para_angle = map_or fallen 247 (λ value. value.para_angle);
      elapsed = map_or f.power 0xfffa (λ value. value.descent_elapsed);
      east = gnss.east;
      north = gnss.north;
      height = gnss.height;
    })

unfoldable pub beacon_packet : Fresh → GnssTelemetry → ApplicationPacket
beacon_packet f gnss = recovery_beacon (record {
  logic_voltage = map_or f.power 253 (λ value. value.logic_voltage);
  motor_voltage = map_or f.power 253 (λ value. value.motor_voltage);
  east = gnss.east;
  north = gnss.north;
  height = gnss.height;
  elapsed = map_or f.power 0xfffa (λ value. value.recovery_elapsed);
})

unfoldable pub roll_packet : ControlRollTelemetryV2 → ApplicationPacket
roll_packet value = control_roll_telemetry_v2 (record {
  control_roll_reference_unwrapped_raw = value.control_roll_reference_unwrapped_raw;
  roll_deviation_unwrapped_raw = value.roll_deviation_unwrapped_raw;
  flags = value.flags;
  reference_capture_event_sequence = value.reference_capture_event_sequence;
})

-- From the beacon on: the packet by the state of the mission.
unfoldable pub state_packet :
    CanCache
    → ℕ
    → Fresh
    → GnssTelemetry
    → Shared
    → MissionState
    → Bool
    → Option PeriodicPacket × Shared
unfolding mission_link_fallback_packet
state_packet cache now_ms f gnss shared MissionState.unknown available =
    let (packet, counted) = mission_link_fallback_packet cache now_ms gnss shared in
    (finished packet 0 (event_snapshot cache).1 false false, counted)
state_packet cache now_ms f gnss shared MissionState.command_receive available = (
  finished (command_receive_packet f gnss shared) 0 (event_snapshot cache).1 false available,
  shared,
)
state_packet cache now_ms f gnss shared MissionState.liftoff_detection available =
    let (events, revision) = event_snapshot cache in
    (
      finished (flight_packet PacketHeader.liftoff_detection f gnss events shared)
          (bit_and events 0x1f) revision false available,
      shared,
    )
state_packet cache now_ms f gnss shared MissionState.engine_burn available =
    let (events, revision) = event_snapshot cache in
    (
      finished (flight_packet PacketHeader.engine_burn f gnss events shared) (bit_and events 0x1f)
          revision false available,
      shared,
    )
state_packet cache now_ms f gnss shared MissionState.control available =
    let (events, revision) = event_snapshot cache in
    (
      finished (flight_packet PacketHeader.control f gnss events shared) (bit_and events 0x1f)
          revision false available,
      shared,
    )
state_packet cache now_ms f gnss shared MissionState.descent available = (
  finished (descent_packet cache now_ms f gnss) 0 (event_snapshot cache).1 false available,
  shared,
)

-- From the roll on: its packet is the only one of an event, and the beacon comes before the state.
abbrev pub slot_packet :
    Option ControlRollTelemetryV2
    → Bool
    → CanCache
    → ℕ
    → Fresh
    → GnssTelemetry
    → Shared
    → MissionState
    → Bool
    → Option PeriodicPacket × Shared
slot_packet (some value) event_only cache now_ms f gnss shared state available =
    (finished (roll_packet value) 0 (event_snapshot cache).1 true true, shared)
slot_packet none true cache now_ms f gnss shared state available = (none, shared)
slot_packet none false cache now_ms f gnss shared state available =
    if shared.recovery_beacon_active
    then (finished (beacon_packet f gnss) 0 (event_snapshot cache).1 false false, shared)
    else state_packet cache now_ms f gnss shared state available

unfoldable pub periodic_packet :
    Bool → Bool → CanCache → ℕ → GnssTelemetry → Shared → Option PeriodicPacket × Shared
periodic_packet prefer_control_roll_v2 control_roll_event_only cache now_ms gnss shared =
    let f = fresh_values cache now_ms in
    let state = map_or f.mission MissionState.unknown (λ value. value.state) in
    let available = is_flight_state state && is_some f.control_roll_v2 in
    let roll = if prefer_control_roll_v2 && available then f.control_roll_v2 else none in
    slot_packet roll control_roll_event_only cache now_ms f gnss shared state available
