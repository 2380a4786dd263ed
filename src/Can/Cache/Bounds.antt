-- ===== src/Can/Cache/Bounds.antt =====
-- can/protocol.rs: the ranges of the values that a frame can carry.
use Prim.Native.Nat.{bit_and}
use l_comboard.Base.{ℕ, ◌/◌, ◌<◌, ◌≡◌, arith}
use l_comboard.Base.Bits.{bit_and_step, bit_and_0x0f}
use l_comboard.Can.Protocol.Messages.{
  KinematicsTelemetry, ControlTelemetry, MissionStatusTelemetry, PowerTimeTelemetry,
  DescentCoreTelemetry, LpsTelemetry, AirspeedTelemetry, ControlRollTelemetryV2, kinematics,
  control, mission_status, power_time, descent_core, lps, airspeed, control_roll_v2,
}
use l_comboard.Can.Protocol.Wire.{IsWire}

bit_and_0xf0 : (y : ℕ) → y < 256 → bit_and y 0xf0 ≡ 0 → y < 16
bit_and_0xf0 y w h =
    let a = bit_and_step y 0xf0 in
    let b = bit_and_step (y / 2) 0x78 in
    let c = bit_and_step (y / 2 / 2) 0x3c in
    let d = bit_and_step (y / 2 / 2 / 2) 0x1e in
    let e = bit_and_0x0f (y / 2 / 2 / 2 / 2) in omega (arith, a, b, c, d, e)

bit_and_0xf8 : (y : ℕ) → y < 256 → bit_and y 0xf8 ≡ 0 → y < 8
bit_and_0xf8 y w h =
    let a = bit_and_step y 0xf8 in
    let b = bit_and_step (y / 2) 0x7c in
    let c = bit_and_step (y / 2 / 2) 0x3e in
    let d = bit_and_step (y / 2 / 2 / 2) 0x1f in
    let e = bit_and_0x0f (y / 2 / 2 / 2 / 2) in omega (arith, a, b, c, d, e)

pub bit_and_0x1f : (y : ℕ) → bit_and y 0x1f < 32
bit_and_0x1f y = omega (arith, bit_and_step y 0x1f, bit_and_0x0f (y / 2))

pub kinematics_range :
    (v : KinematicsTelemetry)
    → IsWire (kinematics v)
    → (v.roll < 65536) × (v.roll_rate < 65536) × (v.fin_angle < 256) × (v.fin_rate < 65536)
kinematics_range v w = ground (arith, w.bytes)

pub control_range :
    (v : ControlTelemetry) → IsWire (control v) → (v.requested_torque < 4096) × (v.elapsed < 256)
control_range v w =
    let (_, (_, (high, (elapsed, _)))) = w.bytes in
    (omega (arith, bit_and_0xf0 (v.requested_torque / 256) high w.fields), elapsed)

pub lps_range : (v : LpsTelemetry) → IsWire (lps v) → (v.pressure < 2048) × (v.temperature < 256)
lps_range v w =
    let (_, (_, (high, (temperature, _)))) = w.bytes in
    (omega (arith, bit_and_0xf8 (v.pressure / 256) high w.fields), temperature)

pub mission_range :
    (v : MissionStatusTelemetry)
    → IsWire (mission_status v)
    → (v.status < 65536) × (v.config < 256) × (v.para_angle < 256)
mission_range v w = ground (arith, w.bytes)

pub power_range :
    (v : PowerTimeTelemetry)
    → IsWire (power_time v)
    → (v.logic_voltage < 256)
      × (v.motor_voltage < 256)
      × (v.descent_elapsed < 65536)
      × (v.recovery_elapsed < 65536)
power_range v w = ground (arith, w.bytes)

pub descent_range : (v : DescentCoreTelemetry) → IsWire (descent_core v) → v.para_angle < 256
descent_range v w = ground (arith, w.bytes)

pub roll_range :
    (v : ControlRollTelemetryV2)
    → IsWire (control_roll_v2 v)
    → (v.control_roll_reference_unwrapped_raw < 65536)
      × (v.roll_deviation_unwrapped_raw < 65536)
      × (v.flags < 256)
      × (v.reference_capture_event_sequence < 256)
roll_range v w = ground (arith, w.bytes)

pub airspeed_range : (v : AirspeedTelemetry) → IsWire (airspeed v) → v.airspeed < 256
airspeed_range v w = ground (arith, w.bytes)
