-- ===== src/Lora/Periodic/Packets.antt =====
-- tasks/lora_task_base.rs: what each kind of periodic packet writes fits its places.
use Prim.Native.Nat.{bit_and, bit_or}
use l_comboard.Base.{
  ℕ, zero, suc, ◌/◌, ◌%◌, ◌≤◌, ◌<◌, ◌≡◌, ◌⊎◌, ◌^◌, refl, ◌∙◌, arith, Option, Bool, true, false, not,
  ◌&&◌, All, leb, ltb, ◌==◌,
}
use l_comboard.Base.Bits.{bit_or-lt, bit_and_step}
use native.Mathlib.Nat.{pow-suc}
use l_comboard.Can.Protocol.Messages.{
  MissionStatusTelemetry, PowerTimeTelemetry, ControlRollTelemetryV2, control_roll_v2,
}
use l_comboard.Can.Protocol.MissionEnums.{
  FinMode, ParaMode, fin_mode_to_u8, para_mode_to_u8, mission_state_to_u8,
}
use l_comboard.Can.Protocol.Wire.{IsWire}
use l_comboard.Can.Cache.{CanCache, received_at}
use l_comboard.Can.Cache.Held.{IsCache}
use l_comboard.Can.Cache.Bounds.{bit_and_0x1f, power_range, descent_range, roll_range}
use l_comboard.Lora.Payload.Packets.{PacketHeader, header_to_u8}
use l_comboard.Lora.Payload.Writer.Read.{FitsField}
use l_comboard.Lora.Payload.Encode.{fields}
use l_comboard.Lora.Payload.Encode.Frame.{IsPacket}
use l_comboard.Lora.Periodic.{
  GnssReceiverState, GnssTelemetry, Shared, stale_or, age_tenths, fallback_primary_loss_reason,
  fallback_can_status_flags, fallback_flags, map_or, is_some, latest_mission_periodic_at,
  gnss_state_code, mission_link_fallback_packet_with_health,
}
use l_comboard.Lora.Periodic.Status.{
  put_flag, inject_link_health, map_command_receive_status, map_flight_interval_events, power_flags,
}
use l_comboard.Lora.Periodic.Packet.{
  Fresh, command_receive_packet, flight_packet, descent_packet, beacon_packet, roll_packet,
}
use l_comboard.Lora.Periodic.Fits.{
  stale_or-Holds, map_or-lt, set_flags-lt, put_flag-lt, IsGnss, IsFresh,
}
use l_comboard.Lora.Periodic.Fields.{
  pressure_fits, temperature_fits, magnitude_fits, direction_fits, fin_angle_fits, roll_fits,
  roll_rate_fits, fin_rate_fits, airspeed_fits, logic_fits, motor_fits, recovery_elapsed_fits,
  descent_elapsed_fits, torque_fits, elapsed_fits, para_angle_fits, status_fits,
}

pub beacon_fits :
    (f : Fresh) (g : GnssTelemetry)
    → IsFresh f
    → IsGnss g
    → All FitsField (fields (beacon_packet f g))
unfolding beacon_packet fields header_to_u8
beacon_fits f g w v =
    ground
      (arith, logic_fits f w, motor_fits f w, recovery_elapsed_fits f w, v.east, v.north, v.height)

pub roll_packet_fits :
    (v : ControlRollTelemetryV2)
    → IsWire (control_roll_v2 v)
    → All FitsField (fields (roll_packet v))
unfolding roll_packet fields header_to_u8
roll_packet_fits v w = ground (arith, roll_range v w)

pub descent_fits :
    (c : CanCache) (now : ℕ) (f : Fresh) (g : GnssTelemetry)
    → IsCache c
    → IsFresh f
    → IsGnss g
    → All FitsField (fields (descent_packet c now f g))
unfolding descent_packet fields header_to_u8
descent_fits c now f g h w v =
    let fallen = stale_or c.descent_core now 30 in
    let para =
      map_or-lt _ fallen 247 256 (λ v. v.para_angle) (stale_or-Holds _ c.descent_core now 30 h.4)
        (omega arith) (λ v k. descent_range v k) in
    let status = bit_and_0x1f (map_or fallen 0 (λ v. v.status)) in
    ground (
      arith,
      pressure_fits f w,
      temperature_fits f w,
      descent_elapsed_fits f w,
      para,
      status,
      v.east,
      v.north,
      v.height,
    )

flight_status_fits :
    (f : Fresh) (events : ℕ) (s : Shared)
    → IsFresh f
    → bit_or
        (inject_link_health (map_or f.mission 0 (λ v. v.status)) 7 8 s)
        (map_flight_interval_events events)
      < 65536
unfolding inject_link_health map_flight_interval_events
flight_status_fits f events s w =
    let status = map_or f.mission 0 (λ v. v.status) in
    let sd = put_flag-lt 16 16 status 7 (not s.sd_has_error) (status_fits f w) (omega arith) in
    let can = put_flag-lt 16 16 _ 8 (not s.is_can_error) sd (omega arith) in
    bit_or-lt 16 _ _ can (set_flags-lt 16 0 _ (omega arith) (ground arith))

pub flight_fits :
    (header : PacketHeader) (f : Fresh) (g : GnssTelemetry) (events : ℕ) (s : Shared)
    → IsFresh f
    → IsGnss g
    → All FitsField (fields (flight_packet header f g events s))
unfolding flight_packet fields header_to_u8
flight_fits header f g events s w v = ground (
  arith,
  flight_status_fits f events s w,
  roll_fits f w,
  roll_rate_fits f w,
  magnitude_fits f w,
  direction_fits f w,
  fin_angle_fits f w,
  fin_rate_fits f w,
  pressure_fits f w,
  temperature_fits f w,
  airspeed_fits f w,
  torque_fits f w,
  elapsed_fits f w,
  v.east,
  v.north,
  v.height,
)

fin_mode_fits : (a : FinMode) → fin_mode_to_u8 a < 16
unfolding fin_mode_to_u8
fin_mode_fits a = ground arith

para_mode_fits : (a : ParaMode) → para_mode_to_u8 a < 16
unfolding para_mode_to_u8
para_mode_fits a = ground arith

command_status_fits :
    (status config : ℕ) (power : Option PowerTimeTelemetry) (l a m : Bool) (s : Shared)
    → put_flag 32
        (put_flag 32 (map_command_receive_status status config power l a m) 11 (not s.sd_has_error))
        12
        (not s.is_can_error)
      < 2 ^ 24
unfolding map_command_receive_status
command_status_fits status config power l a m s =
    let sensors = set_flags-lt 24 0 _ (omega arith) (ground arith) in
    let powered = set_flags-lt 24 _ (power_flags power) sensors (ground arith) in
    let config = set_flags-lt 24 _ _ powered (ground arith) in
    let sd = put_flag-lt 24 32 _ 11 (not s.sd_has_error) config (omega arith) in
    put_flag-lt 24 32 _ 12 (not s.is_can_error) sd (omega arith)

pub command_fits :
    (f : Fresh) (g : GnssTelemetry) (s : Shared)
    → IsFresh f
    → IsGnss g
    → All FitsField (fields (command_receive_packet f g s))
unfolding command_receive_packet fields header_to_u8
command_fits f g s w v =
    let status =
      command_status_fits (map_or f.mission 0 (λ value. value.status))
        (map_or f.mission 0 (λ value. value.config)) f.power
        (map_or f.lps false (λ value. leb value.pressure 2031 && leb value.temperature 200))
        (map_or f.airspeed false (λ value. leb value.airspeed 245)) (is_some f.mission) s in
    let fin =
      map_or-lt _ f.mission 15 16 (λ v. fin_mode_to_u8 v.fin_mode) w.mission (omega arith)
        (λ v h. fin_mode_fits v.fin_mode) in
    let para =
      map_or-lt _ f.mission 15 16 (λ v. para_mode_to_u8 v.para_mode) w.mission (omega arith)
        (λ v h. para_mode_fits v.para_mode) in
    ground (
      arith,
      status,
      fin,
      para,
      para_angle_fits f w,
      logic_fits f w,
      motor_fits f w,
      roll_fits f w,
      magnitude_fits f w,
      direction_fits f w,
      fin_angle_fits f w,
      pressure_fits f w,
      temperature_fits f w,
      airspeed_fits f w,
      v.east,
      v.north,
      v.height,
    )

age_fits : (now : ℕ) (at : Option ℕ) → age_tenths now at < 65536
unfolding age_tenths
age_fits now at = ground arith

reason_fits :
    (health : ℕ) (invalid ever : Bool) (age : ℕ) (periodic : Bool) (any : ℕ)
    → fallback_primary_loss_reason health invalid ever age periodic any ≤ 7
unfolding fallback_primary_loss_reason
reason_fits health invalid ever age periodic any = ground arith

flags_fit :
    (c : CanCache) (now : ℕ) (g : GnssTelemetry) (s : Shared) (health : ℕ)
    → fallback_flags c now g s health < 2 ^ 15
unfolding fallback_flags fallback_can_status_flags
flags_fit c now g s health =
    bit_or-lt 15 _ _ (set_flags-lt 15 0 _ (omega arith) (ground arith))
      (set_flags-lt 15 0 _ (omega arith) (ground arith))

bit_and-power : (k x : ℕ) → x < 2 ^ k → bit_and x (2 ^ k) ≡ 0
bit_and-power zero x h = let e : x ≡ 0 = omega arith in rw e refl
bit_and-power (suc k) x h =
    let half : 2 ^ suc k / 2 ≡ 2 ^ k = omega (arith, pow-suc 2 k) in
    let even : 2 ^ suc k % 2 ≡ 0 = omega (arith, pow-suc 2 k) in
    let rest = bit_and-power k (x / 2) (omega (arith, pow-suc 2 k)) in
    bit_and_step x (2 ^ suc k) ∙ rw (half, even, rest) (omega arith)

last_state_fits :
    (o : Option MissionStatusTelemetry)
    → let n = map_or o 0xff (λ v. mission_state_to_u8 v.state) in ((n ≤ 4) ⊎ (n ≡ 255)) × (n < 256)
unfolding mission_state_to_u8
last_state_fits o = ground arith

gnss_code_fits : (a : GnssReceiverState) → gnss_state_code a ≤ 8
gnss_code_fits a = ground arith

pub fallback_fits :
    (c : CanCache) (now : ℕ) (g : GnssTelemetry) (health : ℕ) (s : Shared)
    → IsCache c
    → IsGnss g
    → health ≤ 6
    → s.mission_link_fallback_sequence < 256
    → IsPacket (mission_link_fallback_packet_with_health c now g health s)
unfolding mission_link_fallback_packet_with_health fields header_to_u8
fallback_fits c now g health s h v low seq =
    let flags = flags_fit c now g s health in
    let last = last_state_fits c.mission_status.value in
    let logic =
      map_or-lt _ c.power_time.value 253 256 (λ v. v.logic_voltage) h.3 (omega arith)
        (λ v k. (power_range v k).0) in
    let motor =
      map_or-lt _ c.power_time.value 253 256 (λ v. v.motor_voltage) h.3 (omega arith)
        (λ v k. (power_range v k).1) in
    let mission = received_at c.mission_status in
    let any = latest_mission_periodic_at c in
    let reason =
      reason_fits health
        (not (s.mission_status_invalid_at_ms == 0)
          && map_or mission true (λ valid_at. ltb valid_at s.mission_status_invalid_at_ms))
        (is_some mission) (age_tenths now mission) (is_some any) (age_tenths now any) in
    let clear = bit_and-power 15 (fallback_flags c now g s health) flags in
    let code = gnss_code_fits g.state in
    record {
      allowed = (reason, clear, last.0, code, v.height, low);
      fit = ground (
        arith,
        reason,
        flags,
        last,
        logic,
        motor,
        seq,
        code,
        age_fits now mission,
        age_fits now any,
        age_fits now (received_at c.power_time),
        v.east,
        v.north,
        v.height,
        low,
      );
    }
