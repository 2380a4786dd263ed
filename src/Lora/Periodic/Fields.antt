-- ===== src/Lora/Periodic/Fields.antt =====
-- tasks/lora_task_base.rs: the fields of the periodic packets fit their places.
use l_comboard.Base.{◌<◌, arith}
use l_comboard.Can.Cache.Bounds.{
  kinematics_range, control_range, lps_range, mission_range, power_range, airspeed_range,
}
use l_comboard.Lora.Periodic.{map_or}
use l_comboard.Lora.Periodic.Packet.{Fresh}
use l_comboard.Lora.Periodic.Fits.{map_or-lt, IsFresh}

-- The fields that more than one packet has.
module _ (f : Fresh) (w : IsFresh f) where
  pub pressure_fits : map_or f.lps 2039 (λ v. v.pressure) < 2048
  pressure_fits = map_or-lt _ f.lps 2039 2048 _ w.lps (omega arith) (λ v h. (lps_range v h).0)

  pub temperature_fits : map_or f.lps 247 (λ v. v.temperature) < 256
  temperature_fits = map_or-lt _ f.lps 247 256 _ w.lps (omega arith) (λ v h. (lps_range v h).1)

  pub magnitude_fits : map_or f.tilt 123 (λ v. v.magnitude) < 128
  magnitude_fits = map_or-lt _ f.tilt 123 128 _ w.tilt (omega arith) (λ v h. h.fields.0)

  pub direction_fits : map_or f.tilt 0 (λ v. v.direction) < 512
  direction_fits = map_or-lt _ f.tilt 0 512 _ w.tilt (omega arith) (λ v h. h.fields.1)

  pub fin_angle_fits : map_or f.kinematics 249 (λ v. v.fin_angle) < 256
  fin_angle_fits =
      map_or-lt _ f.kinematics 249 256 _ w.kinematics (omega arith)
        (λ v h. (kinematics_range v h).2)

  pub roll_fits : map_or f.kinematics 0x8004 (λ v. v.roll) < 65536
  roll_fits =
      map_or-lt _ f.kinematics 0x8004 65536 _ w.kinematics (omega arith)
        (λ v h. (kinematics_range v h).0)

  pub roll_rate_fits : map_or f.kinematics 0x8004 (λ v. v.roll_rate) < 65536
  roll_rate_fits =
      map_or-lt _ f.kinematics 0x8004 65536 _ w.kinematics (omega arith)
        (λ v h. (kinematics_range v h).1)

  pub fin_rate_fits : map_or f.kinematics 0x8002 (λ v. v.fin_rate) < 65536
  fin_rate_fits =
      map_or-lt _ f.kinematics 0x8002 65536 _ w.kinematics (omega arith)
        (λ v h. (kinematics_range v h).3)

  pub airspeed_fits : map_or f.airspeed 252 (λ v. v.airspeed) < 256
  airspeed_fits =
      map_or-lt _ f.airspeed 252 256 _ w.airspeed (omega arith) (λ v h. airspeed_range v h)

  pub logic_fits : map_or f.power 253 (λ v. v.logic_voltage) < 256
  logic_fits = map_or-lt _ f.power 253 256 _ w.power (omega arith) (λ v h. (power_range v h).0)

  pub motor_fits : map_or f.power 253 (λ v. v.motor_voltage) < 256
  motor_fits = map_or-lt _ f.power 253 256 _ w.power (omega arith) (λ v h. (power_range v h).1)

  pub recovery_elapsed_fits : map_or f.power 0xfffa (λ v. v.recovery_elapsed) < 65536
  recovery_elapsed_fits =
      map_or-lt _ f.power 0xfffa 65536 _ w.power (omega arith) (λ v h. (power_range v h).3)

  pub descent_elapsed_fits : map_or f.power 0xfffa (λ v. v.descent_elapsed) < 65536
  descent_elapsed_fits =
      map_or-lt _ f.power 0xfffa 65536 _ w.power (omega arith) (λ v h. (power_range v h).2)

  pub torque_fits : map_or f.control 0x800 (λ v. v.requested_torque) < 4096
  torque_fits =
      map_or-lt _ f.control 0x800 4096 _ w.control (omega arith) (λ v h. (control_range v h).0)

  pub elapsed_fits : map_or f.control 0xfa (λ v. v.elapsed) < 256
  elapsed_fits =
      map_or-lt _ f.control 0xfa 256 _ w.control (omega arith) (λ v h. (control_range v h).1)

  pub para_angle_fits : map_or f.mission 247 (λ v. v.para_angle) < 256
  para_angle_fits =
      map_or-lt _ f.mission 247 256 _ w.mission (omega arith) (λ v h. (mission_range v h).2)

  pub status_fits : map_or f.mission 0 (λ v. v.status) < 65536
  status_fits =
      map_or-lt _ f.mission 0 65536 _ w.mission (omega arith) (λ v h. (mission_range v h).0)
