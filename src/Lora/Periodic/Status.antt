-- ===== src/Lora/Periodic/Status.antt =====
-- tasks/lora_task_base.rs: the status bits of the periodic packets.
use Prim.Native.Nat.{bit_and, bit_or}
use l_comboard.Base.{
  ℕ, ◌^◌, List, [], ◌∷◌, Bool, true, false, not, ◌&&◌, Option, none, some, ◌==◌, leb,
}
use l_comboard.Base.Bits.{complement}
use l_comboard.Can.Protocol.Messages.{PowerTimeTelemetry}
use l_comboard.Lora.Periodic.{Shared, set_flags}

-- `status |= 1 << k` or `status &= !(1 << k)`, on `width` bits.
abbrev pub put_flag : ℕ → ℕ → ℕ → Bool → ℕ
put_flag width status k true = bit_or status (2 ^ k)
put_flag width status k false = bit_and status (complement width (2 ^ k))

unfoldable pub inject_link_health : ℕ → ℕ → ℕ → Shared → ℕ
inject_link_health status sd_bit can_bit shared =
    put_flag 16 (put_flag 16 status sd_bit (not shared.sd_has_error)) can_bit
      (not shared.is_can_error)

-- `value & (1 << k) != 0`
abbrev pub has_flag : ℕ → ℕ → Bool
has_flag value k = not (bit_and value (2 ^ k) == 0)

abbrev pub power_flags : Option PowerTimeTelemetry → List (Bool × ℕ)
power_flags none = []
power_flags (some power) =
    (leb power.logic_voltage 240, 8)
    ∷ (leb power.motor_voltage 240, 9)
    ∷ (has_flag power.flags 3, 10)
    ∷ (has_flag power.flags 0, 13)
    ∷ []

unfoldable pub map_command_receive_status :
    ℕ → ℕ → Option PowerTimeTelemetry → Bool → Bool → Bool → ℕ
map_command_receive_status mission_status config power lps_fresh airspeed_fresh
      mission_status_fresh =
    let sensors = set_flags 0 (
      (has_flag mission_status 2, 0)
      ∷ (lps_fresh, 1)
      ∷ (airspeed_fresh, 2)
      ∷ (mission_status_fresh && not (has_flag mission_status 10), 3)
      ∷ (has_flag mission_status 3, 4)
      ∷ (has_flag config 0, 5)
      ∷ (has_flag config 1, 6)
      ∷ (has_flag config 2, 7)
      ∷ []) in
    set_flags (set_flags sensors (power_flags power)) (
      (has_flag config 3, 16)
      ∷ (has_flag config 4, 18)
      ∷ (has_flag config 5, 21)
      ∷ (has_flag config 6, 22)
      ∷ [])

unfoldable pub map_flight_interval_events : ℕ → ℕ
map_flight_interval_events events = set_flags 0 (
    (has_flag events 0, 9)
    ∷ (has_flag events 1, 10)
    ∷ (has_flag events 2, 11)
    ∷ (has_flag events 3, 12)
    ∷ (has_flag events 4, 14)
    ∷ [])
