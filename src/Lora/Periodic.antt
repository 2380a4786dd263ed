-- ===== src/Lora/Periodic.antt =====
-- tasks/lora_task_base.rs: the packet of a periodic slot, from what the board knows. The atomics that
-- it reads are the fields of `Shared`; the time is in milliseconds.
mod Tests
pub mod Status
pub mod Packet
pub mod Fits
pub mod Fields
pub mod Packets
pub mod Sent
pub mod Kept
use Prim.Native.Nat.{bit_and, bit_or}
use mathlib.Core.Option
use l_comboard.Base.{
  ℕ, zero, suc, ◌+◌, ◌-◌, ◌*◌, ◌/◌, ◌%◌, ◌^◌, min, max, List, [], ◌∷◌, Bool, true, false, not, ◌&&◌,
  ◌||◌, Option, none, some, ◌==◌, ltb, leb, if◌then◌else◌,
}
use l_comboard.Base.Bits.{complement}
use l_comboard.Base.Result.{ok, err}
use l_comboard.Can.Protocol.Messages.{PowerTimeTelemetry}
use l_comboard.Can.Protocol.WireEnum.{to_u8}
use l_comboard.Can.Protocol.MissionEnums.{
  MissionState, mission_state_wire, fin_mode_wire, para_mode_wire,
}
use l_comboard.Can.Cache.{Latest, Freshness, CanCache, received_at, freshness, event_snapshot}
use l_comboard.Lora.Payload.Packets.{
  PacketHeader, ApplicationPacket, LoraFrame, FlightTelemetry, command_receive, flight, descent,
  recovery_beacon, mission_link_fallback, control_roll_telemetry_v2,
}
use l_comboard.Lora.Payload.Encode.{encode}

pub data GnssReceiverState : Type 0 where
  off starting receiver_detected configuration_failed receiver_error no_fix valid_fix invalid_sample
        stale :
      GnssReceiverState

pub record GnssTelemetry : Type 0 where
  pub state : GnssReceiverState
  pub east : ℕ
  pub north : ℕ
  pub height : ℕ
  pub last_receiver_at_ms : Option ℕ
  pub last_fix_at_ms : Option ℕ
  pub started_at_ms : Option ℕ

-- SD_HAS_ERROR, IS_CAN_ERROR, LOGGING_REQUESTED, LOGGING_ACTIVE, HAS_UNFLUSHED_DATA,
-- RECOVERY_BEACON_ACTIVE, MISSION_STATUS_INVALID_AT_MS, CAN_FALLBACK_HEALTH and
-- MISSION_LINK_FALLBACK_SEQUENCE.
pub record Shared : Type 0 where
  pub sd_has_error : Bool
  pub is_can_error : Bool
  pub logging_requested : Bool
  pub logging_active : Bool
  pub has_unflushed_data : Bool
  pub recovery_beacon_active : Bool
  pub mission_status_invalid_at_ms : ℕ
  pub can_fallback_health : ℕ
  pub mission_link_fallback_sequence : ℕ

-- A value while it is fresh.
unfoldable pub stale_or : {T : Type 0} → Latest T → ℕ → ℕ → Option T
stale_or latest now_ms maximum_age_ms = elim (freshness latest now_ms maximum_age_ms) [
  | Freshness.fresh ↦ latest.value
  | _ ↦ none
]

unfoldable pub age_tenths : ℕ → Option ℕ → ℕ
age_tenths now_ms none = 0xffff
age_tenths now_ms (some received_at_ms) =
    if ltb now_ms received_at_ms then 0xffff else min ((now_ms - received_at_ms) / 100) 0xfffe

-- `into_iter().flatten().max()`
abbrev pub latest_of : List (Option ℕ) → Option ℕ
latest_of [] = none
latest_of (none ∷ rest) = latest_of rest
latest_of (some at ∷ rest) =
    let later = latest_of rest in elim later [ none ↦ some at | some other ↦ some (max at other) ]

unfoldable pub latest_mission_periodic_at : CanCache → Option ℕ
latest_mission_periodic_at cache = latest_of (
    received_at cache.kinematics
    ∷ received_at cache.control
    ∷ received_at cache.mission_status
    ∷ received_at cache.power_time
    ∷ received_at cache.descent_core
    ∷ received_at cache.attitude_tilt
    ∷ received_at cache.lps
    ∷ received_at cache.airspeed
    ∷ received_at cache.control_roll_v2
    ∷ [])

abbrev pub gnss_state_code : GnssReceiverState → ℕ
gnss_state_code GnssReceiverState.off = 0
gnss_state_code GnssReceiverState.starting = 1
gnss_state_code GnssReceiverState.receiver_detected = 2
gnss_state_code GnssReceiverState.configuration_failed = 3
gnss_state_code GnssReceiverState.receiver_error = 4
gnss_state_code GnssReceiverState.no_fix = 5
gnss_state_code GnssReceiverState.valid_fix = 6
gnss_state_code GnssReceiverState.invalid_sample = 7
gnss_state_code GnssReceiverState.stale = 8

-- An age that is known and below a second.
abbrev pub recent : ℕ → Bool
recent age = not (age == 0xffff) && ltb age 10

unfoldable pub fallback_primary_loss_reason : ℕ → Bool → Bool → ℕ → Bool → ℕ → ℕ
fallback_primary_loss_reason can_health invalid_is_latest mission_ever mission_age periodic_ever
      any_periodic_age =
    if can_health == 4
    then 3
    else if can_health == 5
    then 4
    else if can_health == 6
    then 7
    else if invalid_is_latest
    then 5
    else if not mission_ever
    then 0
    else if recent mission_age
    then 7
    else if periodic_ever && recent any_periodic_age
    then 1
    else 2

-- `status |= from(b) << k`, for each pair in order.
unfoldable pub set_flags : ℕ → List (Bool × ℕ) → ℕ
set_flags status [] = status
set_flags status ((b, k) ∷ rest) = set_flags (bit_or status (if b then 2 ^ k else 0)) rest

unfoldable pub fallback_can_status_flags : ℕ → ℕ
fallback_can_status_flags can_health =
    set_flags 0
      ((leb 1 can_health && leb can_health 3, 13) ∷ (leb 2 can_health && leb can_health 6, 14) ∷ [])

abbrev pub is_some : {A : Type 0} → Option A → Bool
is_some none = false
is_some (some a) = true

-- `map_or`
abbrev pub map_or : {A B : Type 0} → Option A → B → (A → B) → B
map_or none b f = b
map_or (some a) b f = f a

-- `gnss.state == GnssReceiverState::…`, by its code
abbrev pub is_state : GnssReceiverState → GnssReceiverState → Bool
is_state a b = gnss_state_code a == gnss_state_code b

unfoldable pub fallback_flags : CanCache → ℕ → GnssTelemetry → Shared → ℕ → ℕ
fallback_flags cache now_ms gnss shared can_health =
    let mission_received = received_at cache.mission_status in
    let any_periodic_received = latest_mission_periodic_at cache in
    bit_or
      (set_flags 0 (
        (is_some mission_received, 0)
        ∷ (is_some any_periodic_received, 1)
        ∷ (recent (age_tenths now_ms mission_received), 2)
        ∷ (recent (age_tenths now_ms any_periodic_received), 3)
        ∷ (not shared.sd_has_error, 4)
        ∷ (shared.logging_requested, 5)
        ∷ (shared.logging_active, 6)
        ∷ (shared.has_unflushed_data, 7)
        ∷ (not (is_state gnss.state GnssReceiverState.off), 8)
        ∷ (is_state gnss.state GnssReceiverState.valid_fix, 9)
        ∷ (is_state gnss.state GnssReceiverState.stale, 10)
        ∷ (is_some (received_at cache.power_time), 11)
        ∷ (is_some mission_received, 12)
        ∷ []))
      (fallback_can_status_flags can_health)

-- The sequence number is counted up by `mission_link_fallback_packet`.
unfoldable pub mission_link_fallback_packet_with_health :
    CanCache → ℕ → GnssTelemetry → ℕ → Shared → ApplicationPacket
mission_link_fallback_packet_with_health cache now_ms gnss can_health shared =
    let mission_received = received_at cache.mission_status in
    let any_periodic_received = latest_mission_periodic_at cache in
    let mission_age = age_tenths now_ms mission_received in
    let any_periodic_age = age_tenths now_ms any_periodic_received in
    let invalid_at = shared.mission_status_invalid_at_ms in
    let power = cache.power_time.value in
    mission_link_fallback (record {
      sequence = shared.mission_link_fallback_sequence;
      primary_loss_reason =
          fallback_primary_loss_reason can_health
            (not (invalid_at == 0)
              && map_or mission_received true (λ valid_at. ltb valid_at invalid_at))
            (is_some mission_received) mission_age (is_some any_periodic_received) any_periodic_age;
      status_flags = fallback_flags cache now_ms gnss shared can_health;
      last_valid_mission_state =
          map_or cache.mission_status.value 0xff (λ status. to_u8 status.state);
      gnss_state = gnss_state_code gnss.state;
      mission_status_age = mission_age;
      any_mission_periodic_age = any_periodic_age;
      power_time_age = age_tenths now_ms (received_at cache.power_time);
      east = gnss.east;
      north = gnss.north;
      height = gnss.height;
      logic_voltage = map_or power 253 (λ value. value.logic_voltage);
      motor_voltage = map_or power 253 (λ value. value.motor_voltage);
      can_health = can_health;
    })

unfoldable pub mission_link_fallback_packet :
    CanCache → ℕ → GnssTelemetry → Shared → ApplicationPacket × Shared
mission_link_fallback_packet cache now_ms gnss shared = (
  mission_link_fallback_packet_with_health cache now_ms gnss shared.can_fallback_health shared,
  record shared {
    mission_link_fallback_sequence = (shared.mission_link_fallback_sequence + 1) % 256;
  },
)
