-- ===== src/Can/Protocol/MissionEnums.antt =====
-- can/protocol.rs: the mission's state, the modes of its servos and the source of a time.
use l_comboard.Base.{ℕ, ◌≡◌, refl, Option, none, some, arith, ◌==◌, if◌then◌else◌}
use l_comboard.Can.Protocol.WireEnum.{WireEnum}

pub data MissionState : Type 0 where
  command_receive liftoff_detection engine_burn control descent unknown : MissionState

unfoldable pub mission_state_to_u8 : MissionState → ℕ
mission_state_to_u8 MissionState.command_receive = 0
mission_state_to_u8 MissionState.liftoff_detection = 1
mission_state_to_u8 MissionState.engine_burn = 2
mission_state_to_u8 MissionState.control = 3
mission_state_to_u8 MissionState.descent = 4
mission_state_to_u8 MissionState.unknown = 255

pub decode_mission_state : ℕ → Option MissionState
decode_mission_state raw =
    if raw == 0
    then some MissionState.command_receive
    else if raw == 1
    then some MissionState.liftoff_detection
    else if raw == 2
    then some MissionState.engine_burn
    else if raw == 3
    then some MissionState.control
    else if raw == 4
    then some MissionState.descent
    else if raw == 255
    then some MissionState.unknown
    else none

pub mission_state_decode-to_u8 :
    (a : MissionState) → decode_mission_state (mission_state_to_u8 a) ≡ some a
unfolding mission_state_to_u8 decode_mission_state
mission_state_decode-to_u8 MissionState.command_receive = refl
mission_state_decode-to_u8 MissionState.liftoff_detection = refl
mission_state_decode-to_u8 MissionState.engine_burn = refl
mission_state_decode-to_u8 MissionState.control = refl
mission_state_decode-to_u8 MissionState.descent = refl
mission_state_decode-to_u8 MissionState.unknown = refl

pub mission_state_to_u8_of_decode :
    (raw : ℕ) (a : MissionState) → decode_mission_state raw ≡ some a → mission_state_to_u8 a ≡ raw
unfolding mission_state_to_u8 decode_mission_state
mission_state_to_u8_of_decode raw a h = ground arith

instance abbrev pub mission_state_wire : WireEnum MissionState
mission_state_wire = record {
  to_u8 = mission_state_to_u8;
  decode = decode_mission_state;
  decode-to_u8 = mission_state_decode-to_u8;
  to_u8_of_decode = mission_state_to_u8_of_decode;
}

pub data FinMode : Type 0 where
  free brake position_hold zero_hold relative_move roll_control unknown : FinMode

unfoldable pub fin_mode_to_u8 : FinMode → ℕ
fin_mode_to_u8 FinMode.free = 0
fin_mode_to_u8 FinMode.brake = 1
fin_mode_to_u8 FinMode.position_hold = 2
fin_mode_to_u8 FinMode.zero_hold = 3
fin_mode_to_u8 FinMode.relative_move = 4
fin_mode_to_u8 FinMode.roll_control = 5
fin_mode_to_u8 FinMode.unknown = 15

pub decode_fin_mode : ℕ → Option FinMode
decode_fin_mode raw =
    if raw == 0
    then some FinMode.free
    else if raw == 1
    then some FinMode.brake
    else if raw == 2
    then some FinMode.position_hold
    else if raw == 3
    then some FinMode.zero_hold
    else if raw == 4
    then some FinMode.relative_move
    else if raw == 5
    then some FinMode.roll_control
    else if raw == 15
    then some FinMode.unknown
    else none

pub fin_mode_decode-to_u8 : (a : FinMode) → decode_fin_mode (fin_mode_to_u8 a) ≡ some a
unfolding fin_mode_to_u8 decode_fin_mode
fin_mode_decode-to_u8 FinMode.free = refl
fin_mode_decode-to_u8 FinMode.brake = refl
fin_mode_decode-to_u8 FinMode.position_hold = refl
fin_mode_decode-to_u8 FinMode.zero_hold = refl
fin_mode_decode-to_u8 FinMode.relative_move = refl
fin_mode_decode-to_u8 FinMode.roll_control = refl
fin_mode_decode-to_u8 FinMode.unknown = refl

pub fin_mode_to_u8_of_decode :
    (raw : ℕ) (a : FinMode) → decode_fin_mode raw ≡ some a → fin_mode_to_u8 a ≡ raw
unfolding fin_mode_to_u8 decode_fin_mode
fin_mode_to_u8_of_decode raw a h = ground arith

instance abbrev pub fin_mode_wire : WireEnum FinMode
fin_mode_wire = record {
  to_u8 = fin_mode_to_u8;
  decode = decode_fin_mode;
  decode-to_u8 = fin_mode_decode-to_u8;
  to_u8_of_decode = fin_mode_to_u8_of_decode;
}

pub data ParaMode : Type 0 where
  free hold relative_move opening_or_retrying closing powered_off unknown : ParaMode

unfoldable pub para_mode_to_u8 : ParaMode → ℕ
para_mode_to_u8 ParaMode.free = 0
para_mode_to_u8 ParaMode.hold = 1
para_mode_to_u8 ParaMode.relative_move = 2
para_mode_to_u8 ParaMode.opening_or_retrying = 3
para_mode_to_u8 ParaMode.closing = 4
para_mode_to_u8 ParaMode.powered_off = 5
para_mode_to_u8 ParaMode.unknown = 15

pub decode_para_mode : ℕ → Option ParaMode
decode_para_mode raw =
    if raw == 0
    then some ParaMode.free
    else if raw == 1
    then some ParaMode.hold
    else if raw == 2
    then some ParaMode.relative_move
    else if raw == 3
    then some ParaMode.opening_or_retrying
    else if raw == 4
    then some ParaMode.closing
    else if raw == 5
    then some ParaMode.powered_off
    else if raw == 15
    then some ParaMode.unknown
    else none

pub para_mode_decode-to_u8 : (a : ParaMode) → decode_para_mode (para_mode_to_u8 a) ≡ some a
unfolding para_mode_to_u8 decode_para_mode
para_mode_decode-to_u8 ParaMode.free = refl
para_mode_decode-to_u8 ParaMode.hold = refl
para_mode_decode-to_u8 ParaMode.relative_move = refl
para_mode_decode-to_u8 ParaMode.opening_or_retrying = refl
para_mode_decode-to_u8 ParaMode.closing = refl
para_mode_decode-to_u8 ParaMode.powered_off = refl
para_mode_decode-to_u8 ParaMode.unknown = refl

pub para_mode_to_u8_of_decode :
    (raw : ℕ) (a : ParaMode) → decode_para_mode raw ≡ some a → para_mode_to_u8 a ≡ raw
unfolding para_mode_to_u8 decode_para_mode
para_mode_to_u8_of_decode raw a h = ground arith

instance abbrev pub para_mode_wire : WireEnum ParaMode
para_mode_wire = record {
  to_u8 = para_mode_to_u8;
  decode = decode_para_mode;
  decode-to_u8 = para_mode_decode-to_u8;
  to_u8_of_decode = para_mode_to_u8_of_decode;
}

pub data TimeSource : Type 0 where
  invalid gnss ground_station : TimeSource

pub time_source_to_u8 : TimeSource → ℕ
time_source_to_u8 TimeSource.invalid = 0
time_source_to_u8 TimeSource.gnss = 1
time_source_to_u8 TimeSource.ground_station = 2

unfoldable pub decode_time_source : ℕ → Option TimeSource
decode_time_source raw =
    if raw == 0
    then some TimeSource.invalid
    else if raw == 1
    then some TimeSource.gnss
    else if raw == 2
    then some TimeSource.ground_station
    else none

pub time_source_decode-to_u8 : (a : TimeSource) → decode_time_source (time_source_to_u8 a) ≡ some a
unfolding time_source_to_u8 decode_time_source
time_source_decode-to_u8 TimeSource.invalid = refl
time_source_decode-to_u8 TimeSource.gnss = refl
time_source_decode-to_u8 TimeSource.ground_station = refl

pub time_source_to_u8_of_decode :
    (raw : ℕ) (a : TimeSource) → decode_time_source raw ≡ some a → time_source_to_u8 a ≡ raw
unfolding time_source_to_u8 decode_time_source
time_source_to_u8_of_decode raw a h = ground arith

instance abbrev pub time_source_wire : WireEnum TimeSource
time_source_wire = record {
  to_u8 = time_source_to_u8;
  decode = decode_time_source;
  decode-to_u8 = time_source_decode-to_u8;
  to_u8_of_decode = time_source_to_u8_of_decode;
}
