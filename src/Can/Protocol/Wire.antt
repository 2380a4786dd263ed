-- ===== src/Can/Protocol/Wire.antt =====
-- What the frames of can/protocol.rs look like on the bus, written down independently of the codec:
-- the identifier and the bytes of each message, and the field values that a frame can carry.
use Prim.Native.Nat.{bit_and}
use l_comboard.Base.{ℕ, ◌+◌, ◌*◌, ◌/◌, ◌%◌, ◌<◌, ◌≡◌, ◌≢◌, List, [], ◌∷◌, true, AreBytes, length}
use l_comboard.Can.Protocol.WireEnum.{to_u8}
use l_comboard.Can.Protocol.MissionEnums.{
  MissionState, mission_state_wire, fin_mode_wire, para_mode_wire,
}
use l_comboard.Can.Protocol.CommandEnums.{command_phase_wire, command_reason_wire}
use l_comboard.Can.Protocol.RecoveryEnums.{
  recovery_opcode_wire, recovery_source_wire, recovery_status_code_wire,
}
use l_comboard.Can.Protocol.Messages.{
  CanRxMessage, command_result, time_request, mission_event, kinematics, control, mission_status,
  power_time, descent_core, recovery_status, recovery_log_data, attitude_tilt, lps, airspeed,
  control_roll_v2,
}
use l_comboard.Can.Protocol.Decode.{flag_agrees}

-- The two and the four bytes of a number, lowest first.
abbrev lo : ℕ → ℕ
lo x = x % 256

abbrev hi : ℕ → ℕ
hi x = x / 256

abbrev le32 : ℕ → List ℕ
le32 x = x % 256 ∷ x / 256 % 256 ∷ x / 65536 % 256 ∷ x / 16777216 ∷ []

abbrev pub wire_id : CanRxMessage → ℕ
wire_id (command_result m) = 0x011
wire_id (time_request id) = 0x012
wire_id (mission_event m) = 0x020
wire_id (kinematics m) = 0x100
wire_id (control m) = 0x101
wire_id (mission_status m) = 0x102
wire_id (power_time m) = 0x103
wire_id (descent_core m) = 0x104
wire_id (recovery_status m) = 0x105
wire_id (recovery_log_data m) = 0x106
wire_id (attitude_tilt m) = 0x107
wire_id (lps m) = 0x108
wire_id (airspeed m) = 0x109
wire_id (control_roll_v2 m) = 0x10a

abbrev pub wire : CanRxMessage → List ℕ
wire (command_result m) =
    m.transaction_id ∷ m.command ∷ to_u8 m.phase ∷ to_u8 m.reason ∷ le32 m.detail
wire (time_request id) = id ∷ []
wire (mission_event m) =
    m.sequence
    ∷ lo m.flags
    ∷ hi m.flags
    ∷ to_u8 m.state
    ∷ lo m.elapsed
    ∷ hi m.elapsed
    ∷ lo m.detail
    ∷ hi m.detail
    ∷ []
wire (kinematics m) =
    m.sequence
    ∷ lo m.roll
    ∷ hi m.roll
    ∷ lo m.roll_rate
    ∷ hi m.roll_rate
    ∷ m.fin_angle
    ∷ lo m.fin_rate
    ∷ hi m.fin_rate
    ∷ []
wire (control m) = m.sequence ∷ lo m.requested_torque ∷ hi m.requested_torque ∷ m.elapsed ∷ []
wire (mission_status m) =
    m.sequence
    ∷ to_u8 m.state
    ∷ lo m.status
    ∷ hi m.status
    ∷ m.config
    ∷ to_u8 m.fin_mode
    ∷ to_u8 m.para_mode
    ∷ m.para_angle
    ∷ []
wire (power_time m) =
    m.sequence
    ∷ m.logic_voltage
    ∷ m.motor_voltage
    ∷ lo m.descent_elapsed
    ∷ hi m.descent_elapsed
    ∷ lo m.recovery_elapsed
    ∷ hi m.recovery_elapsed
    ∷ m.flags
    ∷ []
wire (descent_core m) = m.sequence ∷ lo m.status ∷ hi m.status ∷ m.para_angle ∷ []
wire (recovery_status m) =
    to_u8 m.opcode ∷ m.transfer_id ∷ to_u8 m.status ∷ to_u8 m.source ∷ le32 m.total_size
wire (recovery_log_data m) = m.transfer_id ∷ m.sequence ∷ m.fragment
wire (attitude_tilt m) = m.sequence ∷ (m.magnitude + m.direction % 2 * 128) ∷ m.direction / 2 ∷ []
wire (lps m) = m.sequence ∷ lo m.pressure ∷ hi m.pressure ∷ m.temperature ∷ []
wire (airspeed m) = m.sequence ∷ m.airspeed ∷ []
wire (control_roll_v2 m) =
    m.sequence
    ∷ 2
    ∷ lo m.control_roll_reference_unwrapped_raw
    ∷ hi m.control_roll_reference_unwrapped_raw
    ∷ lo m.roll_deviation_unwrapped_raw
    ∷ hi m.roll_deviation_unwrapped_raw
    ∷ m.flags
    ∷ m.reference_capture_event_sequence
    ∷ []

-- The bits of a mask are clear.
abbrev Clear : ℕ → ℕ → Type 0
Clear value mask = bit_and value mask ≡ 0

-- What else the fields of a message obey, beside fitting their bytes: reserved bits are clear, a
-- transaction has an identifier, a mission knows its state, the fields of a tilt fit 7 and 9 bits,
-- a log fragment has six bytes, and the range flags of a roll agree with its raw values.
abbrev pub FieldsFit : CanRxMessage → Type 0
FieldsFit (command_result m) = (m.transaction_id ≢ 0) × (m.detail < 4294967296)
FieldsFit (time_request id) = id ≢ 0
FieldsFit (mission_event m) = Unit
FieldsFit (kinematics m) = Unit
FieldsFit (control m) = Clear (hi m.requested_torque) 0xf0
FieldsFit (mission_status m) = m.state ≢ MissionState.unknown
FieldsFit (power_time m) = Clear m.flags 0x70
FieldsFit (descent_core m) = Clear (lo m.status) 0xe0 × Clear (hi m.status) 0xff
FieldsFit (recovery_status m) = m.total_size < 4294967296
FieldsFit (recovery_log_data m) = length m.fragment ≡ 6
FieldsFit (attitude_tilt m) = (m.magnitude < 128) × (m.direction < 512)
FieldsFit (lps m) = Clear (hi m.pressure) 0xf8
FieldsFit (airspeed m) = Unit
FieldsFit (control_roll_v2 m) =
    Clear m.flags 0xe0
    × (flag_agrees m.control_roll_reference_unwrapped_raw m.flags 0x08 ≡ true)
    × (flag_agrees m.roll_deviation_unwrapped_raw m.flags 0x10 ≡ true)

-- A message that a frame of the bus can carry.
pub record IsWire (m : CanRxMessage) : Type 0 where
  pub bytes : AreBytes (wire m)
  pub fields : FieldsFit m
