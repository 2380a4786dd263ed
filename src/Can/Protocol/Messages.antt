-- ===== src/Can/Protocol/Messages.antt =====
-- can/protocol.rs: the messages of the bus, their identifiers and the errors of the codec. The
-- integers are native numbers; what the codec admits in a field is said in `Wire`.
use l_comboard.Base.{ℕ, List}
use l_comboard.Can.Protocol.MissionEnums.{MissionState, FinMode, ParaMode, TimeSource}
use l_comboard.Can.Protocol.CommandEnums.{CommandPhase, CommandReason}
use l_comboard.Can.Protocol.RecoveryEnums.{RecoveryOpcode, RecoverySource, RecoveryStatusCode}

-- `args` has 6 bytes.
pub record GenericCommandRequest : Type 0 where
  pub transaction_id : ℕ
  pub command : ℕ
  pub args : List ℕ

pub record RecoveryControl : Type 0 where
  pub opcode : RecoveryOpcode
  pub source : RecoverySource
  pub transfer_id : ℕ
  pub offset : ℕ
  pub length : ℕ

pub record TimeResponse : Type 0 where
  pub request_id : ℕ
  pub source : TimeSource
  pub unix_seconds : ℕ
  pub milliseconds : ℕ

pub data CanTxMessage : Type 0 where
  actuator_emergency_stop : ℕ → CanTxMessage
  liftoff_emergency_stop : ℕ → CanTxMessage
  recovery_control : RecoveryControl → CanTxMessage
  generic_command_request : GenericCommandRequest → CanTxMessage
  time_response : TimeResponse → CanTxMessage

pub record CommandResult : Type 0 where
  pub transaction_id : ℕ
  pub command : ℕ
  pub phase : CommandPhase
  pub reason : CommandReason
  pub detail : ℕ

pub record MissionEvent : Type 0 where
  pub sequence : ℕ
  pub flags : ℕ
  pub state : MissionState
  pub elapsed : ℕ
  pub detail : ℕ

pub record KinematicsTelemetry : Type 0 where
  pub sequence : ℕ
  pub roll : ℕ
  pub roll_rate : ℕ
  pub fin_angle : ℕ
  pub fin_rate : ℕ

pub record ControlTelemetry : Type 0 where
  pub sequence : ℕ
  pub requested_torque : ℕ
  pub elapsed : ℕ

pub record MissionStatusTelemetry : Type 0 where
  pub sequence : ℕ
  pub state : MissionState
  pub status : ℕ
  pub config : ℕ
  pub fin_mode : FinMode
  pub para_mode : ParaMode
  pub para_angle : ℕ

pub record PowerTimeTelemetry : Type 0 where
  pub sequence : ℕ
  pub logic_voltage : ℕ
  pub motor_voltage : ℕ
  pub descent_elapsed : ℕ
  pub recovery_elapsed : ℕ
  pub flags : ℕ

pub record DescentCoreTelemetry : Type 0 where
  pub sequence : ℕ
  pub status : ℕ
  pub para_angle : ℕ

pub record RecoveryStatus : Type 0 where
  pub opcode : RecoveryOpcode
  pub transfer_id : ℕ
  pub status : RecoveryStatusCode
  pub source : RecoverySource
  pub total_size : ℕ

-- `fragment` is the field `data`, of 6 bytes.
pub record RecoveryLogData : Type 0 where
  pub transfer_id : ℕ
  pub sequence : ℕ
  pub fragment : List ℕ

pub record AttitudeTiltTelemetry : Type 0 where
  pub sequence : ℕ
  pub magnitude : ℕ
  pub direction : ℕ

pub record LpsTelemetry : Type 0 where
  pub sequence : ℕ
  pub pressure : ℕ
  pub temperature : ℕ

pub record AirspeedTelemetry : Type 0 where
  pub sequence : ℕ
  pub airspeed : ℕ

pub record ControlRollTelemetryV2 : Type 0 where
  pub sequence : ℕ
  pub control_roll_reference_unwrapped_raw : ℕ
  pub roll_deviation_unwrapped_raw : ℕ
  pub flags : ℕ
  pub reference_capture_event_sequence : ℕ

pub data CanRxMessage : Type 0 where
  command_result : CommandResult → CanRxMessage
  time_request : ℕ → CanRxMessage
  mission_event : MissionEvent → CanRxMessage
  kinematics : KinematicsTelemetry → CanRxMessage
  control : ControlTelemetry → CanRxMessage
  mission_status : MissionStatusTelemetry → CanRxMessage
  power_time : PowerTimeTelemetry → CanRxMessage
  descent_core : DescentCoreTelemetry → CanRxMessage
  recovery_status : RecoveryStatus → CanRxMessage
  recovery_log_data : RecoveryLogData → CanRxMessage
  attitude_tilt : AttitudeTiltTelemetry → CanRxMessage
  lps : LpsTelemetry → CanRxMessage
  airspeed : AirspeedTelemetry → CanRxMessage
  control_roll_v2 : ControlRollTelemetryV2 → CanRxMessage

pub data CanDecodeError : Type 0 where
  unknown_id : ℕ → CanDecodeError
  invalid_dlc : (id expected actual : ℕ) → CanDecodeError
  invalid_field : (id index value : ℕ) → CanDecodeError

pub data CanEncodeError : Type 0 where
  reserved_transaction_id out_of_range : CanEncodeError
