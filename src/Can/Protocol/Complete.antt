-- ===== src/Can/Protocol/Complete.antt =====
-- can/protocol.rs: the frames that decode against those of `Wire`, arm by arm of `decode_standard`.
use l_comboard.Base.{ℕ, ◌+◌, ◌*◌, ◌≡◌, List, [], ◌∷◌, AreBytes, arith, if_eq}
use l_comboard.Base.Bits.{bit_and_0x7f}
use l_comboard.Base.Result.{Result, ok}
use l_comboard.Can.Protocol.WireEnum.{decode_cases}
use l_comboard.Can.Protocol.Messages.{CanRxMessage, CanDecodeError}
use l_comboard.Can.Protocol.MissionEnums.{mission_state_wire, fin_mode_wire, para_mode_wire}
use l_comboard.Can.Protocol.CommandEnums.{command_phase_wire, command_reason_wire}
use l_comboard.Can.Protocol.RecoveryEnums.{
  recovery_opcode_wire, recovery_source_wire, recovery_status_code_wire,
}
use l_comboard.Can.Protocol.Decode.{
  decode_standard, require_dlc, require_reserved_zero, require_received_transaction_id,
  decode_field, decode_command_result, decode_time_request, decode_mission_event, decode_kinematics,
  decode_control, decode_mission_status, decode_power_time, decode_descent_core,
  decode_recovery_status, decode_recovery_log_data, decode_attitude_tilt, decode_lps,
  decode_airspeed, decode_control_roll_v2,
}
use l_comboard.Can.Protocol.Wire.{wire, wire_id, IsWire}

-- The frame with this identifier and these bytes is that of the message.
abbrev pub Carries : CanRxMessage → ℕ → List ℕ → Type 0
Carries m id xs = (wire_id m ≡ id) × (wire m ≡ xs) × IsWire m

command_result-Carries :
    (xs : List ℕ) (m : CanRxMessage)
    → AreBytes xs
    → decode_command_result 0x011 xs ≡ ok m
    → Carries m 0x011 xs
unfolding decode_command_result require_dlc require_received_transaction_id decode_field
command_result-Carries (a ∷ b ∷ c ∷ d ∷ e ∷ f ∷ g ∷ h ∷ []) m w p =
    ground
      (arith, decode_cases ⦃w = command_phase_wire⦄ c, decode_cases ⦃w = command_reason_wire⦄ d)
command_result-Carries _ m w p = ground arith

time_request-Carries :
    (xs : List ℕ) (m : CanRxMessage)
    → AreBytes xs
    → decode_time_request 0x012 xs ≡ ok m
    → Carries m 0x012 xs
unfolding decode_time_request require_dlc require_received_transaction_id
time_request-Carries (a ∷ []) m w p = ground arith
time_request-Carries _ m w p = ground arith

mission_event-Carries :
    (xs : List ℕ) (m : CanRxMessage)
    → AreBytes xs
    → decode_mission_event 0x020 xs ≡ ok m
    → Carries m 0x020 xs
unfolding decode_mission_event require_dlc decode_field
mission_event-Carries (a ∷ b ∷ c ∷ d ∷ e ∷ f ∷ g ∷ h ∷ []) m w p =
    ground (arith, decode_cases ⦃w = mission_state_wire⦄ d)
mission_event-Carries _ m w p = ground arith

kinematics-Carries :
    (xs : List ℕ) (m : CanRxMessage)
    → AreBytes xs
    → decode_kinematics 0x100 xs ≡ ok m
    → Carries m 0x100 xs
unfolding decode_kinematics require_dlc
kinematics-Carries (a ∷ b ∷ c ∷ d ∷ e ∷ f ∷ g ∷ h ∷ []) m w p = ground arith
kinematics-Carries _ m w p = ground arith

control-Carries :
    (xs : List ℕ) (m : CanRxMessage)
    → AreBytes xs
    → decode_control 0x101 xs ≡ ok m
    → Carries m 0x101 xs
unfolding decode_control require_dlc require_reserved_zero
control-Carries (a ∷ b ∷ c ∷ d ∷ []) m w p = ground arith
control-Carries _ m w p = ground arith

mission_status-Carries :
    (xs : List ℕ) (m : CanRxMessage)
    → AreBytes xs
    → decode_mission_status 0x102 xs ≡ ok m
    → Carries m 0x102 xs
unfolding decode_mission_status require_dlc decode_field
mission_status-Carries (a ∷ b ∷ c ∷ d ∷ e ∷ f ∷ g ∷ h ∷ []) m w p = ground (
  arith,
  decode_cases ⦃w = mission_state_wire⦄ b,
  decode_cases ⦃w = fin_mode_wire⦄ f,
  decode_cases ⦃w = para_mode_wire⦄ g,
)
mission_status-Carries _ m w p = ground arith

power_time-Carries :
    (xs : List ℕ) (m : CanRxMessage)
    → AreBytes xs
    → decode_power_time 0x103 xs ≡ ok m
    → Carries m 0x103 xs
unfolding decode_power_time require_dlc require_reserved_zero
power_time-Carries (a ∷ b ∷ c ∷ d ∷ e ∷ f ∷ g ∷ h ∷ []) m w p = ground arith
power_time-Carries _ m w p = ground arith

descent_core-Carries :
    (xs : List ℕ) (m : CanRxMessage)
    → AreBytes xs
    → decode_descent_core 0x104 xs ≡ ok m
    → Carries m 0x104 xs
unfolding decode_descent_core require_dlc require_reserved_zero
descent_core-Carries (a ∷ b ∷ c ∷ d ∷ []) m w p = ground arith
descent_core-Carries _ m w p = ground arith

recovery_status-Carries :
    (xs : List ℕ) (m : CanRxMessage)
    → AreBytes xs
    → decode_recovery_status 0x105 xs ≡ ok m
    → Carries m 0x105 xs
unfolding decode_recovery_status require_dlc decode_field
recovery_status-Carries (a ∷ b ∷ c ∷ d ∷ e ∷ f ∷ g ∷ h ∷ []) m w p = ground (
  arith,
  decode_cases ⦃w = recovery_opcode_wire⦄ a,
  decode_cases ⦃w = recovery_status_code_wire⦄ c,
  decode_cases ⦃w = recovery_source_wire⦄ d,
)
recovery_status-Carries _ m w p = ground arith

recovery_log_data-Carries :
    (xs : List ℕ) (m : CanRxMessage)
    → AreBytes xs
    → decode_recovery_log_data 0x106 xs ≡ ok m
    → Carries m 0x106 xs
unfolding decode_recovery_log_data require_dlc
recovery_log_data-Carries (a ∷ b ∷ c ∷ d ∷ e ∷ f ∷ g ∷ h ∷ []) m w p = ground arith
recovery_log_data-Carries _ m w p = ground arith

attitude_tilt-Carries :
    (xs : List ℕ) (m : CanRxMessage)
    → AreBytes xs
    → decode_attitude_tilt 0x107 xs ≡ ok m
    → Carries m 0x107 xs
unfolding decode_attitude_tilt require_dlc
attitude_tilt-Carries (a ∷ b ∷ c ∷ []) m w p = ground (arith, bit_and_0x7f (b + c * 256))
attitude_tilt-Carries _ m w p = ground arith

lps-Carries :
    (xs : List ℕ) (m : CanRxMessage) → AreBytes xs → decode_lps 0x108 xs ≡ ok m → Carries m 0x108 xs
unfolding decode_lps require_dlc require_reserved_zero
lps-Carries (a ∷ b ∷ c ∷ d ∷ []) m w p = ground arith
lps-Carries _ m w p = ground arith

airspeed-Carries :
    (xs : List ℕ) (m : CanRxMessage)
    → AreBytes xs
    → decode_airspeed 0x109 xs ≡ ok m
    → Carries m 0x109 xs
unfolding decode_airspeed require_dlc
airspeed-Carries (a ∷ b ∷ []) m w p = ground arith
airspeed-Carries _ m w p = ground arith

control_roll_v2-Carries :
    (xs : List ℕ) (m : CanRxMessage)
    → AreBytes xs
    → decode_control_roll_v2 0x10a xs ≡ ok m
    → Carries m 0x10a xs
unfolding decode_control_roll_v2 require_dlc require_reserved_zero
control_roll_v2-Carries (a ∷ b ∷ c ∷ d ∷ e ∷ f ∷ g ∷ h ∷ []) m w p = ground arith
control_roll_v2-Carries _ m w p = ground arith

-- A frame of bytes that decodes is the frame of the message that it decodes to: identifier and bytes
-- are given back whole, and the message is one that a frame can carry.
pub decode_standard-Carries :
    (id : ℕ) (xs : List ℕ) (m : CanRxMessage)
    → AreBytes xs
    → decode_standard id xs ≡ ok m
    → Carries m id xs
unfolding decode_standard
decode_standard-Carries id xs m w =
    if_eq P id 0x011 (λ e. rw e (command_result-Carries xs m w))
      (if_eq P id 0x012 (λ e. rw e (time_request-Carries xs m w))
        (if_eq P id 0x020 (λ e. rw e (mission_event-Carries xs m w))
          (if_eq P id 0x100 (λ e. rw e (kinematics-Carries xs m w))
            (if_eq P id 0x101 (λ e. rw e (control-Carries xs m w))
              (if_eq P id 0x102 (λ e. rw e (mission_status-Carries xs m w))
                (if_eq P id 0x103 (λ e. rw e (power_time-Carries xs m w))
                  (if_eq P id 0x104 (λ e. rw e (descent_core-Carries xs m w))
                    (if_eq P id 0x105 (λ e. rw e (recovery_status-Carries xs m w))
                      (if_eq P id 0x106 (λ e. rw e (recovery_log_data-Carries xs m w))
                        (if_eq P id 0x107 (λ e. rw e (attitude_tilt-Carries xs m w))
                          (if_eq P id 0x108 (λ e. rw e (lps-Carries xs m w))
                            (if_eq P id 0x109 (λ e. rw e (airspeed-Carries xs m w))
                              (if_eq P id 0x10a (λ e. rw e (control_roll_v2-Carries xs m w))
                                (λ p. cc))))))))))))))
  where
    P : Result CanDecodeError CanRxMessage → Type 0
    P r = r ≡ ok m → Carries m id xs
