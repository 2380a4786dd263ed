-- ===== src/Lora/Payload/Encode/Layout.antt =====
-- payload.rs: where each number of a packet stands in its bytes, and in how many bits. This is the
-- table of the downlink's packets, by the place of a number's first bit; the encoder has no places.
use l_comboard.Base.{ℕ, ◌+◌, ◌≡◌, refl, ap, List, [], ◌∷◌, map, if◌then◌else◌, arith, All}
use l_comboard.Can.Protocol.WireEnum.{to_u8}
use l_comboard.Can.Protocol.CommandEnums.{command_phase_wire, command_reason_wire}
use l_comboard.Lora.Payload.Packets.{
  PacketHeader, header_to_u8, ApplicationPacket, command_receive, flight, descent, recovery_beacon,
  mission_link_fallback, recovery_log_data, command_result, ground_time_request,
  control_roll_telemetry_v2, RecoveryLogPacket,
}
use l_comboard.Lora.Payload.Writer.Read.{read_bits, widths, values, read_fields}
use l_comboard.Lora.Payload.Encode.{fields, meta}

-- The first byte of a packet of the flight.
abbrev flight_code : PacketHeader → ℕ
flight_code PacketHeader.command_receive = 0xa0
flight_code PacketHeader.liftoff_detection = 0xa1
flight_code PacketHeader.engine_burn = 0xa2
flight_code PacketHeader.control = 0xa3
flight_code PacketHeader.descent = 0xa4
flight_code PacketHeader.recovery_beacon = 0xa5
flight_code PacketHeader.recovery_log_data = 0xa6
flight_code PacketHeader.control_roll_telemetry_v2 = 0xa7
flight_code PacketHeader.mission_link_fallback_telemetry = 0xa8
flight_code PacketHeader.command_result = 0xb0
flight_code PacketHeader.ground_time_request = 0xb1

abbrev byte_places : ℕ → List ℕ → List (ℕ × ℕ × ℕ)
byte_places place [] = []
byte_places place (byte ∷ bytes) = (place, 8, byte) ∷ byte_places (place + 8) bytes

-- The place, the width and the number, for each number of a packet.
abbrev pub layout : ApplicationPacket → List (ℕ × ℕ × ℕ)
layout (command_receive v) =
    (0, 8, 0xa0)
    ∷ (8, 24, v.status)
    ∷ (32, 8, v.motor_profile)
    ∷ (40, 7, v.tilt_magnitude)
    ∷ (47, 9, v.tilt_direction)
    ∷ (56, 4, v.fin_mode)
    ∷ (60, 4, v.para_mode)
    ∷ (64, 8, v.fin_angle)
    ∷ (72, 8, v.para_angle)
    ∷ (80, 11, v.pressure)
    ∷ (91, 8, v.temperature)
    ∷ (99, 8, v.airspeed)
    ∷ (107, 8, v.logic_voltage)
    ∷ (115, 8, v.motor_voltage)
    ∷ (123, 16, v.east)
    ∷ (139, 16, v.north)
    ∷ (155, 9, v.height)
    ∷ (164, 16, v.display_roll)
    ∷ (180, 4, 0)
    ∷ []
layout (flight v) =
    (0, 8, flight_code v.header)
    ∷ (8, 16, v.status)
    ∷ (24, 16, v.roll)
    ∷ (40, 16, v.roll_rate)
    ∷ (56, 7, v.tilt_magnitude)
    ∷ (63, 9, v.tilt_direction)
    ∷ (72, 8, v.fin_angle)
    ∷ (80, 16, v.fin_rate)
    ∷ (96, 11, v.pressure)
    ∷ (107, 8, v.temperature)
    ∷ (115, 8, v.airspeed)
    ∷ (123, 12, v.requested_torque)
    ∷ (135, 8, v.elapsed)
    ∷ (143, 16, v.east)
    ∷ (159, 16, v.north)
    ∷ (175, 9, v.height)
    ∷ []
layout (descent v) =
    (0, 8, 0xa4)
    ∷ (8, 13, v.status)
    ∷ (21, 11, v.pressure)
    ∷ (32, 8, v.temperature)
    ∷ (40, 8, v.para_angle)
    ∷ (48, 16, v.elapsed)
    ∷ (64, 16, v.east)
    ∷ (80, 16, v.north)
    ∷ (96, 9, v.height)
    ∷ (105, 7, 0)
    ∷ []
layout (recovery_beacon v) =
    (0, 8, 0xa5)
    ∷ (8, 8, v.logic_voltage)
    ∷ (16, 8, v.motor_voltage)
    ∷ (24, 16, v.east)
    ∷ (40, 16, v.north)
    ∷ (56, 9, v.height)
    ∷ (65, 16, v.elapsed)
    ∷ (81, 7, 0)
    ∷ []
layout (mission_link_fallback v) =
    (0, 8, 0xa8)
    ∷ (8, 8, 1)
    ∷ (16, 8, v.sequence)
    ∷ (24, 8, v.primary_loss_reason)
    ∷ (32, 16, v.status_flags)
    ∷ (48, 8, v.last_valid_mission_state)
    ∷ (56, 8, v.gnss_state)
    ∷ (64, 16, v.mission_status_age)
    ∷ (80, 16, v.any_mission_periodic_age)
    ∷ (96, 16, v.power_time_age)
    ∷ (112, 16, v.east)
    ∷ (128, 16, v.north)
    ∷ (144, 16, v.height)
    ∷ (160, 8, v.logic_voltage)
    ∷ (168, 8, v.motor_voltage)
    ∷ (176, 8, v.can_health)
    ∷ []
layout (recovery_log_data v) =
    (0, 8, 0xa6)
    ∷ (8, 8, v.transfer_id)
    ∷ (16, 8, (if v.source then 1 else 0) + (if v.end_of_file then 2 else 0))
    ∷ (24, 24, v.offset)
    ∷ (48, 8, v.data_length)
    ∷ byte_places 56 v.log_data
layout (command_result v) =
    (0, 8, 0xb0)
    ∷ (8, 8, v.transaction_id)
    ∷ (16, 8, v.command)
    ∷ (24, 8, to_u8 v.phase)
    ∷ (32, 8, to_u8 v.reason)
    ∷ (40, 32, v.detail)
    ∷ []
layout (ground_time_request request_id) = (0, 8, 0xb1) ∷ (8, 8, request_id) ∷ []
layout (control_roll_telemetry_v2 v) =
    (0, 8, 0xa7)
    ∷ (8, 8, 2)
    ∷ (16, 16, v.control_roll_reference_unwrapped_raw)
    ∷ (32, 16, v.roll_deviation_unwrapped_raw)
    ∷ (48, 8, v.flags)
    ∷ (56, 8, v.reference_capture_event_sequence)
    ∷ []

-- Each number stands in its place.
abbrev pub Holds : List ℕ → List (ℕ × ℕ × ℕ) → Type 0
Holds bytes places = All (λ (place, width, value). read_bits bytes place width ≡ value) places

placed : ℕ → List (ℕ × ℕ) → List (ℕ × ℕ × ℕ)
placed place [] = []
placed place ((value, width) ∷ fs) = (place, width, value) ∷ placed (place + width) fs

read_fields-Holds :
    (bytes : List ℕ) (place : ℕ) (fs : List (ℕ × ℕ))
    → read_fields bytes place (widths fs) ≡ values fs
    → Holds bytes (placed place fs)
unfolding placed
read_fields-Holds bytes place [] e = tt
read_fields-Holds bytes place ((value, width) ∷ fs) e =
    (cc, read_fields-Holds bytes (place + width) fs cc)

bytes_placed :
    (place : ℕ) (xs : List ℕ) → byte_places place xs ≡ placed place (map (λ byte. (byte, 8)) xs)
unfolding placed
bytes_placed place [] = refl
bytes_placed place (x ∷ xs) = ap (λ es. (place, 8, x) ∷ es) (bytes_placed (place + 8) xs)

flight_code_lem : (h : PacketHeader) → flight_code h ≡ header_to_u8 h
unfolding header_to_u8
flight_code_lem h = ground arith

meta_lem :
    (v : RecoveryLogPacket)
    → (if v.source then 1 else 0) + (if v.end_of_file then 2 else 0) ≡ meta v
meta_lem v = ground arith

layout-placed : (p : ApplicationPacket) → layout p ≡ placed 0 (fields p)
unfolding fields header_to_u8 placed
layout-placed (flight v) = rw (flight_code_lem v.header) refl
layout-placed (recovery_log_data v) = rw (meta_lem v, bytes_placed 56 v.log_data) refl
layout-placed (command_receive v) = refl
layout-placed (descent v) = refl
layout-placed (recovery_beacon v) = refl
layout-placed (mission_link_fallback v) = refl
layout-placed (command_result v) = refl
layout-placed (ground_time_request v) = refl
layout-placed (control_roll_telemetry_v2 v) = refl

pub fields-Holds :
    (p : ApplicationPacket) (bytes : List ℕ)
    → read_fields bytes 0 (widths (fields p)) ≡ values (fields p)
    → Holds bytes (layout p)
fields-Holds p bytes e = rw (layout-placed p) (read_fields-Holds bytes 0 (fields p) e)
