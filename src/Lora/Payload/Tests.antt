-- ===== src/Lora/Payload/Tests.antt =====
-- payload.rs: the golden downlink frames (testdata/99l_protocol_golden_vectors.txt).
use l_comboard.Base.{ℕ, ◌≡◌, ◌↔◌, refl, List, [], ◌∷◌, arith}
use l_comboard.Base.Result.{Result, ok, err}
use l_comboard.Lora.Payload.Packets.{
  PacketHeader, header_to_u8, ApplicationPacket, flight, ground_time_request, LoraFrame,
}
use l_comboard.Lora.Payload.Writer.{
  EncodeError, new, set_bit, write_bits, write, write_all, byte_length,
}
use l_comboard.Lora.Payload.Encode.{admit, fields, finish, encode, as_bytes}
use l_comboard.Lora.Payload.Encode.Frame.{Typed, IsPacket, encode_iff}

abbrev sent : ApplicationPacket → Result EncodeError (List ℕ)
sent p = elim (encode p) [ ok f ↦ ok (as_bytes f) | err e ↦ err e ]

-- LORA_FLIGHT
abbrev control : ApplicationPacket
control = flight (record {
  header = PacketHeader.control;
  status = 0xa55a;
  roll = 0xfffe;
  roll_rate = 1234;
  tilt_magnitude = 20;
  tilt_direction = 280;
  fin_angle = 120;
  fin_rate = 0xffce;
  pressure = 0x42a;
  temperature = 0x46;
  airspeed = 0x3d;
  requested_torque = 0xf85;
  elapsed = 0x7b;
  east = 0xfff4;
  north = 0x22;
  height = 0x28;
})

control_sent :
    sent control
    ≡ ok (
        0x00 ∷ 0x00 ∷ 0x04 ∷ 0xa3 ∷ 0x5a ∷ 0xa5 ∷ 0xfe ∷ 0xff ∷ 0xd2 ∷ 0x04 ∷ 0x14 ∷ 0x8c ∷ 0x78
        ∷ 0xce ∷ 0xff ∷ 0x2a ∷ 0x34 ∷ 0xea ∷ 0x29 ∷ 0xfc ∷ 0x3d ∷ 0xfa ∷ 0x7f ∷ 0x11 ∷ 0x00 ∷ 0x14
        ∷ 0xc6 ∷ [])
unfolding encode as_bytes admit fields finish new set_bit write_bits write write_all byte_length
    header_to_u8
control_sent = refl

-- LORA_TIME_REQUEST
request_sent : sent (ground_time_request 7) ≡ ok (0x00 ∷ 0x00 ∷ 0x04 ∷ 0xb1 ∷ 0x07 ∷ 0xb6 ∷ [])
unfolding encode as_bytes admit fields finish new set_bit write_bits write write_all byte_length
    header_to_u8
request_sent = refl

control-Typed : Typed control
unfolding fields header_to_u8
control-Typed = ground arith

encode_iff_example : ((f : LoraFrame) × (encode control ≡ ok f)) ↔ IsPacket control
encode_iff_example = encode_iff control control-Typed
