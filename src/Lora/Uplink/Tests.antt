-- ===== src/Lora/Uplink/Tests.antt =====
-- The golden uplink frames (testdata/99l_protocol_golden_vectors.txt).
use l_comboard.Base.{ℕ, ◌≡◌, ◌≢◌, refl, List, [], ◌∷◌, ◌++◌, arith}
use l_comboard.Base.Result.{ok}
use l_comboard.Can.Protocol.MissionEnums.{TimeSource, decode_time_source}
use l_comboard.Lora.Checksum.{xor_checksum, xor_checksum-one}
use l_comboard.Lora.Uplink.{
  UplinkCommand, UplinkFrameBuffer, generic, ground_time, decode_uplink, decode_kind,
  is_deprecated_parachute_command, decode_as, decode_ground_time, new, push,
}
use l_comboard.Lora.Uplink.Wire.{frame, IsUplink}
use l_comboard.Lora.Uplink.Codec.{decode_uplink_sound}
use l_comboard.Lora.Uplink.Buffer.{IsBuffer, held, held_push, push-held}
use l_comboard.Lora.Uplink.Delivery.{feed, feed-frame}

-- UPLINK_GENERIC
abbrev command : UplinkCommand
command =
    generic
      (record { transaction_id = 0x2a; command = 0x13; args = 0x85 ∷ 0xff ∷ 0 ∷ 0 ∷ 0 ∷ 0 ∷ [] })

command-IsUplink : IsUplink command
unfolding is_deprecated_parachute_command
command-IsUplink = record { bytes = ground arith; fields = ground arith }

command_frame : frame command ≡ 0x55 ∷ 0 ∷ 0x2a ∷ 0x13 ∷ 0x85 ∷ 0xff ∷ 0 ∷ 0 ∷ 0 ∷ 0 ∷ 0x16 ∷ []
command_frame = refl

-- UPLINK_TIME
abbrev time_bytes : List ℕ
time_bytes = 0x55 ∷ 0x04 ∷ 0x07 ∷ 0x02 ∷ 0x78 ∷ 0x56 ∷ 0x34 ∷ 0x12 ∷ 0xe7 ∷ 0x03 ∷ 0xb8 ∷ []

abbrev time : UplinkCommand
time = ground_time (record {
  request_id = 7;
  source = TimeSource.ground_station;
  unix_seconds = 0x12345678;
  milliseconds = 999;
})

time_decodes : decode_uplink time_bytes ≡ ok time
unfolding decode_uplink decode_kind decode_as decode_ground_time decode_time_source
time_decodes = refl

decode_uplink_sound_example : (frame time ≡ time_bytes) × IsUplink time
decode_uplink_sound_example = decode_uplink_sound time_bytes time (ground arith) refl time_decodes

new-IsBuffer : IsBuffer new
unfolding new
new-IsBuffer = record { size = refl; room = omega arith }

new-empty : new.length ≡ 0
unfolding new
new-empty = refl

feed-frame_example :
    IsBuffer (feed new (frame command)).0
    × (held (feed new (frame command)).0 ≡ [])
    × ((feed new (frame command)).1 ≡ ok command ∷ [])
feed-frame_example = feed-frame new command new-IsBuffer new-empty command-IsUplink

-- A buffer that is refused with the next byte: its second header starts again.
abbrev noisy : UplinkFrameBuffer
noisy = record { bytes = 0x55 ∷ 9 ∷ 9 ∷ 9 ∷ 0x55 ∷ 0 ∷ 1 ∷ 2 ∷ 3 ∷ 4 ∷ 0 ∷ []; length = 10 }

noisy-IsBuffer : IsBuffer noisy
noisy-IsBuffer = record { size = refl; room = omega arith }

push-held_example :
    IsBuffer (push noisy 5).0
    × ((held (push noisy 5).0, (push noisy 5).1) ≡ held_push (held noisy) 5)
push-held_example = push-held noisy 5 noisy-IsBuffer

abbrev three : ℕ
three = 3

different : three ≢ 7
different = omega arith

xor_checksum-one_example :
    xor_checksum ((0x55 ∷ []) ++ three ∷ 9 ∷ []) ≢ xor_checksum ((0x55 ∷ []) ++ 7 ∷ 9 ∷ [])
xor_checksum-one_example = xor_checksum-one (0x55 ∷ []) (9 ∷ []) three 7 different
