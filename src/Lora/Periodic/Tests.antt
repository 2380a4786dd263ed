-- ===== src/Lora/Periodic/Tests.antt =====
-- tasks/lora_task_base.rs: the first slots after a start, and after a flight's telemetry.
use l_comboard.Base.{ℕ, ◌≡◌, refl, List, [], ◌∷◌, arith, true, false, none}
use l_comboard.Base.Result.{ok}
use l_comboard.Can.Protocol.Messages.{KinematicsTelemetry, kinematics}
use l_comboard.Can.Protocol.Decode.{decode_standard, decode_kinematics, require_dlc}
use l_comboard.Can.Cache.{new, update}
use l_comboard.Can.Cache.Held.{new-IsCache, update-IsCache}
use l_comboard.Lora.Periodic.{GnssReceiverState, GnssTelemetry, Shared}
use l_comboard.Lora.Periodic.Packet.{periodic_packet}
use l_comboard.Lora.Periodic.Sent.{Sends, periodic_packet-Sends}

-- `GnssTelemetry::new`
abbrev gnss : GnssTelemetry
gnss = record {
  state = GnssReceiverState.off;
  east = 0x8000;
  north = 0x8000;
  height = 496;
  last_receiver_at_ms = none;
  last_fix_at_ms = none;
  started_at_ms = none;
}

abbrev shared : Shared
shared = record {
  sd_has_error = false;
  is_can_error = false;
  logging_requested = true;
  logging_active = true;
  has_unflushed_data = false;
  recovery_beacon_active = false;
  mission_status_invalid_at_ms = 0;
  can_fallback_health = 1;
  mission_link_fallback_sequence = 0;
}

abbrev frame : List ℕ
frame = 0x2a ∷ 0x34 ∷ 0x12 ∷ 0xfe ∷ 0xff ∷ 0x78 ∷ 0xce ∷ 0xff ∷ []

abbrev moved : KinematicsTelemetry
moved = record {
  sequence = 0x2a;
  roll = 0x1234;
  roll_rate = 0xfffe;
  fin_angle = 0x78;
  fin_rate = 0xffce;
}

frame_decodes : decode_standard 0x100 frame ≡ ok (kinematics moved)
unfolding decode_standard decode_kinematics require_dlc
frame_decodes = refl

periodic_packet-Sends_example :
    Sends (periodic_packet true false (update new (kinematics moved) 970).0 1000 gnss shared).0
periodic_packet-Sends_example =
    periodic_packet-Sends true (update new (kinematics moved) 970).0 1000 gnss shared
      (update-IsCache new 0x100 frame (kinematics moved) 970 new-IsCache (ground arith)
        frame_decodes)
      (record { east = omega arith; north = omega arith; height = omega arith })
      (record { health = omega arith; sequence = omega arith })
