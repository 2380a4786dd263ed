-- ===== src/Lora/Uplink/Wire.antt =====
-- What the uplink frames of lora_uplink.rs look like, written down independently of the decoder.
use l_comboard.Base.{
  ℕ, ◌/◌, ◌%◌, ◌^◌, ◌<◌, ◌≡◌, ◌≢◌, List, [], ◌∷◌, ◌++◌, false, AreBytes, length, replicate,
}
use l_comboard.Can.Protocol.WireEnum.{to_u8}
use l_comboard.Can.Protocol.MissionEnums.{time_source_wire}
use l_comboard.Lora.Checksum.{xor_checksum}
use l_comboard.Lora.Uplink.{
  UplinkCommand, generic, stop_actuator, stop_liftoff, local_command, ground_time,
  is_deprecated_parachute_command,
}

-- The frame without its checksum.
abbrev pub content : UplinkCommand → List ℕ
content (generic r) = 0x55 ∷ 0 ∷ r.transaction_id ∷ r.command ∷ r.args
content (stop_actuator id) = 0x55 ∷ 1 ∷ id ∷ replicate 7 0
content (stop_liftoff id) = 0x55 ∷ 2 ∷ id ∷ replicate 7 0
content (local_command c) = 0x55 ∷ 3 ∷ c.transaction_id ∷ c.command ∷ c.args
content (ground_time t) =
    0x55
    ∷ 4
    ∷ t.request_id
    ∷ to_u8 t.source
    ∷ t.unix_seconds % 256
    ∷ t.unix_seconds / 256 % 256
    ∷ t.unix_seconds / 65536 % 256
    ∷ t.unix_seconds / 16777216
    ∷ t.milliseconds % 256
    ∷ t.milliseconds / 256
    ∷ []

abbrev pub frame : UplinkCommand → List ℕ
frame c = content c ++ xor_checksum (content c) ∷ []

-- What else a command obeys, beside fitting its bytes.
abbrev pub FieldsFit : UplinkCommand → Type 0
FieldsFit (generic r) =
    (r.transaction_id ≢ 0)
    × (is_deprecated_parachute_command r.command ≡ false)
    × (length r.args ≡ 6)
FieldsFit (stop_actuator id) = id ≢ 0
FieldsFit (stop_liftoff id) = id ≢ 0
FieldsFit (local_command c) = (c.transaction_id ≢ 0) × (length c.args ≡ 6)
FieldsFit (ground_time t) = (t.request_id ≢ 0) × (t.milliseconds < 1000) × (t.unix_seconds < 2 ^ 32)

-- A command that a frame can carry.
pub record IsUplink (c : UplinkCommand) : Type 0 where
  pub bytes : AreBytes (content c)
  pub fields : FieldsFit c
