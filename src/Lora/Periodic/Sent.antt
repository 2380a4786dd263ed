-- ===== src/Lora/Periodic/Sent.antt =====
-- tasks/lora_task_base.rs: every periodic packet is encoded.
use mathlib.Core.Option
use native.Mathlib.Nat.{pow-le-pow_right}
use l_comboard.Base.{
  ℕ, ◌≤◌, ◌<◌, ◌≡◌, ◌⊎◌, inl, inr, ◌^◌, refl, ap, arith, Option, none, some, List, [], ◌∷◌, Bool,
  true, false, All, ◌&&◌, if◌then◌else◌,
}
use l_comboard.Base.Result.{ok, err}
use l_comboard.Can.Protocol.Messages.{ControlRollTelemetryV2, control_roll_v2}
use l_comboard.Can.Protocol.MissionEnums.{MissionState}
use l_comboard.Can.Protocol.Wire.{IsWire}
use l_comboard.Can.Cache.{CanCache, event_snapshot}
use l_comboard.Can.Cache.Held.{Holds, IsCache}
use l_comboard.Lora.Payload.Packets.{PacketHeader, ApplicationPacket}
use l_comboard.Lora.Payload.Writer.Read.{FitsField}
use l_comboard.Lora.Payload.Encode.Frame.{Typed, Allowed, IsPacket, Framed, encode-Framed}
use l_comboard.Lora.Periodic.{
  GnssTelemetry, Shared, map_or, is_some, mission_link_fallback_packet,
  mission_link_fallback_packet_with_health,
}
use l_comboard.Lora.Periodic.Packet.{
  PeriodicPacket, finish_periodic_packet, finished, Fresh, fresh_values, command_receive_packet,
  flight_packet, descent_packet, beacon_packet, roll_packet, state_packet, slot_packet,
  periodic_packet, is_flight_state,
}
use l_comboard.Lora.Periodic.Fits.{IsGnss, IsFresh, fresh_values-IsFresh}
use l_comboard.Lora.Periodic.Packets.{
  beacon_fits, roll_packet_fits, descent_fits, flight_fits, command_fits, fallback_fits,
}

pub fields_typed : (fs : List (ℕ × ℕ)) → All FitsField fs → All (λ f. f.0 < 2 ^ 32) fs
fields_typed [] h = tt
fields_typed ((v, w) ∷ fs) ((a, b), hs) =
    let wide : 2 ^ w ≤ 2 ^ 32 = pow-le-pow_right (omega arith) a in
    (omega (arith, b, wide), fields_typed fs hs)

-- The health that the CAN task reports, and the sequence number of a byte.
pub record IsShared (s : Shared) : Type 0 where
  pub health : s.can_fallback_health ≤ 6
  pub sequence : s.mission_link_fallback_sequence < 256

-- A slot that sends: the packet that is read in its frame.
abbrev pub Sends : Option PeriodicPacket → Type 0
Sends o = (p : PeriodicPacket) × (packet : ApplicationPacket) × (o ≡ some p) × Framed packet p.frame

finished-Sends :
    (packet : ApplicationPacket) (events revision : ℕ) (roll available : Bool)
    → Typed packet
    → IsPacket packet
    → Sends (finished packet events revision roll available)
unfolding finished finish_periodic_packet
finished-Sends packet events revision roll available t v =
    let (f, e, framed) = encode-Framed packet t v in
    (
      record {
        frame = f;
        transmitted_events = events;
        event_revision = revision;
        is_control_roll_v2 = roll;
        control_roll_cycle_available = available;
      },
      packet,
      ap
          (λ r.
            Option.map
              (λ (f, e, r). record {
                frame = f;
                transmitted_events = e;
                event_revision = r;
                is_control_roll_v2 = roll;
                control_roll_cycle_available = available;
              })
              (elim r [ ok frame ↦ some (frame, events, revision) | err x ↦ none ]))
          e,
      framed,
    )

FlightHeader : PacketHeader → Type 0
FlightHeader h =
    (h ≡ PacketHeader.liftoff_detection)
    ⊎ ((h ≡ PacketHeader.engine_burn) ⊎ (h ≡ PacketHeader.control))

flight-Sends :
    (h : PacketHeader) (f : Fresh) (g : GnssTelemetry) (events revision : ℕ) (s : Shared) (sent : ℕ)
    (available : Bool)
    → FlightHeader h
    → IsFresh f
    → IsGnss g
    → Sends (finished (flight_packet h f g events s) sent revision false available)
unfolding flight_packet FlightHeader
flight-Sends h f g events revision s sent available header w v =
    let fit = flight_fits h f g events s w v in
    finished-Sends _ sent revision false available (fields_typed _ fit)
      (record { allowed = header; fit = fit })

state-Sends :
    (c : CanCache) (now : ℕ) (f : Fresh) (g : GnssTelemetry) (s : Shared) (m : MissionState)
    (available : Bool)
    → IsCache c
    → IsFresh f
    → IsGnss g
    → IsShared s
    → Sends (state_packet c now f g s m available).0
unfolding state_packet FlightHeader command_receive_packet descent_packet
    mission_link_fallback_packet mission_link_fallback_packet_with_health
state-Sends c now f g s MissionState.unknown available h w v i =
    let p = fallback_fits c now g s.can_fallback_health s h v i.health i.sequence in
    finished-Sends _ 0 _ false false (fields_typed _ p.fit) p
state-Sends c now f g s MissionState.command_receive available h w v i =
    let fit = command_fits f g s w v in
    finished-Sends _ 0 _ false available (fields_typed _ fit) (record { allowed = tt; fit = fit })
state-Sends c now f g s MissionState.liftoff_detection available h w v i =
    flight-Sends PacketHeader.liftoff_detection f g _ _ s _ available (inl refl) w v
state-Sends c now f g s MissionState.engine_burn available h w v i =
    flight-Sends PacketHeader.engine_burn f g _ _ s _ available (inr (inl refl)) w v
state-Sends c now f g s MissionState.control available h w v i =
    flight-Sends PacketHeader.control f g _ _ s _ available (inr (inr refl)) w v
state-Sends c now f g s MissionState.descent available h w v i =
    let fit = descent_fits c now f g h w v in
    finished-Sends _ 0 _ false available (fields_typed _ fit) (record { allowed = tt; fit = fit })

roll-Allowed : (v : ControlRollTelemetryV2) → IsWire (control_roll_v2 v) → Allowed (roll_packet v)
unfolding roll_packet
roll-Allowed v w = ground (arith, w.fields)

if_Sends :
    (b : Bool) (x y : Option PeriodicPacket × Shared)
    → Sends x.0
    → Sends y.0
    → Sends (if b then x else y).0
if_Sends true x y p q = p
if_Sends false x y p q = q

slot-Sends :
    (roll : Option ControlRollTelemetryV2) (c : CanCache) (now : ℕ) (f : Fresh) (g : GnssTelemetry)
    (s : Shared) (m : MissionState) (available : Bool)
    → Holds control_roll_v2 roll
    → IsCache c
    → IsFresh f
    → IsGnss g
    → IsShared s
    → Sends (slot_packet roll false c now f g s m available).0
unfolding roll_packet beacon_packet
slot-Sends (some value) c now f g s m available r h w v i =
    let fit = roll_packet_fits value r in
    finished-Sends (roll_packet value) 0 _ true true (fields_typed _ fit)
      (record { allowed = roll-Allowed value r; fit = fit })
slot-Sends none c now f g s m available r h w v i =
    let fit = beacon_fits f g w v in
    if_Sends s.recovery_beacon_active
      (finished (beacon_packet f g) 0 (event_snapshot c).1 false false, s)
      (state_packet c now f g s m available)
      (finished-Sends (beacon_packet f g) 0 _ false false (fields_typed _ fit)
        (record { allowed = tt; fit = fit }))
      (state-Sends c now f g s m available h w v i)

chosen-Holds :
    (b : Bool) (o : Option ControlRollTelemetryV2)
    → Holds control_roll_v2 o
    → Holds control_roll_v2 (if b then o else none)
chosen-Holds true o h = h
chosen-Holds false o h = tt

-- A periodic slot that is not restricted to the roll always sends: whatever frames the cache was filled
-- from, however old they are, and in every state of the mission, its packet is encoded, provided that
-- the position fits its fields of 16 and 9 bits, and the CAN health is at most 6 and the fallback's
-- sequence number a byte.
pub periodic_packet-Sends :
    (prefer : Bool) (c : CanCache) (now : ℕ) (g : GnssTelemetry) (s : Shared)
    → IsCache c
    → IsGnss g
    → IsShared s
    → Sends (periodic_packet prefer false c now g s).0
unfolding periodic_packet
periodic_packet-Sends prefer c now g s h v i =
    let f = fresh_values c now in
    let w = fresh_values-IsFresh c now h in
    let state = map_or f.mission MissionState.unknown (λ value. value.state) in
    let available = is_flight_state state && is_some f.control_roll_v2 in
    slot-Sends (if prefer && available then f.control_roll_v2 else none) c now f g s state available
      (chosen-Holds (prefer && available) f.control_roll_v2 w.roll) h w v i
