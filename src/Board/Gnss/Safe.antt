-- ===== src/Board/Gnss/Safe.antt =====
-- tasks/gnss_task.rs and gnss/telemetry.rs: the position always fits the packets.
use l_comboard.Base.{ℕ, ◌<◌, Bool, true, false, Option, none, some, arith, if◌then◌else◌}
use l_comboard.Base.Result.{Result, ok, err}
use l_comboard.Can.Protocol.ControlRoll.{ℤ, pos, negsuc}
use l_comboard.Lora.Periodic.{GnssTelemetry, GnssReceiverState}
use l_comboard.Lora.Periodic.Fits.{IsGnss}
use l_comboard.Board.Gnss.{
  Position, encode_coordinate, encode_height, encode_position, set_receiver_state, on_line,
  turned_off, on_gga, on_tick, is_silent, obey, GnssClock,
}
use l_comboard.Board.State.{GnssCommand, turn_on, turn_off}

coordinate_fits : (x : ℤ) → encode_coordinate x < 65536
coordinate_fits (pos n) = ground arith
coordinate_fits (negsuc n) = ground arith

height_fits : (finite within : Bool) (raw : ℤ) → encode_height finite within raw < 512
height_fits finite within (pos n) = ground arith
height_fits finite within (negsuc n) = ground arith

encode_position-IsGnss :
    (t : GnssTelemetry) (p : Position) (now : ℕ) → IsGnss (encode_position t p now)
encode_position-IsGnss t p now = record {
  east = coordinate_fits p.east;
  north = coordinate_fits p.north;
  height = height_fits p.finite p.within p.raw;
}

pub set_receiver_state-IsGnss :
    (t : GnssTelemetry) (s : GnssReceiverState) (now : ℕ)
    → IsGnss t
    → IsGnss (set_receiver_state t s now)
set_receiver_state-IsGnss t s now g = record {
  east = ground (arith, g.east);
  north = ground (arith, g.north);
  height = ground (arith, g.height);
}

pub on_line-IsGnss : (t : GnssTelemetry) (now : ℕ) → IsGnss t → IsGnss (on_line t now)
on_line-IsGnss t now g = record {
  east = ground (arith, g.east);
  north = ground (arith, g.north);
  height = ground (arith, g.height);
}

pub turned_off-IsGnss : (t : GnssTelemetry) → IsGnss (turned_off t)
turned_off-IsGnss t = record { east = omega arith; north = omega arith; height = omega arith }

pub on_tick-IsGnss : (t : GnssTelemetry) (now : ℕ) → IsGnss t → IsGnss (on_tick t now)
on_tick-IsGnss t now g = record {
  east = ground (arith, g.east);
  north = ground (arith, g.north);
  height = ground (arith, g.height);
}

if_IsGnss : (c : Bool) (x y : GnssTelemetry) → IsGnss x → IsGnss y → IsGnss (if c then x else y)
if_IsGnss true x y h k = h
if_IsGnss false x y h k = k

pub on_gga-IsGnss :
    (t : GnssTelemetry) (r : Result (Unit {0}) (Option Position)) (now : ℕ)
    → IsGnss t
    → IsGnss (on_gga t r now)
on_gga-IsGnss t (ok (some p)) now g =
    if_IsGnss (is_silent t.state) _ _ g (encode_position-IsGnss t p now)
on_gga-IsGnss t (ok none) now g =
    if_IsGnss (is_silent t.state) _ _ g
      (record { east = omega arith; north = omega arith; height = omega arith })
on_gga-IsGnss t (err e) now g =
    if_IsGnss (is_silent t.state) _ _ g
      (record { east = omega arith; north = omega arith; height = omega arith })

pub obey-IsGnss :
    (t : GnssTelemetry) (k : GnssClock) (c : GnssCommand) (is_on : Bool) (now : ℕ)
    → IsGnss t
    → IsGnss (obey t k c is_on now).0
obey-IsGnss t k turn_on true now g = g
obey-IsGnss t k turn_on false now g = set_receiver_state-IsGnss t GnssReceiverState.starting now g
obey-IsGnss t k turn_off is_on now g = turned_off-IsGnss t
