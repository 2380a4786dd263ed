-- ===== src/Lora/Periodic/Fits.antt =====
-- tasks/lora_task_base.rs: the periodic packets fit their frames.
use Prim.Native.Nat.{bit_or}
use l_comboard.Base.{ℕ, ◌<◌, ◌^◌, arith, Option, none, some, List, [], ◌∷◌, Bool, true, false, All}
use l_comboard.Base.Bits.{bit_and-le, bit_or-lt, complement}
use l_comboard.Can.Protocol.Messages.{
  CanRxMessage, kinematics, control, mission_status, power_time, attitude_tilt, lps, airspeed,
  control_roll_v2,
}
use l_comboard.Can.Protocol.Wire.{IsWire}
use l_comboard.Can.Cache.{CanCache, Latest, Freshness, freshness}
use l_comboard.Can.Cache.Held.{Holds, IsCache}
use l_comboard.Lora.Periodic.{GnssTelemetry, stale_or, set_flags, map_or}
use l_comboard.Lora.Periodic.Status.{put_flag}
use l_comboard.Lora.Periodic.Packet.{Fresh, fresh_values}

pub stale_or-Holds :
    {T : Type 0} (mk : T → CanRxMessage) (l : Latest T) (now limit : ℕ)
    → Holds mk l.value
    → Holds mk (stale_or l now limit)
unfolding stale_or
stale_or-Holds mk l now limit h = go (freshness l now limit)
  where
    go : (f : Freshness) → Holds mk (elim f [ Freshness.fresh ↦ l.value | _ ↦ none ])
    go Freshness.fresh = h
    go Freshness.missing = tt
    go Freshness.stale = tt

-- A field of a value that is there, or what stands for it.
pub map_or-lt :
    {T : Type 0} (mk : T → CanRxMessage) (o : Option T) (d n : ℕ) (f : T → ℕ)
    → Holds mk o
    → d < n
    → ((v : T) → IsWire (mk v) → f v < n)
    → map_or o d f < n
map_or-lt mk none d n f h low each = low
map_or-lt mk (some v) d n f h low each = each v h

pub set_flags-lt :
    (w s : ℕ) (fs : List (Bool × ℕ))
    → s < 2 ^ w
    → All (λ f. 2 ^ f.1 < 2 ^ w) fs
    → set_flags s fs < 2 ^ w
unfolding set_flags
set_flags-lt w s [] h l = h
set_flags-lt w s ((true, k) ∷ fs) h (l, ls) =
    set_flags-lt w (bit_or s (2 ^ k)) fs (bit_or-lt w s (2 ^ k) h l) ls
set_flags-lt w s ((false, k) ∷ fs) h (l, ls) =
    set_flags-lt w (bit_or s 0) fs (bit_or-lt w s 0 h (omega (arith, h))) ls

pub put_flag-lt :
    (w width s k : ℕ) (b : Bool) → s < 2 ^ w → 2 ^ k < 2 ^ w → put_flag width s k b < 2 ^ w
put_flag-lt w width s k true h l = bit_or-lt w s (2 ^ k) h l
put_flag-lt w width s k false h l = omega (arith, h, bit_and-le s (complement width (2 ^ k)))

-- The position has fields of a `u16`, and a height that fits its nine bits.
pub record IsGnss (g : GnssTelemetry) : Type 0 where
  pub east : g.east < 65536
  pub north : g.north < 65536
  pub height : g.height < 512

-- The fresh values come from frames.
pub record IsFresh (f : Fresh) : Type 0 where
  pub mission : Holds mission_status f.mission
  pub kinematics : Holds kinematics f.kinematics
  pub control : Holds control f.control
  pub tilt : Holds attitude_tilt f.tilt
  pub lps : Holds lps f.lps
  pub airspeed : Holds airspeed f.airspeed
  pub power : Holds power_time f.power
  pub roll : Holds control_roll_v2 f.control_roll_v2

pub fresh_values-IsFresh : (c : CanCache) (now : ℕ) → IsCache c → IsFresh (fresh_values c now)
unfolding fresh_values
fresh_values-IsFresh c now (k, t, m, p, d, a, l, s, r) = record {
  mission = stale_or-Holds _ c.mission_status now 300 m;
  kinematics = stale_or-Holds _ c.kinematics now 30 k;
  control = stale_or-Holds _ c.control now 30 t;
  tilt = stale_or-Holds _ c.attitude_tilt now 300 a;
  lps = stale_or-Holds _ c.lps now 120 l;
  airspeed = stale_or-Holds _ c.airspeed now 30 s;
  power = stale_or-Holds _ c.power_time now 300 p;
  roll = stale_or-Holds _ c.control_roll_v2 now 300 r;
}
