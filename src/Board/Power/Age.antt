-- ===== src/Board/Power/Age.antt =====
-- tasks/recovery_power_task.rs: what the beacon reads is fresh, and no old voltage is passed off as new.
use l_comboard.Base.{
  ℕ, Option-cases, ◌-◌, ◌≤◌, ◌≡◌, ◌⊎◌, inl, inr, refl, Bool, true, false, ◌&&◌, Option, none, some,
  arith, Bool-cases,
}
use l_comboard.Can.Protocol.Messages.{PowerTimeTelemetry, power_time}
use l_comboard.Can.Protocol.Wire.{IsWire}
use l_comboard.Can.Cache.{CanCache, set_power_time, fresh, freshness, received_at}
use l_comboard.Can.Cache.Held.{
  Holds, IsCache, clear_recovery_power_snapshot-IsCache, set_power_time-IsCache,
}
use l_comboard.Board.Power.{
  PowerTask, unavailable_snapshot, stale_snapshot, is_aged, is_some, differs, adopted, adopt,
  expire, branch, power_round,
}

-- The codes for a voltage that is not known or no longer current.
abbrev pub IsCode : ℕ → Type 0
IsCode v = (v ≡ 253) ⊎ (v ≡ 255)

-- Where no frame stands behind the snapshot, its voltages are codes.
abbrev pub IsBacked : PowerTask → Type 0
IsBacked t =
    t.active_previous ≡ true
    → t.source_received_at_ms ≡ none
    → IsCode t.snapshot.logic_voltage × IsCode t.snapshot.motor_voltage

-- The snapshot is one that a frame can carry.
abbrev pub IsSnapshot : PowerTask → Type 0
IsSnapshot t = IsWire (power_time t.snapshot)

branch-fresh :
    (c : CanCache) (t : PowerTask) (p : Bool) (now : ℕ)
    → freshness (branch c t true p now).0.power_time now 300 ≡ fresh
unfolding branch freshness set_power_time
branch-fresh c t true now = ground arith
branch-fresh c t false now = ground arith

-- While the beacon is active, the voltages that the cache holds after a round are fresh at that time:
-- the assertion at the end of the round holds.
pub power_round-fresh :
    (c : CanCache) (t : PowerTask) (now : ℕ)
    → freshness (power_round c t true now).0.power_time now 300 ≡ fresh
unfolding power_round
power_round-fresh c t now = branch-fresh c t t.active_previous now

adopt-IsBacked :
    (c : CanCache) (t : PowerTask) → t.active_previous ≡ true → IsBacked t → IsBacked (adopt c t)
unfolding adopt received_at
adopt-IsBacked c t p h = ground (arith, h p)

expire-IsBacked :
    (t : PowerTask) (now : ℕ) → t.active_previous ≡ true → IsBacked t → IsBacked (expire t now)
unfolding expire
expire-IsBacked t now p h = ground (arith, h p)

expire-active :
    (t : PowerTask) (now : ℕ) → t.active_previous ≡ true → (expire t now).active_previous ≡ true
unfolding expire
expire-active t now p = ground arith

adopt-active :
    (c : CanCache) (t : PowerTask) → t.active_previous ≡ true → (adopt c t).active_previous ≡ true
unfolding adopt
adopt-active c t p = ground arith

-- A snapshot that is kept is at most 30 s old, where its time is not ahead of the clock.
expire_age :
    (t : PowerTask) (now at : ℕ) → (expire t now).source_received_at_ms ≡ some at → now - at ≤ 30000
unfolding expire
expire_age t now at = ground arith

-- The voltages of the snapshot are codes, or those of a frame of the last 30 s.
abbrev pub IsCurrent : PowerTask → ℕ → Type 0
IsCurrent t now =
    (IsCode t.snapshot.logic_voltage × IsCode t.snapshot.motor_voltage)
    ⊎ ((at : ℕ) × (t.source_received_at_ms ≡ some at) × (now - at ≤ 30000))

current :
    (t : PowerTask) (now : ℕ) → t.active_previous ≡ true → IsBacked t → IsCurrent (expire t now) now
current t now p h = elim (Option-cases (expire t now).source_received_at_ms) [
  | inl e ↦ inl (expire-IsBacked t now p h (expire-active t now p) e)
  | inr (at, e) ↦ inr (at, e, expire_age t now at e)
]

branch-IsBacked :
    (c : CanCache) (t : PowerTask) (active p : Bool) (now : ℕ)
    → t.active_previous ≡ p
    → IsBacked t
    → IsBacked (record (branch c t active p now).1 { active_previous = active })
unfolding branch
branch-IsBacked c t true false now e h = λ _ _. (inr refl, inr refl)
branch-IsBacked c t false p now e h = λ x _. cc
branch-IsBacked c t true true now e h = λ _ z.
    let p = adopt-active c t e in
    expire-IsBacked (adopt c t) now p (adopt-IsBacked c t e h) (expire-active (adopt c t) now p) z

pub power_round-IsBacked :
    (c : CanCache) (t : PowerTask) (active : Bool) (now : ℕ)
    → IsBacked t
    → IsBacked (power_round c t active now).1
unfolding power_round
power_round-IsBacked c t active now h = branch-IsBacked c t active t.active_previous now refl h

pub branch-IsCurrent :
    (c : CanCache) (t : PowerTask) (p : Bool) (now : ℕ)
    → t.active_previous ≡ p
    → IsBacked t
    → IsCurrent (branch c t true p now).1 now
      × ((branch c t true p now).0.power_time.value ≡ some (branch c t true p now).1.snapshot)
unfolding branch set_power_time
branch-IsCurrent c t false now e h = (inl (inr refl, inr refl), refl)
branch-IsCurrent c t true now e h =
    (current (adopt c t) now (adopt-active c t e) (adopt-IsBacked c t e h), refl)

-- The snapshot stays one that a frame can carry, and so does the cache.
stale-IsWire :
    (v : PowerTimeTelemetry) → IsWire (power_time v) → IsWire (power_time (stale_snapshot v))
stale-IsWire v w = record { bytes = ground (arith, w.bytes); fields = w.fields }

adopted-IsSnapshot :
    (t : PowerTask) (v : Option PowerTimeTelemetry) (at : Option ℕ)
    → Holds power_time v
    → IsSnapshot t
    → IsSnapshot (adopted t v at)
adopted-IsSnapshot t none at h w = w
adopted-IsSnapshot t (some v) at h w =
    elim (Bool-cases (is_some at && differs at t.last_refresh_received_at_ms)) [
      | inl e ↦ rw e h
      | inr e ↦ rw e w
    ]

adopt-IsSnapshot :
    (c : CanCache) (t : PowerTask) → IsCache c → IsSnapshot t → IsSnapshot (adopt c t)
unfolding adopt
adopt-IsSnapshot c t h w = adopted-IsSnapshot t c.power_time.value (received_at c.power_time) h.3 w

expire-IsSnapshot : (t : PowerTask) (now : ℕ) → IsSnapshot t → IsSnapshot (expire t now)
unfolding expire
expire-IsSnapshot t now w = elim (Bool-cases (is_aged t.source_received_at_ms now)) [
  | inl e ↦ rw e (stale-IsWire t.snapshot w)
  | inr e ↦ rw e w
]

pub new-IsSnapshot : IsWire (power_time unavailable_snapshot)
new-IsSnapshot = record { bytes = ground arith; fields = refl }

branch-Keeps :
    (c : CanCache) (t : PowerTask) (active p : Bool) (now : ℕ)
    → IsCache c
    → IsSnapshot t
    → IsCache (branch c t active p now).0 × IsSnapshot (branch c t active p now).1
unfolding branch
branch-Keeps c t true false now h w =
    (set_power_time-IsCache c _ now new-IsSnapshot h, new-IsSnapshot)
branch-Keeps c t false true now h w = (clear_recovery_power_snapshot-IsCache c h, w)
branch-Keeps c t false false now h w = (h, w)
branch-Keeps c t true true now h w =
    let w' = expire-IsSnapshot (adopt c t) now (adopt-IsSnapshot c t h w) in
    (set_power_time-IsCache c _ now w' h, w')

pub power_round-IsCache :
    (c : CanCache) (t : PowerTask) (active : Bool) (now : ℕ)
    → IsCache c
    → IsSnapshot t
    → IsCache (power_round c t active now).0 × IsSnapshot (power_round c t active now).1
unfolding power_round
power_round-IsCache c t active now h w = branch-Keeps c t active t.active_previous now h w
