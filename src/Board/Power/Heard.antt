-- ===== src/Board/Power/Heard.antt =====
-- tasks/recovery_power_task.rs: the task beside the frames that arrive in the cache.
use l_comboard.Base.{
  ℕ, ◌-◌, ◌≤◌, ◌≡◌, ◌⊎◌, inl, inr, refl, ap, List, [], ◌∷◌, Bool, true, false, ◌&&◌, Option, none,
  some, arith, Bool-cases,
}
use mathlib.Core.Path.{subst}
use l_comboard.Can.Protocol.Messages.{PowerTimeTelemetry, power_time}
use l_comboard.Can.Cache.{CanCache, update, set_power_time, received_at}
use l_comboard.Board.Power.{
  PowerTask, new_power_task, is_aged, is_some, differs, adopted, adopt, expire, branch, power_round,
}
use l_comboard.Board.Power.Age.{IsCode, IsBacked, power_round-IsBacked, branch-IsCurrent}

-- A frame of the mission arrives, or the task makes a round.
pub data PowerEvent : Type 0 where
  frame : PowerTimeTelemetry → ℕ → PowerEvent
  task_round : Bool → ℕ → PowerEvent

-- The cache, the task, and the frames that have arrived, each with its time.
pub record PowerRun : Type 0 where
  pub cache : CanCache
  pub task : PowerTask
  pub heard : List (PowerTimeTelemetry × ℕ)

abbrev pub event_after : PowerRun → PowerEvent → PowerRun
event_after s (frame v at) = record s {
  cache = (update s.cache (power_time v) at).0;
  heard = (v, at) ∷ s.heard;
}
event_after s (task_round active now) =
    let (c, t) = power_round s.cache s.task active now in record s { cache = c; task = t }

abbrev pub follow : PowerRun → List PowerEvent → PowerRun
follow s [] = s
follow s (e ∷ es) = follow (event_after s e) es

abbrev pub start_run : CanCache → PowerRun
start_run c = record { cache = c; task = new_power_task; heard = [] }

abbrev pub IsIn : PowerTimeTelemetry × ℕ → List (PowerTimeTelemetry × ℕ) → Type 0
IsIn x [] = ⊥
IsIn x (y ∷ ys) = (x ≡ y) ⊎ IsIn x ys

-- The snapshot that has a time is the frame of that time.
abbrev IsSourced : PowerTask → List (PowerTimeTelemetry × ℕ) → Type 0
IsSourced t heard = (at : ℕ) → t.source_received_at_ms ≡ some at → IsIn (t.snapshot, at) heard

-- What the cache holds was stored by the task itself, or is a frame.
abbrev IsStored : CanCache → PowerTask → List (PowerTimeTelemetry × ℕ) → Type 0
IsStored c t heard =
    (v : PowerTimeTelemetry)
    → c.power_time.value ≡ some v
    → (received_at c.power_time ≡ t.last_refresh_received_at_ms)
      ⊎ ((at : ℕ) × (received_at c.power_time ≡ some at) × IsIn (v, at) heard)

record IsTraced (s : PowerRun) : Type 0 where
  backed : IsBacked s.task
  sourced : s.task.active_previous ≡ true → IsSourced s.task s.heard
  stored : s.task.active_previous ≡ true → IsStored s.cache s.task s.heard

differs_self : (o : Option ℕ) → differs o o ≡ false
differs_self none = refl
differs_self (some n) = ground arith

adopted-IsSourced :
    (t : PowerTask) (heard : List (PowerTimeTelemetry × ℕ)) (value : Option PowerTimeTelemetry)
    (received : Option ℕ)
    → IsSourced t heard
    → ((v : PowerTimeTelemetry)
        → value ≡ some v
        → (received ≡ t.last_refresh_received_at_ms)
          ⊎ ((at : ℕ) × (received ≡ some at) × IsIn (v, at) heard))
    → IsSourced (adopted t value received) heard
adopted-IsSourced t heard none received h st = h
adopted-IsSourced t heard (some v) received h st =
    elim (Bool-cases (is_some received && differs received t.last_refresh_received_at_ms)) [
      | inr old ↦ rw old h
      | inl new ↦ elim (st v refl) [
        | inl own ↦ absurd (ground (arith, new, own, differs_self t.last_refresh_received_at_ms))
        | inr (at, e, i) ↦
            rw new (λ at' e'. subst (λ n. IsIn (v, n) heard) (ground (arith, e, e')) i)
      ]
    ]

expire-IsSourced :
    (t : PowerTask) (heard : List (PowerTimeTelemetry × ℕ)) (now : ℕ)
    → IsSourced t heard
    → IsSourced (expire t now) heard
unfolding expire
expire-IsSourced t heard now h = elim (Bool-cases (is_aged t.source_received_at_ms now)) [
  | inl aged ↦ rw aged (λ at e. absurd cc)
  | inr young ↦ rw young h
]

branch-IsSourced :
    (c : CanCache) (t : PowerTask) (heard : List (PowerTimeTelemetry × ℕ)) (p : Bool) (now : ℕ)
    → (p ≡ true → IsSourced t heard)
    → (p ≡ true → IsStored c t heard)
    → IsSourced (branch c t true p now).1 heard
unfolding branch adopt
branch-IsSourced c t heard false now h st = λ at e. absurd cc
branch-IsSourced c t heard true now h st =
    expire-IsSourced (adopt c t) heard now
      (adopted-IsSourced t heard c.power_time.value (received_at c.power_time) (h refl) (st refl))

branch-IsStored :
    (c : CanCache) (t : PowerTask) (heard : List (PowerTimeTelemetry × ℕ)) (p : Bool) (now : ℕ)
    → IsStored (branch c t true p now).0 (branch c t true p now).1 heard
unfolding branch set_power_time received_at
branch-IsStored c t heard false now = λ v e. inl refl
branch-IsStored c t heard true now = λ v e. inl refl

event-IsTraced : (s : PowerRun) (e : PowerEvent) → IsTraced s → IsTraced (event_after s e)
unfolding update power_round received_at
event-IsTraced s (frame v at) w = record {
  backed = w.backed;
  sourced = λ a n e. inr (w.sourced a n e);
  stored = λ a v' e. inr (at, refl, inl (ap (λ x. (x, at)) (cc)));
}
event-IsTraced s (task_round true now) w = record {
  backed = power_round-IsBacked s.cache s.task true now w.backed;
  sourced =
      λ a. branch-IsSourced s.cache s.task s.heard s.task.active_previous now w.sourced w.stored;
  stored = λ a. branch-IsStored s.cache s.task s.heard s.task.active_previous now;
}
event-IsTraced s (task_round false now) w = record {
  backed = power_round-IsBacked s.cache s.task false now w.backed;
  sourced = λ a. absurd cc;
  stored = λ a. absurd cc;
}

follow-IsTraced : (s : PowerRun) (es : List PowerEvent) → IsTraced s → IsTraced (follow s es)
follow-IsTraced s [] w = w
follow-IsTraced s (e ∷ es) w = follow-IsTraced (event_after s e) es (event-IsTraced s e w)

start-IsTraced : (c : CanCache) → IsTraced (start_run c)
start-IsTraced c = record {
  backed = λ a e. absurd cc;
  sourced = λ a. absurd cc;
  stored = λ a. absurd cc;
}

-- The voltages are codes, or the snapshot is a frame that arrived at most 30 s before.
abbrev pub IsHeard : PowerTask → List (PowerTimeTelemetry × ℕ) → ℕ → Type 0
IsHeard t heard now =
    (IsCode t.snapshot.logic_voltage × IsCode t.snapshot.motor_voltage)
    ⊎ ((at : ℕ) × IsIn (t.snapshot, at) heard × (now - at ≤ 30000))

-- Whatever the cache holds at first, and in whatever order frames of the mission arrive in it and the
-- task makes its rounds, with the beacon active or not: a round with an active beacon stores the task's snapshot, and
-- that is a frame that arrived at most 30 s before, or its voltages are the codes for "stale" or
-- "unavailable". What the task itself stored counts as no arrival, so that voltages age in silence.
pub power_round-IsHeard :
    (c : CanCache) (es : List PowerEvent) (now : ℕ)
    → let s = follow (start_run c) es in
      let (c', t') = power_round s.cache s.task true now in
      IsHeard t' s.heard now × (c'.power_time.value ≡ some t'.snapshot)
unfolding power_round
power_round-IsHeard c es now =
    let s = follow (start_run c) es in
    let w = follow-IsTraced (start_run c) es (start-IsTraced c) in
    let p = s.task.active_previous in
    let (current, stored) = branch-IsCurrent s.cache s.task p now refl w.backed in
    let sourced = branch-IsSourced s.cache s.task s.heard p now w.sourced w.stored in
    (
      elim current [ inl codes ↦ inl codes | inr (at, e, age) ↦ inr (at, sourced at e, age) ],
      stored,
    )
