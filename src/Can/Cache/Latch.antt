-- ===== src/Can/Cache/Latch.antt =====
-- can/cache.rs: the latch of the event flags over a history of messages, and a transmission that clears
-- it while messages arrive.
use Prim.Native.Nat.{bit_or}
use l_comboard.Base.{
  ℕ, ◌+◌, ◌%◌, ◌^◌, ◌≤◌, ◌<◌, ◌≡◌, refl, ap, ◌∙◌, List, [], ◌∷◌, ◌++◌, sym, length, arith,
  length-append,
}
use l_comboard.Base.Bits.{bit, bit-bit_or}
use l_comboard.Can.Protocol.Messages.{CanRxMessage, MissionEvent, mission_event}
use l_comboard.Can.Cache.{CanCache, CacheUpdate, got_mission_event, update}

-- The messages of a history, each with the time of its arrival.
unfoldable pub run : CanCache → List (CanRxMessage × ℕ) → CanCache
run c [] = c
run c ((m, at) ∷ ms) = run (update c m at).0 ms

abbrev event_of : CacheUpdate → List MissionEvent
event_of (got_mission_event e new_flags) = e ∷ []
event_of _ = []

-- The events that the cache reports as new.
unfoldable pub arrivals : CanCache → List (CanRxMessage × ℕ) → List MissionEvent
arrivals c [] = []
arrivals c ((m, at) ∷ ms) =
    let (c', reported) = update c m at in event_of reported ++ arrivals c' ms

abbrev pub latched : ℕ → List MissionEvent → ℕ
latched flags [] = flags
latched flags (e ∷ es) = latched (bit_or flags e.flags) es

latched-append :
    (flags : ℕ) (xs ys : List MissionEvent)
    → latched flags (xs ++ ys) ≡ latched (latched flags xs) ys
latched-append flags [] ys = refl
latched-append flags (e ∷ xs) ys = latched-append (bit_or flags e.flags) xs ys

-- One message: only a reported event changes the latch and its revision, and the event's flags have
-- the width of the message's.
update_latch :
    (c : CanCache) (m : CanRxMessage) (at : ℕ)
    → let (c', reported) = update c m at in
      (c'.event_flags_latched ≡ latched c.event_flags_latched (event_of reported))
      × (c.event_revision < 2 ^ 32
          → c'.event_revision ≡ (c.event_revision + length (event_of reported)) % 2 ^ 32)
unfolding update
update_latch c (mission_event e) at = ground arith
update_latch c m at = ground arith

revision-lt :
    (c : CanCache) (m : CanRxMessage) (at : ℕ)
    → c.event_revision < 2 ^ 32
    → (update c m at).0.event_revision < 2 ^ 32
revision-lt c m at h = omega (arith, (update_latch c m at).1 h)

-- After any history the latch is the union of what it was with the flags of every reported event.
pub latch-run :
    (c : CanCache) (ms : List (CanRxMessage × ℕ))
    → (run c ms).event_flags_latched ≡ latched c.event_flags_latched (arrivals c ms)
unfolding run arrivals
latch-run c [] = refl
latch-run c ((m, at) ∷ ms) =
    latch-run (update c m at).0 ms
    ∙ ap (λ f. latched f (arrivals (update c m at).0 ms)) (update_latch c m at).0
    ∙ sym (
        latched-append c.event_flags_latched (event_of (update c m at).1)
          (arrivals (update c m at).0 ms))

-- From a revision within 32 bits, the revision counts the reported events modulo its width.
pub revision-run :
    (c : CanCache) (ms : List (CanRxMessage × ℕ))
    → c.event_revision < 2 ^ 32
    → (run c ms).event_revision ≡ (c.event_revision + length (arrivals c ms)) % 2 ^ 32
unfolding run arrivals
revision-run c [] h = omega arith
revision-run c ((m, at) ∷ ms) h = omega (
  arith,
  revision-run (update c m at).0 ms (revision-lt c m at h),
  (update_latch c m at).1 h,
  length-append (event_of (update c m at).1) (arrivals (update c m at).0 ms),
)

bit-latched : (i flags : ℕ) (es : List MissionEvent) → bit i flags ≤ bit i (latched flags es)
bit-latched i flags [] = omega arith
bit-latched i flags (e ∷ es) =
    omega (arith, bit-latched i (bit_or flags e.flags) es, bit-bit_or i flags e.flags)
