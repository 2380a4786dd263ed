-- ===== src/Can/Cache/Tests.antt =====
-- Two events and a telemetry message in a cache.
use l_comboard.Base.{ℕ, All, ◌≡◌, refl, false, List, [], ◌∷◌, some, arith}
use l_comboard.Can.Protocol.MissionEnums.{MissionState}
use l_comboard.Can.Protocol.Messages.{CanRxMessage, MissionEvent, mission_event, airspeed}
use l_comboard.Can.Cache.{Latest, latest, new, observed_sequence, sequence_gap}
use l_comboard.Can.Cache.Kinds.{of_airspeed, of_power_time, is_kind, stored, last, run-stored}
use l_comboard.Can.Cache.Latch.{run, arrivals, latched, latch-run}

abbrev event : ℕ → ℕ → MissionEvent
event sequence flags = record {
  sequence = sequence;
  flags = flags;
  state = MissionState.descent;
  elapsed = 0;
  detail = 0;
}

-- An event, the same again, a telemetry message, and another event.
abbrev history : List (CanRxMessage × ℕ)
history =
    (mission_event (event 7 0x0001), 10)
    ∷ (mission_event (event 7 0x0001), 20)
    ∷ (airspeed (record { sequence = 1; airspeed = 60 }), 30)
    ∷ (mission_event (event 8 0x0100), 40)
    ∷ []

abbrev sample : Latest ℕ
sample = latest 5 100

latch-run_example :
    (run new history).event_flags_latched ≡ latched new.event_flags_latched (arrivals new history)
latch-run_example = latch-run new history

-- `mission_event` wraps from 0xff to 0.
wraps : sequence_gap (some 0xff) 0 ≡ false
unfolding sequence_gap
wraps = refl

log_sequence : observed_sequence 0x106 (0x34 ∷ 0xff ∷ []) ≡ some 0xff
unfolding observed_sequence
log_sequence = refl

run-stored_example :
    stored (run new history) of_airspeed ≡ last of_airspeed (stored new of_airspeed) history
run-stored_example = run-stored new history of_airspeed

no_power : All (λ arrival. is_kind of_power_time arrival.0 ≡ false) history
no_power = ground arith
