-- ===== src/Can/Cache/Kinds.antt =====
-- can/cache.rs: the cache as a map from the kind of a message to the last one of that kind.
use mathlib.Core.Option
use l_comboard.Base.{
  ℕ, All, ◌≡◌, refl, ap, ◌∙◌, List, [], ◌∷◌, Bool, true, false, none, some, if◌then◌else◌, arith,
}
use l_comboard.Can.Protocol.Messages.{
  CanRxMessage, command_result, time_request, mission_event, kinematics, control, mission_status,
  power_time, descent_core, recovery_status, recovery_log_data, attitude_tilt, lps, airspeed,
  control_roll_v2,
}
use l_comboard.Can.Cache.{
  CanCache, Latest, update, clear_recovery_power_snapshot, freshness, missing,
}
use l_comboard.Can.Cache.Latch.{run}

-- The kinds of messages that the cache stores whenever they arrive.
pub data Kind : Type 0 where
  of_command_result of_time_request of_kinematics of_control of_mission_status of_power_time
        of_descent_core of_recovery_status of_recovery_log_data of_attitude_tilt of_lps of_airspeed
        of_control_roll_v2 :
      Kind

abbrev pub is_kind : Kind → CanRxMessage → Bool
is_kind of_command_result (command_result m) = true
is_kind of_time_request (time_request m) = true
is_kind of_kinematics (kinematics m) = true
is_kind of_control (control m) = true
is_kind of_mission_status (mission_status m) = true
is_kind of_power_time (power_time m) = true
is_kind of_descent_core (descent_core m) = true
is_kind of_recovery_status (recovery_status m) = true
is_kind of_recovery_log_data (recovery_log_data m) = true
is_kind of_attitude_tilt (attitude_tilt m) = true
is_kind of_lps (lps m) = true
is_kind of_airspeed (airspeed m) = true
is_kind of_control_roll_v2 (control_roll_v2 m) = true
is_kind _ _ = false

abbrev wrap : {T : Type 0} → (T → CanRxMessage) → Latest T → Latest CanRxMessage
wrap f l = record { value = Option.map f l.value; received_at_ms = l.received_at_ms }

-- What the cache holds of a kind, and when it came.
abbrev pub stored : CanCache → Kind → Latest CanRxMessage
stored c of_command_result = wrap command_result c.command_result
stored c of_time_request = wrap time_request c.time_request
stored c of_kinematics = wrap kinematics c.kinematics
stored c of_control = wrap control c.control
stored c of_mission_status = wrap mission_status c.mission_status
stored c of_power_time = wrap power_time c.power_time
stored c of_descent_core = wrap descent_core c.descent_core
stored c of_recovery_status = wrap recovery_status c.recovery_status
stored c of_recovery_log_data = wrap recovery_log_data c.recovery_log_data
stored c of_attitude_tilt = wrap attitude_tilt c.attitude_tilt
stored c of_lps = wrap lps c.lps
stored c of_airspeed = wrap airspeed c.airspeed
stored c of_control_roll_v2 = wrap control_roll_v2 c.control_roll_v2

-- The last message of a kind in a history, or else what was there before.
abbrev pub last : Kind → Latest CanRxMessage → List (CanRxMessage × ℕ) → Latest CanRxMessage
last k l [] = l
last k l ((m, at) ∷ ms) =
    last k (if is_kind k m then record { value = some m; received_at_ms = at } else l) ms

update-stored :
    (c : CanCache) (m : CanRxMessage) (at : ℕ) (k : Kind)
    → stored (update c m at).0 k
      ≡ (if is_kind k m then record { value = some m; received_at_ms = at } else stored c k)
unfolding update
update-stored c (command_result m) at k = ground arith
update-stored c (time_request m) at k = ground arith
update-stored c (mission_event m) at k = ground arith
update-stored c (kinematics m) at k = ground arith
update-stored c (control m) at k = ground arith
update-stored c (mission_status m) at k = ground arith
update-stored c (power_time m) at k = ground arith
update-stored c (descent_core m) at k = ground arith
update-stored c (recovery_status m) at k = ground arith
update-stored c (recovery_log_data m) at k = ground arith
update-stored c (attitude_tilt m) at k = ground arith
update-stored c (lps m) at k = ground arith
update-stored c (airspeed m) at k = ground arith
update-stored c (control_roll_v2 m) at k = ground arith

-- After any history the cache holds of each kind but the events the last message of that kind with the
-- time of its arrival, and what it held before where none of that kind came.
pub run-stored :
    (c : CanCache) (ms : List (CanRxMessage × ℕ)) (k : Kind)
    → stored (run c ms) k ≡ last k (stored c k) ms
unfolding run
run-stored c [] k = refl
run-stored c ((m, at) ∷ ms) k =
    run-stored (update c m at).0 ms k ∙ ap (λ l. last k l ms) (update-stored c m at k)

last_other :
    (k : Kind) (l : Latest CanRxMessage) (ms : List (CanRxMessage × ℕ))
    → All (λ arrival. is_kind k arrival.0 ≡ false) ms
    → last k l ms ≡ l
last_other k l [] h = refl
last_other k l ((m, at) ∷ ms) h = rw h.0 (last_other k l ms h.1)

-- Once the snapshot of the power is reset, it is missing at every time and for every limit until a
-- message of the power arrives, whatever else does.
pub clear_recovery_power_snapshot-run :
    (c : CanCache) (ms : List (CanRxMessage × ℕ)) (now limit : ℕ)
    → All (λ arrival. is_kind of_power_time arrival.0 ≡ false) ms
    → freshness (run (clear_recovery_power_snapshot c) ms).power_time now limit ≡ missing
unfolding clear_recovery_power_snapshot freshness
clear_recovery_power_snapshot-run c ms now limit h =
    let cleared = clear_recovery_power_snapshot c in
    let e =
      run-stored cleared ms of_power_time
      ∙ last_other of_power_time (stored cleared of_power_time) ms h in
    let v : Option.map power_time (run cleared ms).power_time.value ≡ none = ap (λ l. l.value) e in
    ground arith
