-- ===== src/Board/Gnss.antt =====
-- tasks/gnss_task.rs and gnss/telemetry.rs: what the tasks of the GNSS receiver write to the shared
-- state, and the answer to a request for the time. The floating point numbers of a position are
-- parameters: the metres to the east and north as they are rounded to i32, the tests of the height and
-- its step. The bytes of the UART stand for the sentences that they end.
pub mod Safe
use mathlib.Core.Option
use l_comboard.Base.{
  ℕ, ◌+◌, ◌-◌, ◌*◌, ◌/◌, ◌%◌, ◌^◌, List, Bool, true, false, not, ◌&&◌, ◌||◌, Option, none, some,
  ◌==◌, leb, ltb, if◌then◌else◌, is_value,
}
use l_comboard.Base.Checked.{checked, u32_max}
use l_comboard.Base.Result.{Result, ok, err}
use l_comboard.Can.Protocol.ControlRoll.{ℤ, pos, negsuc}
use l_comboard.Can.Protocol.MissionEnums.{TimeSource}
use l_comboard.Can.Protocol.Messages.{CanTxMessage, time_response}
use l_comboard.Can.Cache.{CanCache, received_at}
use l_comboard.Gnss.Time.{GnssDateTime, parse_rmc_datetime}
use l_comboard.Lora.Periodic.{GnssTelemetry, GnssReceiverState}
use l_comboard.Board.Channel.{Channels}
use l_comboard.Board.State.{GnssCommand, turn_on, turn_off}

-- A position whose floating point part is done: `is_finite` and `contains` of the height beside it.
pub record Position : Type 0 where
  pub north : ℤ
  pub east : ℤ
  pub finite : Bool
  pub within : Bool
  pub raw : ℤ

abbrev pub encode_coordinate : ℤ → ℕ
encode_coordinate (pos n) = if leb n 32767 then n else 0x8003
encode_coordinate (negsuc n) = if leb (n + 1) 32752 then 65536 - (n + 1) else 0x8003

-- `(0..=495).contains(&raw)`
abbrev encode_raw : ℤ → ℕ
encode_raw (pos n) = if leb n 495 then n else 499
encode_raw (negsuc n) = 499

abbrev pub encode_height : Bool → Bool → ℤ → ℕ
encode_height finite within raw =
    if not finite then 500 else if not within then 499 else encode_raw raw

abbrev pub place : GnssTelemetry → GnssReceiverState → ℕ → ℕ → GnssTelemetry
place t state coordinate height = record t {
  state = state;
  east = coordinate;
  north = coordinate;
  height = height;
}

abbrev pub encode_position : GnssTelemetry → Position → ℕ → GnssTelemetry
encode_position t p now_ms = record t {
  state = GnssReceiverState.valid_fix;
  east = encode_coordinate p.east;
  north = encode_coordinate p.north;
  height = encode_height p.finite p.within p.raw;
  last_fix_at_ms = some now_ms;
}

abbrev pub set_receiver_state : GnssTelemetry → GnssReceiverState → ℕ → GnssTelemetry
set_receiver_state t GnssReceiverState.starting now_ms = record t {
  state = GnssReceiverState.starting;
  started_at_ms = some now_ms;
}
set_receiver_state t GnssReceiverState.configuration_failed now_ms =
    place t GnssReceiverState.configuration_failed 0x8005 501
set_receiver_state t GnssReceiverState.receiver_error now_ms =
    place t GnssReceiverState.receiver_error 0x8005 501
set_receiver_state t state now_ms = record t { state = state }

-- A whole line from the receiver.
abbrev pub on_line : GnssTelemetry → ℕ → GnssTelemetry
on_line t now_ms =
    let t1 : GnssTelemetry = record t { last_receiver_at_ms = some now_ms } in
    elim t.state [
      | GnssReceiverState.starting ↦ record t1 { state = GnssReceiverState.receiver_detected }
      | GnssReceiverState.receiver_error ↦ record t1 { state = GnssReceiverState.receiver_detected }
      | _ ↦ t1
    ]

-- `GnssCommand::TurnOff`
abbrev pub turned_off : GnssTelemetry → GnssTelemetry
turned_off t = place t GnssReceiverState.off 0x8000 496

abbrev pub is_silent : GnssReceiverState → Bool
is_silent GnssReceiverState.off = true
is_silent GnssReceiverState.starting = true
is_silent GnssReceiverState.configuration_failed = true
is_silent _ = false

-- A GGA sentence by what `parse_gga` gave: a position, none, or an error.
abbrev pub on_gga : GnssTelemetry → Result (Unit {0}) (Option Position) → ℕ → GnssTelemetry
on_gga t parsed now_ms = if is_silent t.state then t else elim parsed [
  | ok (some p) ↦ encode_position t p now_ms
  | ok none ↦ place t GnssReceiverState.no_fix 0x8001 497
  | err e ↦ place t GnssReceiverState.invalid_sample 0x8004 500
]

-- `is_some_and` and `is_none_or` of a time that lies 3 s back.
abbrev is_late : Option ℕ → ℕ → Bool
is_late none now_ms = false
is_late (some seen) now_ms = leb 3000 (now_ms - seen)

abbrev none_or_late : Option ℕ → ℕ → Bool
none_or_late none now_ms = true
none_or_late seen now_ms = is_late seen now_ms

abbrev or_stale : GnssTelemetry → Bool → GnssTelemetry
or_stale t late = if late then place t GnssReceiverState.stale 0x8002 498 else t

-- The tick of `parse_gnss_task`.
abbrev pub on_tick : GnssTelemetry → ℕ → GnssTelemetry
on_tick t now_ms = elim t.state [
  | GnssReceiverState.starting ↦
      if none_or_late t.started_at_ms now_ms
      then place t GnssReceiverState.receiver_error 0x8005 501
      else t
  | GnssReceiverState.receiver_detected ↦ or_stale t (is_late t.last_receiver_at_ms now_ms)
  | GnssReceiverState.no_fix ↦ or_stale t (is_late t.last_receiver_at_ms now_ms)
  | GnssReceiverState.invalid_sample ↦ or_stale t (is_late t.last_receiver_at_ms now_ms)
  | GnssReceiverState.valid_fix ↦ or_stale t (is_late t.last_fix_at_ms now_ms)
  | _ ↦ t
]

-- GNSS_TIME_VALID, GNSS_TIME_UNIX_SECONDS, GNSS_TIME_MILLISECONDS and GNSS_TIME_UPDATED_AT_MS
pub record GnssClock : Type 0 where
  pub valid : Bool
  pub unix_seconds : ℕ
  pub milliseconds : ℕ
  pub updated_at_ms : ℕ

abbrev pub clock_invalid : GnssClock → GnssClock
clock_invalid k = record k { valid = false }

-- A command to the receiver, until its settings are sent.
abbrev pub obey : GnssTelemetry → GnssClock → GnssCommand → Bool → ℕ → GnssTelemetry × GnssClock
obey t k turn_on is_on now_ms =
    if is_on
    then (t, k)
    else (set_receiver_state t GnssReceiverState.starting now_ms, clock_invalid k)
obey t k turn_off is_on now_ms = (turned_off t, clock_invalid k)

-- A setting that is refused.
abbrev pub misconfigured : GnssTelemetry → GnssClock → ℕ → GnssTelemetry × GnssClock
misconfigured t k now_ms =
    (set_receiver_state t GnssReceiverState.configuration_failed now_ms, clock_invalid k)

-- The clock at the tick of `parse_gnss_task`.
abbrev pub clock_tick : GnssClock → ℕ → GnssClock
clock_tick k now_ms = if k.valid && leb 3000 (now_ms - k.updated_at_ms) then clock_invalid k else k

-- An RMC sentence.
abbrev pub on_rmc : GnssTelemetry → GnssClock → List ℕ → ℕ → GnssClock
on_rmc t k sentence now_ms = if is_silent t.state then k else elim (parse_rmc_datetime sentence) [
  | ok d ↦ record {
    valid = true;
    unix_seconds = d.unix_seconds;
    milliseconds = d.milliseconds;
    updated_at_ms = now_ms % 2 ^ 32;
  }
  | err e ↦ k
]

-- The seconds and milliseconds at a time after the last sentence.
abbrev clock_at : GnssClock → ℕ → Option ℕ × ℕ
clock_at k age_ms =
    let total_milliseconds = k.milliseconds + age_ms in
    (
      checked u32_max (k.unix_seconds + total_milliseconds / 1000 % 2 ^ 32),
      total_milliseconds % 1000,
    )

-- The request in the cache, with the time at which it came.
abbrev request_of : CanCache → Option (ℕ × ℕ)
request_of c = elim c.time_request.value [
  | none ↦ none
  | some id ↦ Option.map (λ at. (id, at)) (received_at c.time_request)
]

abbrev is_last : Option (ℕ × ℕ) → ℕ → ℕ → Bool
is_last none id at = false
is_last (some (id', at')) id at = (id' == id) && (at' == at)

module _ ⦃ch : Channels⦄ where
  open ch use {try_send}

  -- The end of a round of `gnss_time_response_task`, for a request that has no answer yet.
  abbrev answer_time :
      GnssClock
      → Option (ℕ × ℕ)
      → ch.Channel CanTxMessage
      → ℕ
      → ℕ
      → ℕ
      → GnssClock × Option (ℕ × ℕ) × ch.Channel CanTxMessage
  answer_time k last can_tx id at now_ms =
      let age_ms = now_ms - k.updated_at_ms in
      let (seconds, milliseconds) = clock_at k age_ms in
      if not k.valid
      then (k, last, can_tx)
      else if ltb 3000 age_ms
      then (clock_invalid k, last, can_tx)
      else elim seconds [
        | none ↦ (clock_invalid k, last, can_tx)
        | some unix_seconds ↦
            elim (try_send can_tx (
              time_response (record {
                request_id = id;
                source = TimeSource.gnss;
                unix_seconds = unix_seconds;
                milliseconds = milliseconds;
              }))) [ some q ↦ (k, some (id, at), q) | none ↦ (k, last, can_tx) ]
      ]

  -- A round of `gnss_time_response_task`: the clock, the request that was answered last, and the queue.
  abbrev pub gnss_time_response :
      CanCache
      → GnssClock
      → Option (ℕ × ℕ)
      → ch.Channel CanTxMessage
      → ℕ
      → GnssClock × Option (ℕ × ℕ) × ch.Channel CanTxMessage
  gnss_time_response c k last can_tx now_ms = elim (request_of c) [
    | none ↦ (k, last, can_tx)
    | some (id, at) ↦
        if is_last last id at then (k, last, can_tx) else answer_time k last can_tx id at now_ms
  ]
