-- ===== src/Board/Frame.antt =====
-- can/tx.rs: a message becomes a frame, and the outcome of its transmission. The driver is not
-- modelled: what it answers is an argument.
use l_comboard.Base.{ℕ, List, Option, none, some, take}
use l_comboard.Base.Result.{Result, ok, err}
use l_comboard.Can.Protocol.Messages.{CanTxMessage, CanEncodeError}
use l_comboard.Can.Protocol.Encode.{id, encode_payload}

pub data CanFrameError : Type 0 where
  invalid_id : ℕ → CanFrameError
  invalid_payload_length : ℕ → CanFrameError
  invalid_payload : CanEncodeError → CanFrameError

pub data CanTxError : Type 0 where
  frame_create_failed transmit_failed timed_out_unknown_state bus_off : CanTxError

-- The frames of esp-hal: `StandardId::new` and `EspTwaiFrame::new` are parameters.
pub record Frames : Type 1 where
  pub StandardId : Type 0
  pub Frame : Type 0
  pub standard_id : ℕ → Option StandardId
  pub new_frame : StandardId → List ℕ → Option Frame

-- The end of `create_frame_from_message`, for an encoded payload.
unfoldable frame_of : (f : Frames) → ℕ → List ℕ → ℕ → Result CanFrameError f.Frame
frame_of f raw out len = elim (f.standard_id raw) [
  | none ↦ err (invalid_id raw)
  | some i ↦ elim (f.new_frame i (take len out)) [
    | none ↦ err (invalid_payload_length len)
    | some frame ↦ ok frame
  ]
]

pub create_frame_from_message : (f : Frames) → CanTxMessage → Result CanFrameError f.Frame
unfolding frame_of
create_frame_from_message f m =
    let (out, answer) = encode_payload m in
    elim answer [ err e ↦ err (invalid_payload e) | ok len ↦ frame_of f (id m) out len ]

-- What the timeout and the driver give: no answer in time, or the driver's answer.
pub data TwaiAnswer : Type 0 where
  elapsed : TwaiAnswer
  sent : TwaiAnswer
  driver_bus_off : TwaiAnswer
  other_error : TwaiAnswer

pub transmit_frame_with_timeout : TwaiAnswer → Result CanTxError (Unit {0})
transmit_frame_with_timeout sent = ok tt
transmit_frame_with_timeout driver_bus_off = err bus_off
transmit_frame_with_timeout other_error = err transmit_failed
transmit_frame_with_timeout elapsed = err timed_out_unknown_state

-- The driver is asked only for a frame; its answer is `answer` then.
pub transmit_message_with_timeout :
    Frames → CanTxMessage → TwaiAnswer → Result CanTxError (Unit {0})
unfolding transmit_frame_with_timeout create_frame_from_message
transmit_message_with_timeout f m answer = elim (create_frame_from_message f m) [
  | err e ↦ err frame_create_failed
  | ok frame ↦ transmit_frame_with_timeout answer
]
