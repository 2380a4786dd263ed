-- ===== src/Board/Refused.antt =====
-- tasks/can_communication.rs: a frame that does not decode changes nothing but the diagnostics.
use l_comboard.Base.{
  ℕ, ◌≡◌, ◌≢◌, refl, ap, ◌∙◌, false, Option, none, some, List, ◌==◌, ==_iff, Bool-cases, inl, inr,
}
use l_comboard.Base.Result.{err}
use l_comboard.Can.Protocol.Messages.{CanDecodeError, CanTxMessage}
use l_comboard.Can.Protocol.Decode.{decode_standard}
use l_comboard.Can.Cache.{CanCache}
use l_comboard.Can.Command.{TransactionTracker}
use l_comboard.Can.Recovery.{RecoverySession, RecoveryAssembler}
use l_comboard.Board.Channel.{Channels}
use l_comboard.Board.Downlink.{Downlink, increment}
use l_comboard.Board.State.{Board, RawCanRecord}
use l_comboard.Board.Received.{keep_raw, log_raw, on_decoded, on_standard, handle_received_frame}

eq_false : (a b : ℕ) → a ≢ b → (a == b) ≡ false
eq_false a b h = elim (Bool-cases (a == b)) [ inl e ↦ absurd (h ((==_iff a b).0 e)) | inr e ↦ e ]

module _ ⦃ch : Channels⦄ where
  -- What the commands, the transfer of a log and the downlink are made of.
  abbrev pub Work : Type 0
  Work =
      CanCache
      × TransactionTracker
      × RecoverySession
      × RecoveryAssembler
      × Downlink
      × ch.Channel CanTxMessage
      × ch.Channel CanTxMessage

  abbrev pub work : Board → Work
  work b = (b.cache, b.tracker, b.session, b.assembler, b.downlink, b.can_tx, b.can_safety_tx)

  -- The work is untouched, and the error is counted.
  abbrev pub IsRefused : Board → Board → Type 0
  IsRefused b b' =
      (work b' ≡ work b) × (b'.counters.can_rx_error ≡ increment b.counters.can_rx_error)

  kept_raw :
      (b : Board) (o : Option (ch.Channel RawCanRecord))
      → (work (keep_raw b o) ≡ work b)
        × ((keep_raw b o).counters.can_rx_error ≡ b.counters.can_rx_error)
  kept_raw b none = (refl, refl)
  kept_raw b (some q) = (refl, refl)

  log_raw_lem :
      (b : Board) (id : ℕ) (xs : List ℕ) (at : ℕ)
      → (work (log_raw b id xs at) ≡ work b)
        × ((log_raw b id xs at).counters.can_rx_error ≡ b.counters.can_rx_error)
  unfolding log_raw
  log_raw_lem b id xs at = kept_raw b (ch.try_send b.raw_can_log _)

  on_decoded_lem :
      (b : Board) (id at : ℕ) (previous : Option ℕ) (e : CanDecodeError)
      → IsRefused b (on_decoded b id at previous (err e)).0
  unfolding on_decoded
  on_decoded_lem b id at previous e = elim (Bool-cases (id == 0x102)) [
    | inl t ↦ rw (t, on_decoded) (refl, refl)
    | inr t ↦ rw (t, on_decoded) (refl, refl)
  ]

  -- A frame whose identifier is extended, or which does not decode and is neither a recovery mode
  -- command nor a device health frame, leaves the cache, the commands, the transfer, the downlink and
  -- the CAN queues as they are, and is counted as an error.
  pub handle_received_frame-IsRefused :
      (b : Board) (id : ℕ) (xs : List ℕ) (at : ℕ) (previous : Option ℕ) (e : CanDecodeError)
      → id ≢ 0x014
      → id ≢ 0x10b
      → decode_standard id xs ≡ err e
      → IsRefused b (handle_received_frame b none xs at previous).0
        × IsRefused b (handle_received_frame b (some id) xs at previous).0
  unfolding handle_received_frame on_standard
  handle_received_frame-IsRefused b id xs at previous e p q h =
      let (same, count) = log_raw_lem b id xs at in
      let (kept, counted) = on_decoded_lem (log_raw b id xs at) id at previous e in
      (
        (refl, refl),
        rw (eq_false id 0x014 p, eq_false id 0x10b q, h, on_standard)
            (kept ∙ same, counted ∙ ap increment count),
      )
