-- ===== src/Board/Answers/Local.antt =====
-- tasks/lora_task.rs: every command to the board itself is answered.
use l_comboard.Base.{
  ℕ, ◌≡◌, ◌⊎◌, inl, inr, refl, Bool, true, false, not, ◌&&◌, none, some, List, arith, Option-cases,
  Bool-cases, if◌then◌else◌,
}
use l_comboard.Can.Protocol.CommandEnums.{CommandPhase, CommandReason}
use l_comboard.Can.Protocol.RecoveryEnums.{RecoveryOpcode, RecoverySource}
use l_comboard.Can.Recovery.{PendingRecovery, RecoverySession, start, interrupt_with_stop, fail}
use l_comboard.Lora.Payload.Packets
use l_comboard.Lora.Scheduler.{LoRaTxSource}
use l_comboard.Lora.Uplink.{LocalCommand, local_command}
use l_comboard.Lora.Uplink.Wire.{IsUplink}
use l_comboard.Board.Channel.{Channels, IsFifo}
use l_comboard.Board.Downlink.{Downlink, answer, queue_command_result}
use l_comboard.Board.State.{Board}
use l_comboard.Board.Commands.{
  LocalAction, start_logging, stop_logging, gnss_on, gnss_off, wake, dump_internal_flash,
  dump_mission_sd, stop_dump, exit_recovery, decode_action, tell_interrupted, claim, prepare,
  request_recovery, process_recovery, act, perform, process_local, is_dump, any_set,
}
use l_comboard.Board.Answers.{IsResult, Offered, answers, queue_command_result-Offered}

module _ ⦃ch : Channels⦄ where
  -- The answer that a stop gives to the request that it interrupts.
  abbrev pub told : Downlink → RecoverySession → Downlink
  told d none = d
  told d (some p) =
      queue_command_result d (
        answer p.transaction_id p.command CommandPhase.failed
          CommandReason.interrupted_by_emergency)

  -- The last thing that a handler did to the downlink is an answer to its command; before, the downlink
  -- was as the handler found it, or a stop had told the interrupted request.
  abbrev pub Answers : Board → ℕ → ℕ → Downlink → Type 0
  Answers b id command d' =
      (d : Downlink) × (phase : CommandPhase) × (reason : CommandReason) × ((d ≡ b.downlink)
        ⊎ ((command ≡ 0x78) × (d ≡ told b.downlink b.session)))
      × (d' ≡ queue_command_result d (answer id command phase reason))

  plain :
      (b : Board) (id command : ℕ) (phase : CommandPhase) (reason : CommandReason)
      → Answers b id command (queue_command_result b.downlink (answer id command phase reason))
  plain b id command phase reason = (b.downlink, phase, reason, inl refl, refl)

  tell_interrupted-told :
      (b : Board) (s : RecoverySession) (p : PendingRecovery)
      → (tell_interrupted b (interrupt_with_stop s p).1).downlink ≡ told b.downlink s
  unfolding interrupt_with_stop fail
  tell_interrupted-told b none p = refl
  tell_interrupted-told b (some q) p = refl

  started-Answers :
      (b : Board) (x : LocalAction) (o : RecoveryOpcode) (source : RecoverySource) (id command : ℕ)
      (args : List ℕ) (session : RecoverySession) (accepted : Bool)
      → (prepare (record b { session = session }) x id source args).downlink ≡ b.downlink
      → Answers b id command
          (if accepted
            then request_recovery (record b { session = session }) x id command o source args
            else record b {
              session = session;
              downlink =
                  queue_command_result b.downlink
                    (answer id command CommandPhase.rejected CommandReason.busy);
            }).downlink
  unfolding request_recovery
  started-Answers b x o source id command args session true e =
      rw e (plain b id command CommandPhase.accepted CommandReason.none_given)
  started-Answers b x o source id command args session false e =
      plain b id command CommandPhase.rejected CommandReason.busy

  if_Answers :
      (b : Board) (id command : ℕ) (c : Bool) (x y : Board)
      → Answers b id command x.downlink
      → Answers b id command y.downlink
      → Answers b id command (if c then x else y).downlink
  if_Answers b id command true x y h k = h
  if_Answers b id command false x y h k = k

  perform-Answers :
      (b : Board) (x : LocalAction) (id command : ℕ) (args : List ℕ)
      → decode_action command ≡ some x
      → Answers b id command (perform b x id command args).downlink
  unfolding perform process_recovery claim act prepare request_recovery decode_action
  perform-Answers b start_logging id command args e =
      plain b id command CommandPhase.completed CommandReason.none_given
  perform-Answers b stop_logging id command args e =
      plain b id command CommandPhase.completed CommandReason.none_given
  perform-Answers b gnss_on id command args e =
      plain b id command CommandPhase.completed CommandReason.none_given
  perform-Answers b gnss_off id command args e =
      plain b id command CommandPhase.completed CommandReason.none_given
  perform-Answers b wake id command args e =
      started-Answers b wake RecoveryOpcode.wake _ id command args _ (start b.session _).1 refl
  perform-Answers b dump_internal_flash id command args e =
      started-Answers b dump_internal_flash RecoveryOpcode.start_log_dump _ id command args _
        (start b.session _).1 refl
  perform-Answers b dump_mission_sd id command args e =
      started-Answers b dump_mission_sd RecoveryOpcode.start_log_dump _ id command args _
        (start b.session _).1 refl
  perform-Answers b exit_recovery id command args e =
      if_Answers b id command (not b.shared.recovery_beacon_active) _ _
        (plain b id command CommandPhase.rejected CommandReason.invalid_state)
        (started-Answers b exit_recovery RecoveryOpcode.exit_recovery _ id command args _
          (start b.session _).1 refl)
  perform-Answers b stop_dump id command args e = (
    _,
    CommandPhase.accepted,
    CommandReason.none_given,
    inr (ground arith, tell_interrupted-told _ b.session _),
    refl,
  )

  process_local-Answers :
      (b : Board) (id command : ℕ) (args : List ℕ)
      → Answers b id command (process_local b id command args).downlink
  unfolding process_local
  process_local-Answers b id command args = elim (Option-cases (decode_action command)) [
    | inl e ↦
        rw (e, process_local) (plain b id command CommandPhase.rejected CommandReason.not_supported)
    | inr (x, e) ↦ elim (Bool-cases (not (is_dump x) && any_set args)) [
      | inl c ↦
          rw (e, c, process_local)
            (plain b id command CommandPhase.rejected CommandReason.invalid_argument)
      | inr c ↦ rw (e, c, process_local) (perform-Answers b x id command args e)
    ]
  ]

  -- A command to the board that the uplink can carry is always answered, whichever it is and whatever
  -- the board is doing: the answer has its transaction and command, and it is the last in the queue of
  -- the results, in a frame that reads as it, or the queue was full and the drop is counted. Before
  -- it the downlink is what the command found, or, for a stop, that with the answer to the request that the stop
  -- interrupted.
  pub process_local_answered :
      (b : Board) (v : LocalCommand)
      → IsFifo ch
      → IsUplink (local_command v)
      → (d : Downlink) × (phase : CommandPhase) × (reason : CommandReason) × ((d ≡ b.downlink)
          ⊎ ((v.command ≡ 0x78) × (d ≡ told b.downlink b.session)))
        × Offered
            (Packets.command_result (answer v.transaction_id v.command phase reason))
            LoRaTxSource.command_result
            (answers d)
            (answers (process_local b v.transaction_id v.command v.args).downlink)
  process_local_answered b v fifo u =
      let (d, phase, reason, before, e) =
        process_local-Answers b v.transaction_id v.command v.args in
      let r : IsResult (answer v.transaction_id v.command phase reason) =
        ground (arith, u.fields, u.bytes) in
      (d, phase, reason, before, rw e (queue_command_result-Offered d _ fifo r))
