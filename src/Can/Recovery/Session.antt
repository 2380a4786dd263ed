-- ===== src/Can/Recovery/Session.antt =====
-- can/recovery.rs: `RecoverySession::apply_status`.
use l_comboard.Base.{◌≡◌, ◌↔◌, refl, true, none, some, arith, if◌then◌else◌}
use l_comboard.Can.Protocol.CommandEnums.{is_final}
use l_comboard.Can.Protocol.RecoveryEnums.{RecoveryOpcode, RecoverySource, RecoveryStatusCode}
use l_comboard.Can.Protocol.Messages.{CommandResult, RecoveryStatus}
use l_comboard.Can.Recovery.{PendingRecovery, same_opcode, same_source, outcome, apply_status}

same_opcode_iff : (a b : RecoveryOpcode) → (same_opcode a b ≡ true) ↔ (a ≡ b)
same_opcode_iff a b = ground arith

same_source_iff : (a b : RecoverySource) → (same_source a b ≡ true) ↔ (a ≡ b)
same_source_iff a b = ground arith

-- The status speaks of the pending command.
abbrev pub Concerns : RecoveryStatus → PendingRecovery → Type 0
Concerns s p = (s.transfer_id ≡ p.transaction_id) × (s.source ≡ p.source) × (s.opcode ≡ p.opcode)

outcome_last :
    (o : RecoveryOpcode) (c : RecoveryStatusCode)
    → let (phase, reason, is_last) = outcome o c in is_final phase ≡ is_last
unfolding outcome
outcome_last o c = ground arith

-- A status that concerns the pending command is answered under the command's transaction with the
-- size that it reports, and the session ends exactly when the answer is a final one.
pub apply_status_lem :
    (p : PendingRecovery) (s : RecoveryStatus)
    → Concerns s p
    → let (after, answer) = apply_status (some p) s in
      (r : CommandResult) × (answer ≡ some r)
      × (r.transaction_id ≡ p.transaction_id)
      × (r.command ≡ p.command)
      × (r.detail ≡ s.total_size)
      × (after ≡ (if is_final r.phase then none else some p))
unfolding apply_status
apply_status_lem p s c =
    let (phase, reason, is_last) = outcome p.opcode s.status in
    (
      record {
        transaction_id = p.transaction_id;
        command = p.command;
        phase = phase;
        reason = reason;
        detail = s.total_size;
      },
      ground (arith, same_source_iff s.source p.source, same_opcode_iff s.opcode p.opcode),
      refl,
      refl,
      refl,
      ground (
        arith,
        same_source_iff s.source p.source,
        same_opcode_iff s.opcode p.opcode,
        outcome_last p.opcode s.status,
      ),
    )

-- A status that concerns another transfer, or none, is not answered and changes nothing.
pub apply_status_ignored :
    (p : PendingRecovery) (s : RecoveryStatus)
    → ¬ Concerns s p
    → apply_status (some p) s ≡ (some p, none)
unfolding apply_status
apply_status_ignored p s c =
    ground (arith, same_source_iff s.source p.source, same_opcode_iff s.opcode p.opcode)
