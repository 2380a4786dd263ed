-- ===== src/Can/Recovery/Tests.antt =====
-- A log of three fragments, and one with a gap.
use l_comboard.Base.{
  ℕ, ◌≡◌, refl, List, [], ◌∷◌, ◌++◌, true, false, Option, some, none, arith, replicate, inr,
}
use l_comboard.Base.Result.{ok}
use l_comboard.Can.Protocol.RecoveryEnums.{RecoveryOpcode, RecoverySource, RecoveryStatusCode}
use l_comboard.Can.Protocol.Messages.{RecoveryStatus, RecoveryLogData}
use l_comboard.Can.Recovery.{
  PendingRecovery, RecoveryAssembler, RecoveryChunk, start, begin, push, finish, copy,
  set_total_size,
}
use l_comboard.Can.Recovery.Buffer.{IsBuffer, held, chunk_bytes}
use l_comboard.Can.Recovery.Session.{Concerns}
use l_comboard.Can.Recovery.Stream.{Copied, copy-Copied}
use l_comboard.Can.Recovery.Push.{Continues, before_end, push_stream}
use l_comboard.Can.Recovery.Transfer.{feed, InSequence, log_bytes, feed-begin}

abbrev dump : PendingRecovery
dump = record {
  transaction_id = 9;
  command = 0x60;
  opcode = RecoveryOpcode.start_log_dump;
  source = RecoverySource.internal_flash;
}

abbrev status : ℕ → RecoveryStatus
status transfer_id = record {
  opcode = RecoveryOpcode.start_log_dump;
  transfer_id = transfer_id;
  status = RecoveryStatusCode.complete;
  source = RecoverySource.internal_flash;
  total_size = 4096;
}

status-Concerns : Concerns (status 9) dump
status-Concerns = (refl, refl, refl)

status-foreign : ¬ Concerns (status 10) dump
status-foreign = ground arith

abbrev fragment : ℕ → RecoveryLogData
fragment sequence = record {
  transfer_id = 9;
  sequence = sequence;
  fragment = 1 ∷ 2 ∷ 3 ∷ 4 ∷ 5 ∷ sequence ∷ [];
}

-- An assembler that holds 14 bytes and expects the fragment 3.
abbrev assembler : RecoveryAssembler
assembler = record {
  active = true;
  transfer_id = 9;
  source = RecoverySource.internal_flash;
  offset = 32;
  total_size = none;
  expected_sequence = some 3;
  bytes = replicate 16 0;
  data_length = 14;
}

assembler-IsBuffer : IsBuffer assembler
assembler-IsBuffer = record { room = omega arith; size = refl }

copy-Copied_example :
    Copied assembler 6
      (1 ∷ 2 ∷ 3 ∷ 4 ∷ 5 ∷ 6 ∷ [])
      (copy 6 assembler none 6 (1 ∷ 2 ∷ 3 ∷ 4 ∷ 5 ∷ 6 ∷ []))
copy-Copied_example =
    copy-Copied assembler 6 (1 ∷ 2 ∷ 3 ∷ 4 ∷ 5 ∷ 6 ∷ []) assembler-IsBuffer (omega arith)
      (omega arith)

-- The log ends at 48, behind two bytes of the fragment.
abbrev ending : RecoveryAssembler
ending = record assembler { total_size = some 48 }

ending-Continues : Continues ending (fragment 3)
ending-Continues = record { active = refl; transfer = refl; next = inr refl; whole = refl }

push_stream_example :
    let (b, answer) = push ending (fragment 3) in
    (e : Option RecoveryChunk) × (answer ≡ ok e)
    × (chunk_bytes e ++ held b ≡ held ending ++ before_end (some 48) 46 (fragment 3).fragment)
push_stream_example =
    push_stream ending (fragment 3) (record { room = omega arith; size = refl }) (omega arith)
      ending-Continues

abbrev fragments : List RecoveryLogData
fragments = fragment 254 ∷ fragment 255 ∷ fragment 0 ∷ []

fragments-InSequence : InSequence 9 254 fragments
fragments-InSequence = ground arith

feed-begin_example :
    let (b, out) = feed (begin 9 RecoverySource.internal_flash 100 0) fragments in
    out ++ chunk_bytes (finish b 9).1 ≡ log_bytes fragments
feed-begin_example =
    feed-begin 9 100 254 RecoverySource.internal_flash fragments fragments-InSequence

-- The total size of a status bounds an open dump.
bounded : (set_total_size (begin 9 RecoverySource.internal_flash 0 0) 9 40).total_size ≡ some 40
unfolding set_total_size begin
bounded = refl

second_refused : start (some dump) dump ≡ (some dump, false)
unfolding start
second_refused = refl
