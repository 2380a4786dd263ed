-- ===== src/Can/Recovery/Gap.antt =====
-- can/recovery.rs: a transfer up to a gap, and where it is to be resumed.
use l_comboard.Base.{ℕ, ◌+◌, ◌%◌, ◌≡◌, List, some, length}
use l_comboard.Can.Protocol.Messages.{RecoveryLogData}
use l_comboard.Can.Recovery.{RecoveryAssembler}
use l_comboard.Can.Recovery.Transfer.{log_bytes}

-- The assembler behind some fragments: the number it waits for, and its place in the log.
record Fed (a : RecoveryAssembler) (n : ℕ) (fs : List RecoveryLogData) (b : RecoveryAssembler)
    : Type 0 where
  place : b.offset + b.data_length ≡ a.offset + a.data_length + length (log_bytes fs)
  next : b.expected_sequence ≡ some ((n + length fs) % 256)
