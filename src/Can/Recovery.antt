-- ===== src/Can/Recovery.antt =====
-- can/recovery.rs: a recovery command from its request to its last status (`RecoverySession`), and the
-- log fragments of 6 bytes joined to chunks of 16 (`RecoveryAssembler`). The array `data` of an
-- assembler, 16 bytes of which the first `data_length` count, is a list.
pub mod Session
pub mod Buffer
pub mod Stream
pub mod Push
pub mod Transfer
pub mod Gap
mod Tests
use Prim.Native.Nat.{◌<◌}
use l_comboard.Base.{
  ℕ, zero, suc, ◌+◌, ◌-◌, ◌%◌, List, [], ◌∷◌, ◌++◌, Bool, true, false, not, ◌&&◌, ◌||◌, Option,
  none, some, ◌==◌, leb, ltb, if◌then◌else◌, min, take, drop, replicate, length,
}
use l_comboard.Base.Checked.{saturating, u32_max}
use l_comboard.Base.Result.{Result, ok, err}
use l_comboard.Can.Protocol.CommandEnums.{CommandPhase, CommandReason}
use l_comboard.Can.Protocol.RecoveryEnums.{
  RecoveryOpcode, RecoverySource, RecoveryStatusCode, recovery_opcode_to_u8, recovery_source_to_u8,
}
use l_comboard.Can.Protocol.Messages.{CommandResult, RecoveryStatus, RecoveryLogData}

pub record PendingRecovery : Type 0 where
  pub transaction_id : ℕ
  pub command : ℕ
  pub opcode : RecoveryOpcode
  pub source : RecoverySource

-- `RecoverySession` is its field `pending`.
abbrev pub RecoverySession : Type 0
RecoverySession = Option PendingRecovery

-- `==` on operations and on sources
abbrev pub same_opcode : RecoveryOpcode → RecoveryOpcode → Bool
same_opcode RecoveryOpcode.wake RecoveryOpcode.wake = true
same_opcode RecoveryOpcode.start_log_dump RecoveryOpcode.start_log_dump = true
same_opcode RecoveryOpcode.stop_log_dump RecoveryOpcode.stop_log_dump = true
same_opcode RecoveryOpcode.exit_recovery RecoveryOpcode.exit_recovery = true
same_opcode _ _ = false

abbrev pub same_source : RecoverySource → RecoverySource → Bool
same_source RecoverySource.internal_flash RecoverySource.internal_flash = true
same_source RecoverySource.mission_sd_latest_flight RecoverySource.mission_sd_latest_flight = true
same_source _ _ = false

unfoldable pub start : RecoverySession → PendingRecovery → RecoverySession × Bool
start (some p) pending = (some p, false)
start none pending = (some pending, true)

pub cancel : RecoverySession → ℕ → RecoverySession
cancel none transaction_id = none
cancel (some p) transaction_id = if p.transaction_id == transaction_id then none else some p

-- The phase and the reason that a status stands for, and whether it is the last.
pub outcome : RecoveryOpcode → RecoveryStatusCode → CommandPhase × CommandReason × Bool
outcome o RecoveryStatusCode.dumping = (CommandPhase.accepted, CommandReason.none_given, false)
outcome o RecoveryStatusCode.ready = (CommandPhase.completed, CommandReason.none_given, true)
outcome o RecoveryStatusCode.complete = (CommandPhase.completed, CommandReason.none_given, true)
outcome RecoveryOpcode.stop_log_dump RecoveryStatusCode.aborted =
    (CommandPhase.completed, CommandReason.none_given, true)
outcome o RecoveryStatusCode.busy = (CommandPhase.rejected, CommandReason.busy, true)
outcome o RecoveryStatusCode.invalid_state =
    (CommandPhase.rejected, CommandReason.invalid_state, true)
outcome o RecoveryStatusCode.invalid_argument =
    (CommandPhase.rejected, CommandReason.invalid_argument, true)
outcome o RecoveryStatusCode.source_unavailable =
    (CommandPhase.failed, CommandReason.device_unavailable, true)
outcome o RecoveryStatusCode.io_error = (CommandPhase.failed, CommandReason.persistence_error, true)
outcome o RecoveryStatusCode.aborted =
    (CommandPhase.failed, CommandReason.interrupted_by_emergency, true)
outcome o RecoveryStatusCode.internal_error =
    (CommandPhase.failed, CommandReason.internal_error, true)

unfoldable pub apply_status :
    RecoverySession → RecoveryStatus → RecoverySession × Option CommandResult
apply_status none status = (none, none)
apply_status (some p) status =
    if not (status.transfer_id == p.transaction_id)
      || not (same_source status.source p.source)
      || not (same_opcode status.opcode p.opcode)
    then (some p, none)
    else let (phase, reason, is_last) = outcome p.opcode status.status in
      (
        (if is_last then none else some p),
        some (record {
          transaction_id = p.transaction_id;
          command = p.command;
          phase = phase;
          reason = reason;
          detail = status.total_size;
        }),
      )

pub active_source : RecoverySession → Option RecoverySource
active_source (some p) = some p.source
active_source none = none

unfoldable pub fail : RecoverySession → CommandReason → ℕ → RecoverySession × Option CommandResult
fail none reason detail = (none, none)
fail (some p) reason detail = (
  none,
  some (record {
    transaction_id = p.transaction_id;
    command = p.command;
    phase = CommandPhase.failed;
    reason = reason;
    detail = detail;
  }),
)

unfoldable pub fail_matching :
    RecoverySession → ℕ → CommandReason → ℕ → RecoverySession × Option CommandResult
unfolding fail
fail_matching none transaction_id reason detail = (none, none)
fail_matching (some p) transaction_id reason detail =
    if p.transaction_id == transaction_id then fail (some p) reason detail else (some p, none)

unfoldable pub interrupt_with_stop :
    RecoverySession → PendingRecovery → RecoverySession × Option CommandResult
unfolding fail
interrupt_with_stop s pending = (some pending, (fail s CommandReason.interrupted_by_emergency 0).1)

pub record RecoveryChunk : Type 0 where
  pub transfer_id : ℕ
  pub source : RecoverySource
  pub offset : ℕ
  pub data_length : ℕ
  pub bytes : List ℕ
  pub end_of_file : Bool

pub record RecoveryResume : Type 0 where
  pub transfer_id : ℕ
  pub source : RecoverySource
  pub offset : ℕ

pub data RecoveryAssemblyError : Type 0 where
  not_started wrong_transfer sequence_gap : RecoveryAssemblyError

pub record RecoveryAssembler : Type 0 where
  pub active : Bool
  pub transfer_id : ℕ
  pub source : RecoverySource
  pub offset : ℕ
  pub total_size : Option ℕ
  pub expected_sequence : Option ℕ
  pub bytes : List ℕ
  pub data_length : ℕ

-- `u32::saturating_add`
abbrev pub sat_add : ℕ → ℕ → ℕ
sat_add a b = saturating u32_max (a + b)

unfoldable pub idle : RecoveryAssembler
idle = record {
  active = false;
  transfer_id = 0;
  source = RecoverySource.internal_flash;
  offset = 0;
  total_size = none;
  expected_sequence = none;
  bytes = replicate 16 0;
  data_length = 0;
}

-- The method `start` of the assembler.
unfoldable pub begin : ℕ → RecoverySource → ℕ → ℕ → RecoveryAssembler
begin transfer_id source offset requested_length = record {
  active = true;
  transfer_id = transfer_id;
  source = source;
  offset = offset;
  total_size = if requested_length == 0 then none else some (sat_add offset requested_length);
  expected_sequence = none;
  bytes = replicate 16 0;
  data_length = 0;
}

unfoldable pub set_total_size : RecoveryAssembler → ℕ → ℕ → RecoveryAssembler
set_total_size a transfer_id total_size =
    if a.active && a.transfer_id == transfer_id && not (total_size == 0)
    then record a {
      total_size = some (elim a.total_size [ none ↦ total_size | some end ↦ min end total_size ]);
    }
    else a

pub reached_end : RecoveryAssembler → Bool
reached_end a = elim a.total_size [
  | none ↦ false
  | some total_size ↦ leb total_size (sat_add a.offset a.data_length)
]

unfoldable pub take_chunk : RecoveryAssembler → Bool → RecoveryAssembler × RecoveryChunk
take_chunk a end_of_file = (
  record a {
    offset = sat_add a.offset a.data_length;
    bytes = replicate 16 0;
    data_length = 0;
    active = a.active && not end_of_file;
  },
  record {
    transfer_id = a.transfer_id;
    source = a.source;
    offset = a.offset;
    data_length = a.data_length;
    bytes = a.bytes;
    end_of_file = end_of_file;
  },
)

-- `self.data[at..at + n].copy_from_slice(&from[..n])`
abbrev pub overwrite : List ℕ → ℕ → ℕ → List ℕ → List ℕ
overwrite bytes at n from = take at bytes ++ (take n from ++ drop (at + n) bytes)

-- One round of the loop of `push`: as much of the rest of the fragment as there is room for is
-- copied, and a full buffer is emitted. `left` bytes of the fragment are to be read, from `rest` on.
abbrev pub round :
    RecoveryAssembler
    → Option RecoveryChunk
    → ℕ
    → List ℕ
    → RecoveryAssembler × Option RecoveryChunk × ℕ × List ℕ
round a emitted left rest =
    let copied = min (16 - a.data_length) left in
    let b = record a {
      bytes = overwrite a.bytes a.data_length copied rest;
      data_length = a.data_length + copied;
    } in
    if b.data_length == 16
    then (let (c, chunk) = take_chunk b (reached_end b && left - copied == 0) in
        (c, some chunk, left - copied, drop copied rest))
    else (b, emitted, left - copied, drop copied rest)

-- `while source < fragment_length`, with fuel for the rounds. A round copies at least one byte of at
-- most 6, so 6 rounds are enough.
pub copy :
    ℕ
    → RecoveryAssembler
    → Option RecoveryChunk
    → ℕ
    → List ℕ
    → RecoveryAssembler × Option RecoveryChunk × ℕ
copy zero a emitted left rest = (a, emitted, left)
copy (suc fuel) a emitted zero rest = (a, emitted, zero)
copy (suc fuel) a emitted (suc left) rest =
    let (b, emitted', left', rest') = round a emitted (suc left) rest in
    copy fuel b emitted' left' rest'

-- How many bytes of a fragment belong to the log.
pub fragment_length : RecoveryAssembler → ℕ
fragment_length a = elim a.total_size [
  | none ↦ 6
  | some total_size ↦ min (total_size - sat_add a.offset a.data_length) 6
]

-- The end of `push`: a log that ends inside the buffer is emitted.
pub settle : RecoveryAssembler → Option RecoveryChunk → RecoveryAssembler × Option RecoveryChunk
settle a (some chunk) = (a, some chunk)
settle a none =
    if reached_end a then (let (b, chunk) = take_chunk a true in (b, some chunk)) else (a, none)

abbrev pub expect_next : RecoveryAssembler → RecoveryLogData → RecoveryAssembler
expect_next a fragment = record a { expected_sequence = some ((fragment.sequence + 1) % 256) }

-- `push` once the fragment is accepted.
pub accept : RecoveryAssembler → RecoveryLogData → RecoveryAssembler × Option RecoveryChunk
unfolding settle
accept a fragment =
    let a' = expect_next a fragment in
    let (b, emitted, left) = copy 6 a' none (fragment_length a') fragment.fragment in
    settle b emitted

abbrev pub is_gap : Option ℕ → ℕ → Bool
is_gap none sequence = false
is_gap (some expected) sequence = not (sequence == expected)

unfoldable pub push :
    RecoveryAssembler
    → RecoveryLogData
    → RecoveryAssembler × Result RecoveryAssemblyError (Option RecoveryChunk)
push a fragment =
    if not a.active
    then (a, err not_started)
    else if not (fragment.transfer_id == a.transfer_id)
    then (a, err wrong_transfer)
    else if is_gap a.expected_sequence fragment.sequence
    then (
      record a {
        offset = sat_add a.offset a.data_length;
        bytes = replicate 16 0;
        data_length = 0;
        active = false;
      },
      err sequence_gap,
    )
    else let (b, emitted) = accept a fragment in (b, ok emitted)

unfoldable pub finish : RecoveryAssembler → ℕ → RecoveryAssembler × Option RecoveryChunk
finish a transfer_id =
    if not a.active || not (a.transfer_id == transfer_id)
    then (a, none)
    else let (b, chunk) = take_chunk a true in (b, some chunk)

pub stop : RecoveryAssembler → RecoveryAssembler × Option RecoveryChunk
unfolding finish
stop a = if not a.active then (a, none) else finish a a.transfer_id

unfoldable pub abort : RecoveryAssembler → RecoveryAssembler × Option RecoveryResume
abort a = (
  record a { active = false; bytes = replicate 16 0; data_length = 0 },
  (if a.transfer_id == 0
      then none
      else some (record {
        transfer_id = a.transfer_id;
        source = a.source;
        offset = sat_add a.offset a.data_length;
      })),
)
