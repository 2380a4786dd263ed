-- ===== src/Board/Invariant.antt =====
-- state.rs and the tasks: what holds of the shared state between the steps of the tasks.
pub mod Received
pub mod Commands
pub mod Transmit
use l_comboard.Base.{
  ℕ, ◌≡◌, ◌≤◌, refl, Bool, true, false, Option, none, some, if◌then◌else◌, arith, List, [], ◌∷◌,
  length,
}
use l_comboard.Can.Protocol.RecoveryEnums.{RecoverySource}
use l_comboard.Can.Protocol.Messages.{CommandResult}
use l_comboard.Can.Cache.{CanCache}
use l_comboard.Can.Cache.Held.{IsCache}
use l_comboard.Can.Command.{TransactionTracker, apply_result}
use l_comboard.Can.Command.Invariant.{IsValid}
use l_comboard.Can.Command.View.{applies, step, step-IsValid}
use l_comboard.Can.Recovery.{RecoveryAssembler, set_total_size, finish, abort, begin, take_chunk}
use l_comboard.Can.Recovery.Buffer.{IsBuffer}
use l_comboard.Lora.Periodic.{Shared}
use l_comboard.Lora.Periodic.Sent.{IsShared}
use l_comboard.Board.Channel.{Channels}
use l_comboard.Board.State.{Board}

-- The telemetry in the cache came from frames, the tracker is valid, the assembler has room, and the
-- periodic packets can carry the shared numbers.
abbrev pub IsBoard : ⦃ch : Channels⦄ → Board → Type 0
IsBoard b = IsCache b.cache × IsValid b.tracker × IsBuffer b.assembler × IsShared b.shared

-- The operations of the components, on the parts of a board.
pub apply_result-IsValid :
    (t : TransactionTracker) (result : CommandResult)
    → IsValid t
    → IsValid (apply_result t result).0
unfolding step
apply_result-IsValid t result v = step-IsValid t (applies result) v

pub take_chunk-IsBuffer :
    (a : RecoveryAssembler) (last : Bool) → IsBuffer a → IsBuffer (take_chunk a last).0
unfolding take_chunk
take_chunk-IsBuffer a last v = record { room = omega arith; size = refl }

pub set_total_size-IsBuffer :
    (a : RecoveryAssembler) (t n : ℕ) → IsBuffer a → IsBuffer (set_total_size a t n)
unfolding set_total_size
set_total_size-IsBuffer a t n v = ground (arith, v.room, v.size)

pub abort-IsBuffer : (a : RecoveryAssembler) → IsBuffer (abort a).0
unfolding abort
abort-IsBuffer a = record { room = omega arith; size = refl }

pub begin-IsBuffer : (t : ℕ) (s : RecoverySource) (o n : ℕ) → IsBuffer (begin t s o n)
unfolding begin
begin-IsBuffer t s o n = record { room = omega arith; size = refl }

pub finish-IsBuffer : (a : RecoveryAssembler) (t : ℕ) → IsBuffer a → IsBuffer (finish a t).0
unfolding finish
finish-IsBuffer a t v = ground (arith, v.room, v.size, take_chunk-IsBuffer a true v)

module _ ⦃ch : Channels⦄ where
  -- Both branches of a test, and both cases of an optional value.
  pub if_IsBoard : (c : Bool) (x y : Board) → IsBoard x → IsBoard y → IsBoard (if c then x else y)
  if_IsBoard true x y p q = p
  if_IsBoard false x y p q = q

  pub option_IsBoard {ℓ} :
      {A : Type ℓ} (o : Option A) (x : Board) (f : A → Board)
      → IsBoard x
      → ((a : A) → IsBoard (f a))
      → IsBoard (elim o [ none ↦ x | some a ↦ f a ])
  option_IsBoard none x f p q = p
  option_IsBoard (some a) x f p q = q a
