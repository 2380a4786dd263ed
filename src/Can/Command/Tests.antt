-- ===== src/Can/Command/Tests.antt =====
-- A command that is forwarded, answered twice and asked for again.
use mathlib.Core.Path.{subst}
use l_comboard.Base.{
  ℕ, ◌≡◌, ◌≢◌, ◌⊎◌, refl, ap, List, [], ◌∷◌, true, some, none, arith, replicate, All,
}
use l_comboard.Can.Protocol.CommandEnums.{CommandPhase, CommandReason}
use l_comboard.Can.Protocol.Messages.{GenericCommandRequest, CommandResult}
use l_comboard.Can.Command.{
  TransactionTracker, forward, replay, protocol_error, new, register, apply_result, pending_of,
  store, cached_of, occupy, position, amend, pending_count,
}
use l_comboard.Can.Command.Invariant.{IsValid, new-IsValid, register-IsValid}
use l_comboard.Can.Command.View.{
  Op, registers, applies, run, GoesOn, run-IsValid, register-run, register-apply_result,
}

abbrev request : ℕ → ℕ → GenericCommandRequest
request transaction_id command = record {
  transaction_id = transaction_id;
  command = command;
  args = replicate 6 0;
}

abbrev answer : CommandPhase → CommandResult
answer phase = record {
  transaction_id = 7;
  command = 0x13;
  phase = phase;
  reason = CommandReason.none_given;
  detail = 0;
}

-- The tracker that waits for the answer to the request.
abbrev waiting : TransactionTracker
waiting = record new { pending = some (request 7 0x13) ∷ replicate 15 none }

forwarded : register new (request 7 0x13) ≡ (waiting, forward)
unfolding register new pending_of cached_of occupy
forwarded = refl

waiting-IsValid : IsValid waiting
waiting-IsValid =
    subst (λ t. IsValid t) (ap (λ out. out.0) forwarded)
      (register-IsValid new (request 7 0x13) new-IsValid)

-- The request again, a first answer, another request.
abbrev history : List Op
history =
    registers (request 7 0x13)
    ∷ applies (answer CommandPhase.accepted)
    ∷ registers (request 8 1)
    ∷ []

run-IsValid_example : IsValid (run new history)
run-IsValid_example = run-IsValid new history new-IsValid

history-GoesOn : All (GoesOn (request 7 0x13)) history
history-GoesOn = ground arith

register-run_example :
    let (after, reply) = register (run waiting history) (request 7 0x14) in
    (after ≡ run waiting history)
    × (reply ≢ forward)
    × ((request 7 0x13 ≡ request 7 0x14) ⊎ (reply ≡ protocol_error))
register-run_example =
    register-run new waiting (request 7 0x13) history (request 7 0x14) new-IsValid forwarded
      history-GoesOn refl

abbrev answered : TransactionTracker
answered = (apply_result waiting (answer CommandPhase.completed)).0

taken : apply_result waiting (answer CommandPhase.completed) ≡ (answered, true)
unfolding apply_result store position amend new
taken = refl

asked : pending_of 7 waiting.pending ≡ some (request 7 0x13)
unfolding pending_of
asked = refl

register-apply_result_example :
    ((request 7 0x13 ≡ request 7 0x13)
      × (register answered (request 7 0x13) ≡ (answered, replay (answer CommandPhase.completed))))
    ⊎ ((request 7 0x13 ≢ request 7 0x13)
        × (register answered (request 7 0x13) ≡ (answered, protocol_error)))
register-apply_result_example =
    register-apply_result waiting answered (answer CommandPhase.completed) (request 7 0x13)
      (request 7 0x13) waiting-IsValid taken asked refl

one_waits : pending_count waiting ≡ 1
unfolding pending_count
one_waits = refl
