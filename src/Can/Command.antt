-- ===== src/Can/Command.antt =====
-- can/command.rs: the commands that wait for the mission's answer, and the answers that are replayed.
-- An array of options is a list of 16 options; a pending entry is its request.
pub mod Slots
pub mod Cached
pub mod Results
pub mod View
pub mod Invariant
mod Tests
use l_comboard.Base.{
  ℕ, zero, suc, ◌+◌, ◌%◌, List, [], ◌∷◌, Bool, true, false, ◌&&◌, Option, none, some, ◌==◌,
  if◌then◌else◌, set, replicate,
}
use mathlib.Core.Option
use l_comboard.Can.Protocol.CommandEnums.{is_final}
use l_comboard.Can.Protocol.Messages.{GenericCommandRequest, CommandResult}

pub record CachedEntry : Type 0 where
  pub request : GenericCommandRequest
  pub result : CommandResult

pub record TransactionTracker : Type 0 where
  pub pending : List (Option GenericCommandRequest)
  pub results : List (Option CachedEntry)
  pub next_result : ℕ

pub data RegisterResult : Type 0 where
  forward : RegisterResult
  duplicate_pending : RegisterResult
  replay : CommandResult → RegisterResult
  protocol_error : RegisterResult
  busy : RegisterResult

-- `==` on requests
abbrev pub same_bytes : List ℕ → List ℕ → Bool
same_bytes [] [] = true
same_bytes (x ∷ xs) (y ∷ ys) = x == y && same_bytes xs ys
same_bytes _ _ = false

pub same_request : GenericCommandRequest → GenericCommandRequest → Bool
same_request a b =
    a.transaction_id == b.transaction_id && (a.command == b.command && same_bytes a.args b.args)

-- `pending.iter().flatten().find(…)` by the transaction
pub pending_of : ℕ → List (Option GenericCommandRequest) → Option GenericCommandRequest
pending_of id [] = none
pending_of id (none ∷ ps) = pending_of id ps
pending_of id (some p ∷ ps) = if p.transaction_id == id then some p else pending_of id ps

-- `results.iter().flatten().find(…)` by the transaction
pub cached_of : ℕ → List (Option CachedEntry) → Option CachedEntry
cached_of id [] = none
cached_of id (none ∷ cs) = cached_of id cs
cached_of id (some c ∷ cs) = if c.request.transaction_id == id then some c else cached_of id cs

-- `results.iter().flatten().find(…)` by the whole request
pub cached_request : GenericCommandRequest → List (Option CachedEntry) → Option CachedEntry
cached_request r [] = none
cached_request r (none ∷ cs) = cached_request r cs
cached_request r (some c ∷ cs) = if same_request c.request r then some c else cached_request r cs

-- The first free slot is filled, if there is one.
pub occupy :
    GenericCommandRequest
    → List (Option GenericCommandRequest)
    → Option (List (Option GenericCommandRequest))
occupy r [] = none
occupy r (none ∷ ps) = some (some r ∷ ps)
occupy r (some p ∷ ps) = Option.map (λ qs. some p ∷ qs) (occupy r ps)

-- `pending.iter().position(…)` by transaction and command, with the request that stands there
pub position : ℕ → ℕ → List (Option GenericCommandRequest) → Option (ℕ × GenericCommandRequest)
position id command [] = none
position id command (none ∷ ps) =
    Option.map (λ found. (suc found.0, found.1)) (position id command ps)
position id command (some p ∷ ps) =
    if p.transaction_id == id && p.command == command
    then some (0, p)
    else Option.map (λ found. (suc found.0, found.1)) (position id command ps)

-- The first cached entry of the request's transaction and command gets the result, if there is one.
pub amend :
    GenericCommandRequest
    → CommandResult
    → List (Option CachedEntry)
    → Option (List (Option CachedEntry))
amend r result [] = none
amend r result (none ∷ cs) = Option.map (λ ds. none ∷ ds) (amend r result cs)
amend r result (some c ∷ cs) =
    if c.request.transaction_id == r.transaction_id && c.request.command == r.command
    then some (some (record c { result = result }) ∷ cs)
    else Option.map (λ ds. some c ∷ ds) (amend r result cs)

pub new : TransactionTracker
new = record { pending = replicate 16 none; results = replicate 16 none; next_result = 0 }

-- A pending transaction that is registered again.
abbrev register_pending :
    TransactionTracker → GenericCommandRequest → GenericCommandRequest → RegisterResult
register_pending t entry request =
    if same_request entry request
    then elim (cached_request request t.results) [
      | none ↦ duplicate_pending
      | some cached ↦ replay cached.result
    ]
    else protocol_error

-- A transaction with a cached result that is registered again.
abbrev register_cached : CachedEntry → GenericCommandRequest → RegisterResult
register_cached entry request =
    if same_request entry.request request then replay entry.result else protocol_error

pub register : TransactionTracker → GenericCommandRequest → TransactionTracker × RegisterResult
register t request = elim (pending_of request.transaction_id t.pending) [
  | some entry ↦ (t, register_pending t entry request)
  | none ↦ elim (cached_of request.transaction_id t.results) [
    | some entry ↦ (t, register_cached entry request)
    | none ↦ elim (occupy request t.pending) [
      | none ↦ (t, busy)
      | some pending ↦ (record t { pending = pending }, forward)
    ]
  ]
]

-- The result is stored: in the entry of its request, or over the oldest entry.
pub store : TransactionTracker → GenericCommandRequest → CommandResult → TransactionTracker
store t request result = elim (amend request result t.results) [
  | some results ↦ record t { results = results }
  | none ↦ record t {
    results = set t.results t.next_result (some (record { request = request; result = result }));
    next_result = (t.next_result + 1) % 16;
  }
]

pub apply_result : TransactionTracker → CommandResult → TransactionTracker × Bool
unfolding store
apply_result t result = elim (position result.transaction_id result.command t.pending) [
  | none ↦ (t, false)
  | some (index, request) ↦
      let t' = store t request result in
      if is_final result.phase
      then (record t' { pending = set t'.pending index none }, true)
      else (t', true)
]

pub pending_count : TransactionTracker → ℕ
pending_count t = count t.pending
  where
    count : List (Option GenericCommandRequest) → ℕ
    count [] = 0
    count (none ∷ ps) = count ps
    count (some p ∷ ps) = suc (count ps)
