-- ===== src/Can/Command/View.antt =====
-- can/command.rs: what a client of the tracker sees over a history of requests and results.
use mathlib.Core.Path.{subst, subst₂}
use mathlib.Core.Option.{some-injective}
use l_comboard.Base.{
  ◌≡◌, ◌≢◌, ◌↔◌, refl, ap, sym, ◌∙◌, List, [], ◌∷◌, true, false, none, some, if◌then◌else◌, arith,
  Bool-cases, Option-cases, inl, inr, ◌⊎◌, All,
}
use l_comboard.Can.Protocol.CommandEnums.{is_final}
use l_comboard.Can.Protocol.Messages.{GenericCommandRequest, CommandResult}
use l_comboard.Can.Command.{
  TransactionTracker, forward, replay, protocol_error, pending_of, cached_of, same_request, occupy,
  register, apply_result,
}
use l_comboard.Can.Command.Slots.{same_request_iff, Occupied, occupy-Occupied}
use l_comboard.Can.Command.Cached.{entry, cached_request-eq}
use l_comboard.Can.Command.Invariant.{IsValid, register-IsValid}
use l_comboard.Can.Command.Results.{Applied, apply_result_cases}

pub data Op : Type 0 where
  registers : GenericCommandRequest → Op
  applies : CommandResult → Op

unfoldable pub step : TransactionTracker → Op → TransactionTracker
step t (registers r) = (register t r).0
step t (applies result) = (apply_result t result).0

pub run : TransactionTracker → List Op → TransactionTracker
run t [] = t
run t (o ∷ os) = run (step t o) os

pub step-IsValid : (t : TransactionTracker) (o : Op) → IsValid t → IsValid (step t o)
unfolding step
step-IsValid t (registers r) v = register-IsValid t r v
step-IsValid t (applies result) v = elim (apply_result_cases t result v) [
  | inl (e, f) ↦ rw (e, step) v
  | inr (r, t', e, p, i, c, a) ↦ rw (e, step) a.valid
]

-- Every history of a valid tracker keeps both arrays of 16 slots with at most one entry for each
-- transaction, and a transaction in both stands there with the same request.
pub run-IsValid : (t : TransactionTracker) (os : List Op) → IsValid t → IsValid (run t os)
unfolding run
run-IsValid t [] v = v
run-IsValid t (o ∷ os) v = run-IsValid (step t o) os (step-IsValid t o v)

-- The operation does not bring the last answer of a transaction.
abbrev pub GoesOn : GenericCommandRequest → Op → Type 0
GoesOn p (registers r) = Unit
GoesOn p (applies result) =
    result.transaction_id ≡ p.transaction_id
    → result.command ≡ p.command
    → is_final result.phase ≡ false

register_keeps :
    (t : TransactionTracker) (r p : GenericCommandRequest)
    → IsValid t
    → pending_of p.transaction_id t.pending ≡ some p
    → pending_of p.transaction_id (register t r).0.pending ≡ some p
unfolding register
register_keeps t r p v h = elim (Option-cases (pending_of r.transaction_id t.pending)) [
  | inr (q, e) ↦ rw (e, register) h
  | inl e ↦ elim (Option-cases (cached_of r.transaction_id t.results)) [
    | inr (c, f) ↦ rw (e, f, register) h
    | inl f ↦ elim (Option-cases (occupy r t.pending)) [
      | inl g ↦ rw (e, f, g, register) h
      | inr (qs, g) ↦
          let o : Occupied r t.pending (some qs) =
            rw g at (occupy-Occupied r t.pending e v.pending_once) in
          rw (e, f, g, register) (ground (arith, o.2 p.transaction_id))
    ]
  ]
]

step_keeps :
    (t : TransactionTracker) (o : Op) (p : GenericCommandRequest)
    → IsValid t
    → GoesOn p o
    → pending_of p.transaction_id t.pending ≡ some p
    → pending_of p.transaction_id (step t o).pending ≡ some p
unfolding step
step_keeps t (registers r) p v g h = register_keeps t r p v h
step_keeps t (applies result) p v g h = elim (apply_result_cases t result v) [
  | inl (e, f) ↦ rw (e, step) h
  | inr (r, t', e, q, i, c, a) ↦ rw (e, step) (ground (arith, a.waiting p.transaction_id))
]

-- Once forwarded, a command keeps its place through every history that does not bring its last
-- answer.
run_keeps :
    (t : TransactionTracker) (os : List Op) (p : GenericCommandRequest)
    → IsValid t
    → All (GoesOn p) os
    → pending_of p.transaction_id t.pending ≡ some p
    → pending_of p.transaction_id (run t os).pending ≡ some p
unfolding run
run_keeps t [] p v g h = h
run_keeps t (o ∷ os) p v g h =
    run_keeps (step t o) os p (step-IsValid t o v) g.1 (step_keeps t o p v g.0 h)

forwarded_waits :
    (t : TransactionTracker) (p : GenericCommandRequest)
    → IsValid t
    → (register t p).1 ≡ forward
    → pending_of p.transaction_id (register t p).0.pending ≡ some p
unfolding register
forwarded_waits t p v = elim (Option-cases (pending_of p.transaction_id t.pending)) [
  | inr (q, e) ↦ rw (e, register) (λ h. ground arith)
  | inl e ↦ elim (Option-cases (cached_of p.transaction_id t.results)) [
    | inr (c, f) ↦ rw (e, f, register) (λ h. ground arith)
    | inl f ↦ elim (Option-cases (occupy p t.pending)) [
      | inl g ↦ rw (e, f, g, register) (λ h. cc)
      | inr (qs, g) ↦
          let o : Occupied p t.pending (some qs) =
            rw g at (occupy-Occupied p t.pending e v.pending_once) in
          rw (e, f, g, register) (λ h. ground (arith, o.2 p.transaction_id))
    ]
  ]
]

register_forward :
    (t t' : TransactionTracker) (p : GenericCommandRequest)
    → IsValid t
    → register t p ≡ (t', forward)
    → (pending_of p.transaction_id t'.pending ≡ some p) × IsValid t'
register_forward t t' p v h =
    let e : (register t p).0 ≡ t' = ap (λ x. x.0) h in
    (
      subst (λ x. pending_of p.transaction_id x.pending ≡ some p) e
          (forwarded_waits t p v (ap (λ x. x.1) h)),
      subst IsValid e (register-IsValid t p v),
    )

-- The answers for a transaction that waits.
register_waiting :
    (t : TransactionTracker) (p r : GenericCommandRequest)
    → pending_of r.transaction_id t.pending ≡ some p
    → ((register t r).0 ≡ t)
      × ((register t r).1 ≢ forward)
      × ((p ≡ r) ⊎ ((register t r).1 ≡ protocol_error))
unfolding register
register_waiting t p r h = ground (arith, same_request_iff p r)

-- A command that a valid tracker forwarded is not forwarded again before its last answer: after any history
-- that does not bring that answer, a request of the transaction changes nothing and is not
-- forwarded, and another command under its identifier is a protocol error.
pub register-run :
    (t t' : TransactionTracker) (p : GenericCommandRequest) (os : List Op)
    (r : GenericCommandRequest)
    → IsValid t
    → register t p ≡ (t', forward)
    → All (GoesOn p) os
    → r.transaction_id ≡ p.transaction_id
    → let (after, answer) = register (run t' os) r in
      (after ≡ run t' os) × (answer ≢ forward) × ((p ≡ r) ⊎ (answer ≡ protocol_error))
register-run t t' p os r v f g i =
    let s = register_forward t t' p v f in
    register_waiting (run t' os) p r (rw i (run_keeps t' os p s.1 g s.0))

-- The answers for a transaction with a cached result, waiting or not.
register_answered :
    (t : TransactionTracker) (r : GenericCommandRequest) (result : CommandResult)
    → IsValid t
    → cached_of r.transaction_id t.results ≡ some (entry r result)
    → ((pending_of r.transaction_id t.pending ≡ none)
        ⊎ (pending_of r.transaction_id t.pending ≡ some r))
    → (q : GenericCommandRequest) → q.transaction_id ≡ r.transaction_id
    → register t q ≡ (t, (if same_request r q then replay result else protocol_error))
unfolding register
register_answered t r result v c p q i = ground (
  arith,
  same_request_iff r q,
  cached_request-eq r (entry r result) t.results v.results_once c refl,
)

answers :
    (t t' : TransactionTracker) (r : GenericCommandRequest) (result : CommandResult)
    → Applied t r result t'
    → (q : GenericCommandRequest) → q.transaction_id ≡ r.transaction_id
    → register t' q ≡ (t', (if same_request r q then replay result else protocol_error))
answers t t' r result a q i =
    register_answered t' r result a.valid a.found (ground (arith, a.waiting r.transaction_id)) q i

-- When a valid tracker has taken a result, whether or not it is the last, the next request under its
-- identifier is answered with it if it is the request that it belongs to, and is a protocol error if it is another.
pub register-apply_result :
    (t t' : TransactionTracker) (result : CommandResult) (r q : GenericCommandRequest)
    → IsValid t
    → apply_result t result ≡ (t', true)
    → pending_of result.transaction_id t.pending ≡ some r
    → q.transaction_id ≡ r.transaction_id
    → ((q ≡ r) × (register t' q ≡ (t', replay result)))
      ⊎ ((q ≢ r) × (register t' q ≡ (t', protocol_error)))
register-apply_result t t' result r q v e p j = elim (apply_result_cases t result v) [
  | inl (f, n) ↦ absurd cc
  | inr (r', t'', f, p', i, c, a) ↦
      let b : Applied t r result t' =
        subst₂ (λ x y. Applied t x result y) (some-injective r' r (sym p' ∙ p))
          (ap (λ x. x.0) (sym f ∙ e)) a in
      let answered = answers t t' r result b q j in
      elim (Bool-cases (same_request r q)) [
        | inl same ↦ inl (
          sym ((same_request_iff r q).0 same),
          answered ∙ ap (λ b. (t', (if b then replay result else protocol_error))) same,
        )
        | inr other ↦ inr (
          (λ x. absurd (ground (arith, other, (same_request_iff r q).1 (sym x)))),
          answered ∙ ap (λ b. (t', (if b then replay result else protocol_error))) other,
        )
      ]
]

-- In a valid tracker a result without a pending command of its transaction and command changes nothing and is reported
-- as such; with one it is taken.
pub apply_result_iff :
    (t : TransactionTracker) (result : CommandResult)
    → IsValid t
    → ((apply_result t result).1 ≡ true) ↔ (
        (r : GenericCommandRequest) × (pending_of result.transaction_id t.pending ≡ some r)
        × (r.command ≡ result.command))
apply_result_iff t result v = elim (apply_result_cases t result v) [
  | inl (f, n) ↦ (λ h. cc, λ (r, p, c). absurd (n r p c))
  | inr (r, t', f, p, i, c, a) ↦ (λ h. (r, p, c), λ h. ap (λ x. x.1) f)
]
