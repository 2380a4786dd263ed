-- ===== src/Can/Command/Invariant.antt =====
-- can/command.rs: the invariant of the tracker.
use l_comboard.Base.{ℕ, ◌<◌, ◌≡◌, refl, ◌∙◌, some, length, arith, Option-cases, inl, inr}
use l_comboard.Can.Protocol.Messages.{GenericCommandRequest}
use l_comboard.Can.Command.{
  TransactionTracker, CachedEntry, pending_of, cached_of, occupy, register, new,
}
use l_comboard.Can.Command.Slots.{Distinct, DistinctCached, Occupied, occupy-Occupied}

-- Both arrays keep their size, no transaction stands twice in either, and a transaction that stands
-- in both stands there with one request.
pub record IsValid (t : TransactionTracker) : Type 0 where
  pub pending_size : length t.pending ≡ 16
  pub results_size : length t.results ≡ 16
  pub slot : t.next_result < 16
  pub pending_once : Distinct t.pending
  pub results_once : DistinctCached t.results
  pub agree :
      (id : ℕ) (p : GenericCommandRequest) (c : CachedEntry)
      → pending_of id t.pending ≡ some p
      → cached_of id t.results ≡ some c
      → c.request ≡ p

pub new-IsValid : IsValid new
unfolding new pending_of cached_of
new-IsValid = record {
  pending_size = refl;
  results_size = refl;
  slot = omega arith;
  pending_once = tt;
  results_once = tt;
  agree = λ id p c e f. cc;
}

-- `register` keeps the invariant.
pub register-IsValid :
    (t : TransactionTracker) (r : GenericCommandRequest) → IsValid t → IsValid (register t r).0
unfolding register
register-IsValid t r v = elim (Option-cases (pending_of r.transaction_id t.pending)) [
  | inr (p, e) ↦ rw (e, register) v
  | inl e ↦ elim (Option-cases (cached_of r.transaction_id t.results)) [
    | inr (c, f) ↦ rw (e, f, register) v
    | inl f ↦ elim (Option-cases (occupy r t.pending)) [
      | inl g ↦ rw (e, f, g, register) v
      | inr (qs, g) ↦
          let o : Occupied r t.pending (some qs) =
            rw g at (occupy-Occupied r t.pending e v.pending_once) in
          rw (e, f, g, register)
            (record {
              pending_size = o.1 ∙ v.pending_size;
              results_size = v.results_size;
              slot = v.slot;
              pending_once = o.0;
              results_once = v.results_once;
              agree = λ id p c h k. ground (arith, o.2 id, f, v.agree id p c);
            })
    ]
  ]
]
