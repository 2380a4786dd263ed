-- ===== src/Can/Command/Results.antt =====
-- can/command.rs: what `apply_result` does with a result.
use mathlib.Core.Path.{subst, subst₂}
use l_comboard.Base.{
  ℕ, ◌<◌, ◌≡◌, ◌≢◌, refl, ap, sym, ◌∙◌, true, false, Option, none, some, ◌==◌, if◌then◌else◌, set,
  length, length-set, arith, Bool-cases, Option-cases, inl, inr, ◌⊎◌,
}
use l_comboard.Can.Protocol.CommandEnums.{is_final}
use l_comboard.Can.Protocol.Messages.{GenericCommandRequest, CommandResult}
use l_comboard.Can.Command.{
  TransactionTracker, CachedEntry, pending_of, cached_of, position, amend, store, apply_result,
}
use l_comboard.Can.Command.Slots.{DistinctCached, pending_of_id, Positioned, position-Positioned}
use l_comboard.Can.Command.Cached.{entry, Amended, amend-Amended, cached_of-set, set-DistinctCached}
use l_comboard.Can.Command.Invariant.{IsValid}

-- A stored result: it is found under its transaction, and of the other transactions each keeps its
-- entry or has lost it.
pub record Stored (t : TransactionTracker) (r : GenericCommandRequest) (result : CommandResult)
    (t' : TransactionTracker) : Type 0 where
  same_pending : t'.pending ≡ t.pending
  pub size : length t'.results ≡ 16
  pub slot : t'.next_result < 16
  pub once : DistinctCached t'.results
  pub found : cached_of r.transaction_id t'.results ≡ some (entry r result)
  pub others :
      (j : ℕ)
      → r.transaction_id ≢ j
      → (cached_of j t'.results ≡ cached_of j t.results) ⊎ (cached_of j t'.results ≡ none)

-- Without an entry to amend the transaction has none.
no_entry :
    (t : TransactionTracker) (r : GenericCommandRequest) (result : CommandResult)
    → IsValid t
    → pending_of r.transaction_id t.pending ≡ some r
    → Amended r result t.results none
    → cached_of r.transaction_id t.results ≡ none
no_entry t r result v p a = elim (Option-cases (cached_of r.transaction_id t.results)) [
  | inl e ↦ e
  | inr (c, e) ↦
      absurd
        (a c e (ap (λ (q : GenericCommandRequest). q.command) (v.agree r.transaction_id r c p e)))
]

store-Stored :
    (t : TransactionTracker) (r : GenericCommandRequest) (result : CommandResult)
    → IsValid t
    → pending_of r.transaction_id t.pending ≡ some r
    → Stored t r result (store t r result)
unfolding store
store-Stored t r result v p = elim (Option-cases (amend r result t.results)) [
  | inr (ds, e) ↦
      let a : Amended r result t.results (some ds) =
        rw e at (amend-Amended r result t.results v.results_once) in
      rw (e, store)
        (record {
          same_pending = refl;
          size = a.1 ∙ v.results_size;
          slot = v.slot;
          once = a.0;
          found =
              a.2.2 ∙ ap (λ q. some (entry q result)) (v.agree r.transaction_id r a.2.0 p a.2.1);
          others = λ j n. inl (a.3 j n);
        })
  | inl e ↦
      let a : Amended r result t.results none =
        rw e at (amend-Amended r result t.results v.results_once) in
      let n : cached_of r.transaction_id t.results ≡ none = no_entry t r result v p a in
      rw (e, store)
        (record {
          same_pending = refl;
          size = length-set t.results t.next_result (some (entry r result)) ∙ v.results_size;
          slot = omega arith;
          once = set-DistinctCached (entry r result) t.next_result t.results v.results_once n;
          found = ground (
            arith,
            cached_of-set (entry r result) r.transaction_id t.next_result t.results
                (omega (arith, v.slot, v.results_size)) v.results_once n,
          );
          others = λ j m. ground (
            arith,
            cached_of-set (entry r result) j t.next_result t.results
                (omega (arith, v.slot, v.results_size)) v.results_once n,
          );
        })
]

-- A result of a pending command: what the tracker holds afterwards.
pub record Applied (t : TransactionTracker) (r : GenericCommandRequest) (result : CommandResult)
    (t' : TransactionTracker) : Type 0 where
  pub valid : IsValid t'
  pub found : cached_of r.transaction_id t'.results ≡ some (entry r result)
  pub waiting :
      (j : ℕ)
      → pending_of j t'.pending ≡ (
          if r.transaction_id == j
          then if is_final result.phase then none else some r
          else pending_of j t.pending)
  pub others :
      (j : ℕ)
      → r.transaction_id ≢ j
      → (cached_of j t'.results ≡ cached_of j t.results) ⊎ (cached_of j t'.results ≡ none)

module _ (t : TransactionTracker) (r : GenericCommandRequest) (result : CommandResult)
    (v : IsValid t) (p : pending_of r.transaction_id t.pending ≡ some r) where
  agreement :
      {t' : TransactionTracker}
      → Stored t r result t'
      → (j : ℕ) (q : GenericCommandRequest) (c : CachedEntry) → pending_of j t.pending ≡ some q
      → cached_of j t'.results ≡ some c
      → c.request ≡ q
  agreement s j q c h k = elim (Bool-cases (r.transaction_id == j)) [
    | inl e ↦ ground (arith, s.found, p, ap (λ (o : Option CachedEntry). o) k)
    | inr e ↦ ground (arith, s.others j, v.agree j q c)
  ]

  kept :
      {t' : TransactionTracker}
      → Stored t r result t'
      → is_final result.phase ≡ false
      → Applied t r result t'
  kept {t'} s f = record {
    valid = record {
      pending_size = ap length s.same_pending ∙ v.pending_size;
      results_size = s.size;
      slot = s.slot;
      pending_once = rw s.same_pending v.pending_once;
      results_once = s.once;
      agree = rw s.same_pending (agreement s);
    };
    found = s.found;
    waiting = λ j. rw (s.same_pending, f) (ground (arith, p));
    others = s.others;
  }

  ended :
      {t' : TransactionTracker} (k : ℕ)
      → Stored t r result t'
      → Positioned r.transaction_id r.command t.pending (some (k, r))
      → is_final result.phase ≡ true
      → Applied t r result (record t' { pending = set t'.pending k none })
  ended {t'} k s q f = rw s.same_pending (record {
    valid = record {
      pending_size = q.3 ∙ v.pending_size;
      results_size = s.size;
      slot = s.slot;
      pending_once = q.2;
      results_once = s.once;
      agree = λ j o c g h. ground (arith, q.4 j, agreement s j o c);
    };
    found = s.found;
    waiting = λ j. rw f (q.4 j);
    others = s.others;
  })

-- In a valid tracker, either no pending command fits the result, and nothing happens, or one does, and the tracker takes
-- the result.
pub apply_result_cases :
    (t : TransactionTracker) (result : CommandResult)
    → IsValid t
    → ((apply_result t result ≡ (t, false))
        × ((p : GenericCommandRequest)
            → pending_of result.transaction_id t.pending ≡ some p
            → p.command ≢ result.command))
      ⊎ ((r : GenericCommandRequest) × (t' : TransactionTracker) × (apply_result t result
            ≡ (t', true))
          × (pending_of result.transaction_id t.pending ≡ some r)
          × (r.transaction_id ≡ result.transaction_id)
          × (r.command ≡ result.command)
          × Applied t r result t')
unfolding apply_result
apply_result_cases t result v =
    elim (Option-cases (position result.transaction_id result.command t.pending)) [
      | inl e ↦ inl (
        rw (e, apply_result),
        rw e at (position-Positioned result.transaction_id result.command t.pending v.pending_once),
      )
      | inr ((k, r), e) ↦
          let q : Positioned result.transaction_id result.command t.pending (some (k, r)) =
            rw e at
              (position-Positioned result.transaction_id result.command t.pending v.pending_once) in
          let i : r.transaction_id ≡ result.transaction_id =
            pending_of_id result.transaction_id t.pending r q.0 in
          let p : pending_of r.transaction_id t.pending ≡ some r =
            subst (λ x. pending_of x t.pending ≡ some r) (sym i) q.0 in
          let s = store-Stored t r result v p in
          elim (Bool-cases (is_final result.phase)) [
            | inl f ↦ inr (
              r,
              record (store t r result) { pending = set (store t r result).pending k none },
              rw (e, f, apply_result),
              q.0,
              i,
              q.1,
              ended t r result v p k s
                  (subst₂ (λ x y. Positioned x y t.pending (some (k, r))) (sym i) (sym q.1) q) f,
            )
            | inr f ↦
                inr (
                  r,
                  store t r result,
                  rw (e, f, apply_result),
                  q.0,
                  i,
                  q.1,
                  kept t r result v p s f,
                )
          ]
    ]
