-- ===== src/Can/Command/Cached.antt =====
-- can/command.rs: the array of cached results: an entry that is amended, and one that is written over another.
use mathlib.Core.Option
use l_comboard.Base.{
  ℕ, zero, suc, ◌<◌, ◌≡◌, ◌≢◌, refl, ap, List, [], ◌∷◌, Bool, false, ◌&&◌, Option, none, some, ◌==◌,
  if◌then◌else◌, set, get_elem?, length, arith, Bool-cases, inl, inr,
}
use l_comboard.Can.Protocol.Messages.{GenericCommandRequest, CommandResult}
use l_comboard.Can.Command.{CachedEntry, cached_of, cached_request, amend}
use l_comboard.Can.Command.Slots.{DistinctCached, same_request_iff}

abbrev pub entry : GenericCommandRequest → CommandResult → CachedEntry
entry r result = record { request = r; result = result }

-- The entry of a transaction is the one found by the whole request.
pub cached_request-eq :
    (r : GenericCommandRequest) (c : CachedEntry) (cs : List (Option CachedEntry))
    → DistinctCached cs
    → cached_of r.transaction_id cs ≡ some c
    → c.request ≡ r
    → cached_request r cs ≡ some c
unfolding cached_request cached_of
cached_request-eq r c [] d h e = cc
cached_request-eq r c (none ∷ cs) d h e = cached_request-eq r c cs d h e
cached_request-eq r c (some b ∷ cs) d h e = ground (
  arith,
  cached_request-eq r c cs,
  same_request_iff b.request r,
  ap (λ (q : GenericCommandRequest). q.transaction_id) e,
)

pub cached_request-none :
    (r : GenericCommandRequest) (cs : List (Option CachedEntry))
    → cached_of r.transaction_id cs ≡ none
    → cached_request r cs ≡ none
unfolding cached_request cached_of
cached_request-none r [] h = refl
cached_request-none r (none ∷ cs) h = cached_request-none r cs h
cached_request-none r (some b ∷ cs) h =
    ground (arith, cached_request-none r cs, same_request_iff b.request r)

module _ (r : GenericCommandRequest) (result : CommandResult) where
  abbrev pub Amended : List (Option CachedEntry) → Option (List (Option CachedEntry)) → Type 0
  Amended cs none =
      (c : CachedEntry) → cached_of r.transaction_id cs ≡ some c → c.request.command ≢ r.command
  Amended cs (some ds) =
      DistinctCached ds
      × (length ds ≡ length cs)
      × ((c : CachedEntry) × (cached_of r.transaction_id cs ≡ some c)
          × (cached_of r.transaction_id ds ≡ some (entry c.request result)))
      × ((j : ℕ) → r.transaction_id ≢ j → cached_of j ds ≡ cached_of j cs)

  Amended-cons :
      (c : CachedEntry) (cs : List (Option CachedEntry)) (o : Option (List (Option CachedEntry)))
      → (c.request.transaction_id == r.transaction_id && c.request.command == r.command) ≡ false
      → DistinctCached (some c ∷ cs)
      → Amended cs o
      → Amended (some c ∷ cs) (Option.map (λ ds. some c ∷ ds) o)
  unfolding cached_of
  Amended-cons c cs none m d f = λ b e. ground (arith, f b)
  Amended-cons c cs (some ds) m d f = (
    (
      elim (Bool-cases (c.request.transaction_id == r.transaction_id)) [
        | inl e ↦ ground (arith, d.0, f.2.1)
        | inr e ↦ ground (arith, f.3 c.request.transaction_id)
      ],
      f.0,
    ),
    ap suc f.1,
    (f.2.0, ground (arith, d.0, f.2.1), ground (arith, d.0, f.2.1, f.2.2)),
    λ j n. ground (arith, f.3 j),
  )

  Amended-none :
      (cs : List (Option CachedEntry)) (o : Option (List (Option CachedEntry)))
      → Amended cs o
      → Amended (none ∷ cs) (Option.map (λ ds. none ∷ ds) o)
  unfolding cached_of
  Amended-none cs none f = f
  Amended-none cs (some ds) f = (f.0, ap suc f.1, f.2, f.3)

  pub amend-Amended :
      (cs : List (Option CachedEntry)) → DistinctCached cs → Amended cs (amend r result cs)
  unfolding amend cached_of
  amend-Amended [] d = λ c e. cc
  amend-Amended (none ∷ cs) d = Amended-none cs (amend r result cs) (amend-Amended cs d)
  amend-Amended (some c ∷ cs) d =
      elim (Bool-cases
        (c.request.transaction_id == r.transaction_id && c.request.command == r.command)) [
          | inl m ↦ rw m (d, refl, (c, ground arith, ground arith), λ j n. ground arith)
          | inr m ↦ rw m (Amended-cons c cs (amend r result cs) m d (amend-Amended cs d.1))
        ]

-- Whether the entry in a slot is that of a transaction.
abbrev pub holds : Option (Option CachedEntry) → ℕ → Bool
holds (some (some c)) id = c.request.transaction_id == id
holds _ id = false

holds-none :
    (j k : ℕ) (cs : List (Option CachedEntry))
    → cached_of j cs ≡ none
    → holds (get_elem? cs k) j ≡ false
unfolding cached_of
holds-none j k [] h = refl
holds-none j zero (none ∷ cs) h = refl
holds-none j zero (some c ∷ cs) h = ground arith
holds-none j (suc k) (none ∷ cs) h = holds-none j k cs h
holds-none j (suc k) (some c ∷ cs) h = ground (arith, holds-none j k cs)

module _ (e : CachedEntry) where
  set-none :
      (j k : ℕ) (cs : List (Option CachedEntry))
      → cached_of j cs ≡ none
      → e.request.transaction_id ≢ j
      → cached_of j (set cs k (some e)) ≡ none
  unfolding cached_of
  set-none j k [] h n = refl
  set-none j zero (none ∷ cs) h n = ground arith
  set-none j zero (some c ∷ cs) h n = ground arith
  set-none j (suc k) (none ∷ cs) h n = set-none j k cs h n
  set-none j (suc k) (some c ∷ cs) h n = ground (arith, set-none j k cs)

  -- An entry of a new transaction written to a slot: it is found, and the entry that stood in the slot
  -- is the only one that is lost.
  pub cached_of-set :
      (j k : ℕ) (cs : List (Option CachedEntry))
      → k < length cs
      → DistinctCached cs
      → cached_of e.request.transaction_id cs ≡ none
      → cached_of j (set cs k (some e)) ≡ (
          if e.request.transaction_id == j
          then some e
          else if holds (get_elem? cs k) j
          then none
          else cached_of j cs)
  unfolding cached_of
  cached_of-set j k [] h d n = absurd (omega arith)
  cached_of-set j zero (none ∷ cs) h d n = ground arith
  cached_of-set j zero (some c ∷ cs) h d n = ground (arith, d.0)
  cached_of-set j (suc k) (none ∷ cs) h d n = cached_of-set j k cs (omega arith) d n
  cached_of-set j (suc k) (some c ∷ cs) h d n =
      ground (arith, cached_of-set j k cs (omega arith) d.1, holds-none j k cs, d.0)

  pub set-DistinctCached :
      (k : ℕ) (cs : List (Option CachedEntry))
      → DistinctCached cs
      → cached_of e.request.transaction_id cs ≡ none
      → DistinctCached (set cs k (some e))
  unfolding cached_of
  set-DistinctCached k [] d n = tt
  set-DistinctCached zero (none ∷ cs) d n = (n, d)
  set-DistinctCached zero (some c ∷ cs) d n = (ground arith, d.1)
  set-DistinctCached (suc k) (none ∷ cs) d n = set-DistinctCached k cs d n
  set-DistinctCached (suc k) (some c ∷ cs) d n = (
    ground (arith, set-none c.request.transaction_id k cs d.0),
    set-DistinctCached k cs d.1 (ground arith),
  )
