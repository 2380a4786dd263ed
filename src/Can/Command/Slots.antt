-- ===== src/Can/Command/Slots.antt =====
-- can/command.rs: arrays of optional entries, at most one for each transaction.
use mathlib.Core.Option
use l_comboard.Base.{
  ℕ, suc, ◌≡◌, ◌↔◌, ◌≢◌, refl, ap, List, [], ◌∷◌, true, false, Option, none, some, ◌==◌,
  if◌then◌else◌, set, length, arith, Bool-cases, inl, inr, ◌&&◌,
}
use l_comboard.Can.Protocol.Messages.{GenericCommandRequest}
use l_comboard.Can.Command.{
  CachedEntry, same_bytes, same_request, pending_of, cached_of, occupy, position,
}

same_bytes_eq : (xs ys : List ℕ) → same_bytes xs ys ≡ true → xs ≡ ys
same_bytes_eq [] [] h = refl
same_bytes_eq [] (y ∷ ys) h = cc
same_bytes_eq (x ∷ xs) [] h = cc
same_bytes_eq (x ∷ xs) (y ∷ ys) h = ground (arith, same_bytes_eq xs ys)

same_bytes_refl : (xs : List ℕ) → same_bytes xs xs ≡ true
same_bytes_refl [] = refl
same_bytes_refl (x ∷ xs) = ground (arith, same_bytes_refl xs)

pub same_request_iff : (a b : GenericCommandRequest) → (same_request a b ≡ true) ↔ (a ≡ b)
unfolding same_request
same_request_iff a b = ground (arith, same_bytes_eq a.args b.args, same_bytes_refl a.args)

abbrev pub Distinct : List (Option GenericCommandRequest) → Type 0
Distinct [] = Unit
Distinct (none ∷ ps) = Distinct ps
Distinct (some p ∷ ps) = (pending_of p.transaction_id ps ≡ none) × Distinct ps

abbrev pub DistinctCached : List (Option CachedEntry) → Type 0
DistinctCached [] = Unit
DistinctCached (none ∷ cs) = DistinctCached cs
DistinctCached (some c ∷ cs) = (cached_of c.request.transaction_id cs ≡ none) × DistinctCached cs

-- Lookups find entries of their transaction.
pub pending_of_id :
    (id : ℕ) (ps : List (Option GenericCommandRequest)) (p : GenericCommandRequest)
    → pending_of id ps ≡ some p
    → p.transaction_id ≡ id
unfolding pending_of
pending_of_id id [] p h = cc
pending_of_id id (none ∷ ps) p h = pending_of_id id ps p h
pending_of_id id (some q ∷ ps) p h = ground (arith, pending_of_id id ps p)

pub cached_of_id :
    (id : ℕ) (cs : List (Option CachedEntry)) (c : CachedEntry)
    → cached_of id cs ≡ some c
    → c.request.transaction_id ≡ id
unfolding cached_of
cached_of_id id [] c h = cc
cached_of_id id (none ∷ cs) c h = cached_of_id id cs c h
cached_of_id id (some d ∷ cs) c h = ground (arith, cached_of_id id cs c)

-- A free slot that is filled: what the result of `occupy` is to the slots before.
module _ (r : GenericCommandRequest) where
  abbrev pub Occupied :
      List (Option GenericCommandRequest) → Option (List (Option GenericCommandRequest)) → Type 0
  Occupied ps none = Unit
  Occupied ps (some qs) =
      Distinct qs
      × (length qs ≡ length ps)
      × ((id : ℕ)
          → pending_of id qs ≡ (if r.transaction_id == id then some r else pending_of id ps))

  Occupied-cons :
      (p : GenericCommandRequest) (ps : List (Option GenericCommandRequest))
      (o : Option (List (Option GenericCommandRequest)))
      → pending_of r.transaction_id (some p ∷ ps) ≡ none
      → Distinct (some p ∷ ps)
      → Occupied ps o
      → Occupied (some p ∷ ps) (Option.map (λ qs. some p ∷ qs) o)
  unfolding pending_of
  Occupied-cons p ps none e d f = tt
  Occupied-cons p ps (some qs) e d f =
      ((ground (arith, f.2 p.transaction_id), f.0), ap suc f.1, λ id. ground (arith, f.2 id))

  pub occupy-Occupied :
      (ps : List (Option GenericCommandRequest))
      → pending_of r.transaction_id ps ≡ none
      → Distinct ps
      → Occupied ps (occupy r ps)
  unfolding occupy pending_of
  occupy-Occupied [] e d = tt
  occupy-Occupied (none ∷ ps) e d = ((e, d), refl, λ id. refl)
  occupy-Occupied (some p ∷ ps) e d =
      Occupied-cons p ps (occupy r ps) e d (occupy-Occupied ps (ground arith) d.1)

-- A slot found by transaction and command: what stands there, and the slots once it is emptied.
module _ (id command : ℕ) where
  abbrev pub Positioned :
      List (Option GenericCommandRequest) → Option (ℕ × GenericCommandRequest) → Type 0
  Positioned ps none = (p : GenericCommandRequest) → pending_of id ps ≡ some p → p.command ≢ command
  Positioned ps (some (k, r)) =
      (pending_of id ps ≡ some r)
      × (r.command ≡ command)
      × Distinct (set ps k none)
      × (length (set ps k none) ≡ length ps)
      × ((j : ℕ) → pending_of j (set ps k none) ≡ (if id == j then none else pending_of j ps))

  Positioned-cons :
      (p : GenericCommandRequest) (ps : List (Option GenericCommandRequest))
      (o : Option (ℕ × GenericCommandRequest))
      → ((p.transaction_id == id && p.command == command) ≡ false)
      → Distinct (some p ∷ ps)
      → Positioned ps o
      → Positioned (some p ∷ ps) (Option.map (λ found. (suc found.0, found.1)) o)
  unfolding pending_of
  Positioned-cons p ps none m d f = λ q e. ground (arith, f q)
  Positioned-cons p ps (some (k, r)) m d f = (
    ground (arith, pending_of_id id ps r),
    f.1,
    (ground (arith, f.4 p.transaction_id), f.2),
    ap suc f.3,
    λ j. ground (arith, f.4 j),
  )

  Positioned-none :
      (ps : List (Option GenericCommandRequest)) (o : Option (ℕ × GenericCommandRequest))
      → Positioned ps o
      → Positioned (none ∷ ps) (Option.map (λ found. (suc found.0, found.1)) o)
  unfolding pending_of
  Positioned-none ps none f = f
  Positioned-none ps (some (k, r)) f = (f.0, f.1, f.2, ap suc f.3, f.4)

  pub position-Positioned :
      (ps : List (Option GenericCommandRequest))
      → Distinct ps
      → Positioned ps (position id command ps)
  unfolding position pending_of
  position-Positioned [] d = λ p e. cc
  position-Positioned (none ∷ ps) d =
      Positioned-none ps (position id command ps) (position-Positioned ps d)
  position-Positioned (some p ∷ ps) d =
      elim (Bool-cases (p.transaction_id == id && p.command == command)) [
        | inl m ↦ rw m (ground arith, ground arith, d.1, refl, λ j. ground arith)
        | inr m ↦
            rw m (Positioned-cons p ps (position id command ps) m d (position-Positioned ps d.1))
      ]
