-- ===== src/Can/Cache/Age.antt =====
-- can/cache.rs: the age of a cached value.
use l_comboard.Base.{ℕ, ◌+◌, ◌≤◌, ◌≡◌, ◌↔◌, none, some, arith}
use l_comboard.Can.Cache.{Latest, freshness, missing, fresh}

-- A value is fresh exactly while its age is known and within the limit, both ends included; it is
-- missing exactly when there is none.
pub freshness_iff :
    {T : Type 0} (l : Latest T) (now limit : ℕ)
    → ((freshness l now limit ≡ missing) ↔ (l.value ≡ none))
      × ((freshness l now limit ≡ fresh) ↔ (
          ((v : T) × (l.value ≡ some v))
          × (l.received_at_ms ≤ now)
          × (now ≤ l.received_at_ms + limit)))
unfolding freshness
freshness_iff l now limit = ground arith
