-- ===== src/Lora/Timing/Stats.antt =====
-- lora_timing.rs: the summary of a metric against the list of its values.
use l_comboard.Base.{ℕ, ◌+◌, ◌/◌, ◌≤◌, ◌≡◌, min, max, List, [], ◌∷◌, length, arith}
use l_comboard.Base.Checked.{u32_max, u64_max}
use l_comboard.Lora.Timing.{MetricStats, new_stats, record_value, summary, sum}

-- A metric after some values.
unfoldable pub record_values : MetricStats → List ℕ → MetricStats
record_values s [] = s
record_values s (x ∷ xs) = record_values (record_value s x) xs

abbrev pub least : ℕ → List ℕ → ℕ
least m [] = m
least m (x ∷ xs) = least (min m x) xs

abbrev pub greatest : ℕ → List ℕ → ℕ
greatest m [] = m
greatest m (x ∷ xs) = greatest (max m x) xs

-- A step that saturates neither counter.
plus : MetricStats → ℕ → MetricStats
plus s x = record {
  count = s.count + 1;
  smallest = min s.smallest x;
  largest = max s.largest x;
  total = s.total + x;
}

record_value-plus :
    (s : MetricStats) (x : ℕ)
    → s.count + 1 ≤ u32_max
    → s.total + x ≤ u64_max
    → record_value s x ≡ plus s x
unfolding record_value plus
record_value-plus s x h t = ground arith

record_values_lem :
    (s : MetricStats) (xs : List ℕ)
    → s.count + length xs ≤ u32_max
    → s.total + sum xs ≤ u64_max
    → record_values s xs ≡ record {
      count = s.count + length xs;
      smallest = least s.smallest xs;
      largest = greatest s.largest xs;
      total = s.total + sum xs;
    }
unfolding record_values plus
record_values_lem s [] h t = ground arith
record_values_lem s (x ∷ xs) h t =
    rw (record_value-plus s x (omega arith) (omega arith))
      (rw (record_values_lem (plus s x) xs (omega arith) (omega arith)) (ground arith))

-- The summary of at least one value, with a count and a sum that do not saturate: how many there are,
-- the least and the greatest of them, and their mean, rounded down.
pub summary-record_values :
    (x : ℕ) (xs : List ℕ)
    → length (x ∷ xs) ≤ u32_max
    → sum (x ∷ xs) ≤ u64_max
    → summary (record_values new_stats (x ∷ xs)) ≡ record {
      count = length (x ∷ xs);
      smallest = least x xs;
      largest = greatest x xs;
      average = sum (x ∷ xs) / length (x ∷ xs);
    }
unfolding summary new_stats
summary-record_values x xs h t =
    rw (record_values_lem new_stats (x ∷ xs) (omega arith) (omega arith)) (ground arith)
