-- ===== src/Lora/Timing/Collector/Window.antt =====
-- lora_timing.rs: the windows of ten transmissions.
use l_comboard.Base.{
  ℕ, zero, suc, ◌+◌, ◌*◌, ◌≤◌, ◌<◌, ◌≡◌, ◌⊎◌, inl, inr, refl, ap, ◌∙◌, List, [], ◌∷◌, Option, none,
  some, ltb, set, get_or, length, length-set, arith, Bool-cases, All,
}
use l_comboard.Base.Checked.{saturating, u32_max}
use l_comboard.Lora.Scheduler.{LoRaTxSource}
use l_comboard.Lora.Timing.{
  source_index, TxTimingTrace, TimingReport, TimingCollector, sum, new_collector,
  report_sample_count,
}
use l_comboard.Lora.Timing.Collector.{
  count_invalid, record_delta, record_source_delta, record_emergency_queue_delta, count_trace,
  record_request, steps, record_steps, record_intervals, record_source_total, record_emergency,
  reset_window, report, collect, record_trace,
}

-- The collector between two transmissions: fewer than ten are counted, each under its source.
pub record IsWindow (c : TimingCollector) : Type 0 where
  pub few : c.sample_count < 10
  pub sources : length c.source_samples ≡ 5
  pub counted : sum c.source_samples ≡ c.sample_count

-- What no call but the first touches.
abbrev Same : TimingCollector → TimingCollector → Type 0
Same c d = (d.sample_count ≡ c.sample_count) × (d.source_samples ≡ c.source_samples)

same_delta : (c : TimingCollector) (m : ℕ) (l e : Option ℕ) → Same c (record_delta c m l e)
unfolding record_delta
same_delta c m l e = ground arith

same_steps :
    (c : TimingCollector) (ss : List (ℕ × Option ℕ × Option ℕ)) → Same c (record_steps c ss)
unfolding record_steps
same_steps c [] = (refl, refl)
same_steps c ((m, l, e) ∷ ss) =
    let (a, b) = same_delta c m l e in
    let (p, q) = same_steps (record_delta c m l e) ss in (p ∙ a, q ∙ b)

same_intervals : (c : TimingCollector) (t : TxTimingTrace) → Same c (record_intervals c t)
unfolding record_intervals record_delta
same_intervals c t = ground arith

same_total : (c : TimingCollector) (t : TxTimingTrace) → Same c (record_source_total c t)
unfolding record_source_total record_source_delta count_invalid
same_total c t = ground arith

same_emergency : (c : TimingCollector) (t : TxTimingTrace) → Same c (record_emergency c t)
unfolding record_emergency record_emergency_queue_delta count_invalid
same_emergency c t = ground arith

same_request : (c : TimingCollector) (t : TxTimingTrace) → Same c (record_request c t)
unfolding record_request record_delta count_invalid
same_request c t = ground arith

collect_same : (c : TimingCollector) (t : TxTimingTrace) → Same (count_trace c t) (collect c t)
unfolding collect
collect_same c t =
    let counted = count_trace c t in
    let requested = record_request counted t in
    let stepped = record_steps requested (steps t) in
    let spaced = record_intervals stepped t in
    let totalled = record_source_total spaced t in
    let (a, b) = same_request counted t in
    let (a1, b1) = same_steps requested (steps t) in
    let (a2, b2) = same_intervals stepped t in
    let (a3, b3) = same_total spaced t in
    let (a4, b4) = same_emergency totalled t in (a4 ∙ a3 ∙ a2 ∙ a1 ∙ a, b4 ∙ b3 ∙ b2 ∙ b1 ∙ b)

sum-set : (xs : List ℕ) (i v : ℕ) → i < length xs → sum (set xs i v) + get_or xs i 0 ≡ sum xs + v
sum-set [] i v h = absurd (omega arith)
sum-set (x ∷ xs) zero v h = omega arith
sum-set (x ∷ xs) (suc i) v h = omega (arith, sum-set xs i v (omega arith))

get_or-sum : (xs : List ℕ) (i : ℕ) → get_or xs i 0 ≤ sum xs
get_or-sum [] i = omega arith
get_or-sum (x ∷ xs) zero = omega arith
get_or-sum (x ∷ xs) (suc i) = omega (arith, get_or-sum xs i)

source_index-lt : (s : LoRaTxSource) → source_index s < 5
source_index-lt s = ground arith

record Collected (c d : TimingCollector) : Type 0 where
  count : d.sample_count ≡ c.sample_count + 1
  sources : length d.source_samples ≡ 5
  counted : sum d.source_samples ≡ c.sample_count + 1

count_trace-Collected :
    (c : TimingCollector) (t : TxTimingTrace) → IsWindow c → Collected c (count_trace c t)
unfolding count_trace
count_trace-Collected c t w =
    let i = source_index t.source in
    let g = get_or-sum c.source_samples i in
    let v = saturating u32_max (get_or c.source_samples i 0 + 1) in
    record {
      count = omega (arith, w.few);
      sources = length-set c.source_samples i v ∙ w.sources;
      counted = omega (
        arith,
        g,
        w.few,
        w.counted,
        w.sources,
        source_index-lt t.source,
        sum-set c.source_samples i v (omega (arith, w.sources, source_index-lt t.source)),
      );
    }

collect-Collected :
    (c : TimingCollector) (t : TxTimingTrace) → IsWindow c → Collected c (collect c t)
collect-Collected c t w =
    let (a, b) = collect_same c t in
    let k = count_trace-Collected c t w in
    record {
      count = a ∙ k.count;
      sources = ap length b ∙ k.sources;
      counted = ap sum b ∙ k.counted;
    }

-- A transmission is counted in its window, and the tenth closes the window with a report of ten
-- samples, and only the tenth.
pub record_trace-IsWindow :
    (c : TimingCollector) (t : TxTimingTrace)
    → IsWindow c
    → let (d, answer) = record_trace c t in
      IsWindow d
      × (((c.sample_count < 9) × (answer ≡ none) × (d.sample_count ≡ c.sample_count + 1))
          ⊎ ((c.sample_count ≡ 9)
              × (d.sample_count ≡ 0)
              × (r : TimingReport) × (answer ≡ some r)
              × (report_sample_count r ≡ 10)))
unfolding record_trace report reset_window report_sample_count
record_trace-IsWindow c t w =
    let k = collect-Collected c t w in
    let d = collect c t in
    elim (Bool-cases (ltb d.sample_count 10)) [
      | inl h ↦ rw h (
        record {
          few = ground (arith, h);
          sources = k.sources;
          counted = omega (arith, k.count, k.counted);
        },
        inl (ground (arith, k.count), refl, k.count),
      )
      | inr h ↦ rw h (
        record { few = omega arith; sources = refl; counted = refl },
        inr (
          ground (arith, k.count, w.few),
          refl,
          report d,
          refl,
          ground (arith, k.counted, k.count, w.few),
        ),
      )
    ]

-- The report before the ones that follow it, when there is one.
abbrev prepend : Option TimingReport → List TimingReport → List TimingReport
prepend none reports = reports
prepend (some r) reports = r ∷ reports

-- The reports of a history of transmissions.
unfoldable pub record_all :
    TimingCollector → List TxTimingTrace → TimingCollector × List TimingReport
record_all c [] = (c, [])
record_all c (t ∷ ts) =
    let (d, answer) = record_trace c t in
    let (e, reports) = record_all d ts in (e, prepend answer reports)

-- From any window on, each tenth transmission gives a report, of ten samples, and the others give none.
pub record_all-reports :
    (c : TimingCollector) (ts : List TxTimingTrace)
    → IsWindow c
    → let (d, reports) = record_all c ts in
      IsWindow d
      × (length reports * 10 + d.sample_count ≡ c.sample_count + length ts)
      × All (λ r. report_sample_count r ≡ 10) reports
unfolding record_all
record_all-reports c [] w = (w, omega arith, tt)
record_all-reports c (t ∷ ts) w =
    let (w', cases) = record_trace-IsWindow c t w in
    let (w'', n, all) = record_all-reports (record_trace c t).0 ts w' in
    elim cases [
      | inl (few, a, s) ↦ rw a (w'', omega (arith, n, s), all)
      | inr (nine, z, r, a, ten) ↦ rw a (w'', omega (arith, n, z, nine), (ten, all))
    ]

pub new_collector-IsWindow : IsWindow new_collector
unfolding new_collector
new_collector-IsWindow = record { few = omega arith; sources = refl; counted = refl }
