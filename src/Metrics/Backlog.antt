-- ===== src/Metrics/Backlog.antt =====
-- The backlog's peak and the times of `compute_derived`.
use incident_bench.Base.{
  ℕ, ◌-◌, ◌≤◌, ◌<◌, max, ◌≡◌, refl, ap, ◌⊎◌, inl, inr, Bool, true, ◌&&◌, ◌||◌, List, [], ◌∷◌, map,
  All, arith, filter, ltb, leb, ◌==◌, str_eq, sub_u64, u64_mod, F64, zero_f, Bool-cases,
}
use incident_bench.Metrics.{AggregatedMetricPoint}
use incident_bench.Metrics.Derived.{
  max_of, lags, in_phase, first_time, peak_backlog, peak_lag_time, drain_time, recovery_start,
  recovery_end, recovered, backlog_drain, compute_derived, p99_of, mean_of,
}

weaken_bound : (m n : ℕ) (xs : List ℕ) → m ≤ n → All (λ x. x ≤ m) xs → All (λ x. x ≤ n) xs
weaken_bound m n [] h a = tt
weaken_bound m n (x ∷ xs) h a = (omega (arith, a.0), weaken_bound m n xs h a.1)

max_of-bound : (xs : List ℕ) → All (λ x. x ≤ max_of xs) xs
unfolding max_of
max_of-bound [] = tt
max_of-bound (x ∷ xs) =
    (omega arith, weaken_bound (max_of xs) (max x (max_of xs)) xs (omega arith) (max_of-bound xs))

module _ {ℓ} {F : Type ℓ} where
  -- The points are in the order of their time.
  abbrev pub Ordered : List (AggregatedMetricPoint F) → Type ℓ
  Ordered [] = Unit
  Ordered (p ∷ ps) =
      All (λ (q : AggregatedMetricPoint F). p.timestamp_s ≤ q.timestamp_s) ps × Ordered ps

  -- A time that is found is that of a point that passes, or the default.
  first_time-ge :
      (low : ℕ) (test : AggregatedMetricPoint F → Bool) (default : ℕ)
      (ps : List (AggregatedMetricPoint F))
      → low ≤ default
      → All (λ (p : AggregatedMetricPoint F). test p ≡ true → low ≤ p.timestamp_s) ps
      → low ≤ first_time test default ps
  unfolding first_time
  first_time-ge low test default [] d h = d
  first_time-ge low test default (p ∷ ps) d h = elim (Bool-cases (test p)) [
    | inl e ↦ rw e (h.0 e)
    | inr e ↦ rw e (first_time-ge low test default ps d h.1)
  ]

  first_time-lt :
      (high : ℕ) (test : AggregatedMetricPoint F → Bool) (default : ℕ)
      (ps : List (AggregatedMetricPoint F))
      → default < high
      → All (λ (p : AggregatedMetricPoint F). p.timestamp_s < high) ps
      → first_time test default ps < high
  unfolding first_time
  first_time-lt high test default [] d h = d
  first_time-lt high test default (p ∷ ps) d h = elim (Bool-cases (test p)) [
    | inl e ↦ rw e h.0
    | inr e ↦ rw e (first_time-lt high test default ps d h.1)
  ]

  All-filter {κ} :
      (P : AggregatedMetricPoint F → Type κ) (test : AggregatedMetricPoint F → Bool)
      (ps : List (AggregatedMetricPoint F))
      → All P ps
      → All P (filter test ps)
  All-filter P test [] h = tt
  All-filter P test (p ∷ ps) h = elim (Bool-cases (test p)) [
    | inl e ↦ rw e (h.0, All-filter P test ps h.1)
    | inr e ↦ rw e (All-filter P test ps h.1)
  ]

  filter-Ordered :
      (test : AggregatedMetricPoint F → Bool) (ps : List (AggregatedMetricPoint F))
      → Ordered ps
      → Ordered (filter test ps)
  filter-Ordered test [] h = tt
  filter-Ordered test (p ∷ ps) h = elim (Bool-cases (test p)) [
    | inl e ↦ rw e (
      All-filter (λ (q : AggregatedMetricPoint F). p.timestamp_s ≤ q.timestamp_s) test ps h.0,
      filter-Ordered test ps h.1,
    )
    | inr e ↦ rw e (filter-Ordered test ps h.1)
  ]

  passing {κ} :
      (P : AggregatedMetricPoint F → Type 0) (C : AggregatedMetricPoint F → Type κ)
      (ps : List (AggregatedMetricPoint F))
      → All P ps
      → All (λ p. C p → P p) ps
  passing P C [] h = tt
  passing P C (p ∷ ps) h = (λ _. h.0, passing P C ps h.1)

  -- In an ordered list no time found comes before the first one.
  Ordered-first :
      (test : AggregatedMetricPoint F → Bool) (ps : List (AggregatedMetricPoint F))
      → Ordered ps
      → first_time (λ _. true) 0 ps ≤ first_time test (first_time (λ _. true) 0 ps) ps
  unfolding first_time
  Ordered-first test [] h = omega arith
  Ordered-first test (p ∷ ps) h =
      first_time-ge p.timestamp_s test p.timestamp_s (p ∷ ps) (omega arith) (
        λ _. omega arith,
        passing (λ (q : AggregatedMetricPoint F). p.timestamp_s ≤ q.timestamp_s)
            (λ q. test q ≡ true) ps h.0,
      )

  after_peak :
      (peak : ℕ) (rest : AggregatedMetricPoint F → Bool) (ps : List (AggregatedMetricPoint F))
      → All
          (λ (p : AggregatedMetricPoint F).
            (ltb peak p.timestamp_s && rest p) ≡ true → peak ≤ p.timestamp_s)
          ps
  after_peak peak rest [] = tt
  after_peak peak rest (p ∷ ps) = (λ h. ground (arith, h), after_peak peak rest ps)

  drain_time-ge :
      (lag : ℕ) (ps : List (AggregatedMetricPoint F)) → peak_lag_time ps ≤ drain_time lag ps
  unfolding drain_time
  drain_time-ge lag ps =
      first_time-ge (peak_lag_time ps) _ (peak_lag_time ps) ps (omega arith)
        (after_peak (peak_lag_time ps) (λ p. leb p.kafka_consumer_lag (max lag 100)) ps)

  drain_time-lt :
      (high lag : ℕ) (ps : List (AggregatedMetricPoint F))
      → 0 < high
      → All (λ (p : AggregatedMetricPoint F). p.timestamp_s < high) ps
      → drain_time lag ps < high
  unfolding drain_time peak_lag_time
  drain_time-lt high lag ps z h =
      first_time-lt high _ (peak_lag_time ps) ps
        (first_time-lt high (λ p. p.kafka_consumer_lag == peak_backlog ps) 0 ps z h) h

  lags-bound :
      (m : ℕ) (ps : List (AggregatedMetricPoint F))
      → All (λ x. x ≤ m) (lags ps)
      → All (λ (p : AggregatedMetricPoint F). p.kafka_consumer_lag ≤ m) ps
  lags-bound m [] h = tt
  lags-bound m (p ∷ ps) h = (h.0, lags-bound m ps h.1)

plain_sub : (a b : ℕ) → b ≤ a → a < u64_mod → sub_u64 a b ≡ a - b
unfolding sub_u64
plain_sub a b h l = omega arith

module _ {ℓ} {F : Type ℓ} ⦃fl : F64 F⦄ where
  abbrev pub end_of_recovery : List (AggregatedMetricPoint F) → ℕ
  end_of_recovery points =
      recovery_end (fl.mul (p99_of (in_phase "baseline" points)) (fl.lit 12 1)) points

  abbrev pub end_of_backlog : List (AggregatedMetricPoint F) → ℕ
  end_of_backlog points =
      drain_time (fl.to_u64 (mean_of (map fl.of_nat (lags (in_phase "baseline" points))))) points

  backlog_drain-plain :
      (points : List (AggregatedMetricPoint F))
      → All (λ (p : AggregatedMetricPoint F). p.timestamp_s < u64_mod) points
      → (backlog_drain points ≡ zero_f)
        ⊎ (backlog_drain points ≡ fl.of_nat (end_of_backlog points - peak_lag_time points))
  unfolding backlog_drain
  backlog_drain-plain points b =
      let lag = fl.to_u64 (mean_of (map fl.of_nat (lags (in_phase "baseline" points)))) in
      let lt = drain_time-lt u64_mod lag points (omega arith) b in
      elim (Bool-cases (peak_backlog points == 0 || peak_lag_time points == 0)) [
        | inl e ↦ inl (rw e refl)
        | inr e ↦ inr (
            rw
              (
                e,
                plain_sub (drain_time lag points) (peak_lag_time points) (drain_time-ge lag points)
                    lt,
              )
              refl)
      ]

  -- On points in the order of their time, below 2^64: no point's lag exceeds the peak backlog; the
  -- recovery time is the plain difference of its end and its start, which is not after the end, and
  -- the drain time of the backlog is 0 or the plain difference of its end and the peak: neither
  -- subtraction wraps.
  pub compute_derived-times :
      (points : List (AggregatedMetricPoint F))
      → Ordered points
      → All (λ (p : AggregatedMetricPoint F). p.timestamp_s < u64_mod) points
      → let d = compute_derived points in
        All (λ (p : AggregatedMetricPoint F). p.kafka_consumer_lag ≤ d.ingest_peak_backlog) points
        × (recovery_start points ≤ end_of_recovery points)
        × (d.recovery_time_to_baseline_s
            ≡ fl.of_nat (end_of_recovery points - recovery_start points))
        × (peak_lag_time points ≤ end_of_backlog points)
        × ((d.ingest_backlog_drain_time_s ≡ zero_f)
            ⊎ (d.ingest_backlog_drain_time_s
                ≡ fl.of_nat (end_of_backlog points - peak_lag_time points)))
  unfolding compute_derived
  compute_derived-times points o b =
      let test = λ (p : AggregatedMetricPoint F).
        str_eq p.phase "recovery" || str_eq p.phase "post_incident" in
      let threshold = fl.mul (p99_of (in_phase "baseline" points)) (fl.lit 12 1) in
      let low =
        All-filter (λ (p : AggregatedMetricPoint F). p.timestamp_s < u64_mod) test points b in
      let le : recovery_start points ≤ end_of_recovery points =
        unfold recovery_end recovery_start in
        Ordered-first (recovered threshold) (filter test points) (filter-Ordered test points o) in
      let lt : end_of_recovery points < u64_mod =
        unfold recovery_end recovery_start in
        first_time-lt u64_mod (recovered threshold) _ (filter test points)
          (first_time-lt u64_mod (λ _. true) 0 (filter test points) (omega arith) low) low in
      (
        unfold peak_backlog in lags-bound (peak_backlog points) points (max_of-bound (lags points)),
        le,
        ap fl.of_nat (plain_sub (end_of_recovery points) (recovery_start points) le lt),
        drain_time-ge _ points,
        backlog_drain-plain points b,
      )
