-- ===== src/Metrics/Derived.antt =====
-- `compute_derived`, `mean_of` and `Scorecard::from_derived` of
-- crates/incidentbench-common/src/metrics.rs.
use incident_bench.Base.{
  ℕ, ◌+◌, max, String, Bool, true, not, ◌&&◌, ◌||◌, Option, none, some, List, [], ◌∷◌, map, filter,
  first, length, is_empty, ltb, leb, ◌==◌, if◌then◌else◌, sub_u64, sum_u64, str_eq, F64, zero_f,
}
use incident_bench.Metrics.{AggregatedMetricPoint}

pub record DerivedMetrics {ℓ} (F : Type ℓ) : Type ℓ where
  pub query_baseline_p50 : F
  pub query_baseline_p99 : F
  pub query_overlap_p50 : F
  pub query_overlap_p99 : F
  pub query_p99_ratio : F
  pub query_error_rate_overlap : F
  pub query_throughput_ratio : F
  pub ingest_baseline_eps : F
  pub ingest_peak_eps : F
  pub ingest_throughput_ratio : F
  pub ingest_peak_backlog : ℕ
  pub ingest_backlog_drain_time_s : F
  pub recovery_time_to_baseline_s : F

pub record Scorecard {ℓ} (F : Type ℓ) : Type ℓ where
  pub baseline_p99_ms : F
  pub overlap_p99_ms : F
  pub p99_degradation_ratio : F
  pub query_error_rate_overlap : F
  pub peak_backlog : ℕ
  pub backlog_drain_time_s : F
  pub recovery_time_s : F

-- `iter().max().unwrap_or(0)`.
unfoldable pub max_of : List ℕ → ℕ
max_of [] = 0
max_of (x ∷ xs) = max x (max_of xs)

module _ {ℓ} {F : Type ℓ} where
  abbrev pub in_phase : String → List (AggregatedMetricPoint F) → List (AggregatedMetricPoint F)
  in_phase name points = filter (λ (p : AggregatedMetricPoint F). str_eq p.phase name) points

  abbrev pub in_phases :
      String → String → List (AggregatedMetricPoint F) → List (AggregatedMetricPoint F)
  in_phases a b points =
      filter (λ (p : AggregatedMetricPoint F). str_eq p.phase a || str_eq p.phase b) points

  abbrev pub lags : List (AggregatedMetricPoint F) → List ℕ
  lags points = map (λ (p : AggregatedMetricPoint F). p.kafka_consumer_lag) points

  -- `filter(test).map(|p| p.timestamp_s).next().unwrap_or(default)`.
  unfoldable pub first_time :
      (AggregatedMetricPoint F → Bool) → ℕ → List (AggregatedMetricPoint F) → ℕ
  first_time test default [] = default
  first_time test default (p ∷ ps) =
      let rest = first_time test default ps in if test p then p.timestamp_s else rest

  unfoldable pub peak_backlog : List (AggregatedMetricPoint F) → ℕ
  unfolding max_of
  peak_backlog points = max_of (lags points)

  unfoldable pub peak_lag_time : List (AggregatedMetricPoint F) → ℕ
  unfolding first_time peak_backlog
  peak_lag_time points = first_time (λ p. p.kafka_consumer_lag == peak_backlog points) 0 points

  -- The end of the backlog, with the baseline's lag.
  unfoldable pub drain_time : ℕ → List (AggregatedMetricPoint F) → ℕ
  unfolding first_time peak_lag_time
  drain_time baseline_lag points =
      first_time
        (λ p.
          ltb (peak_lag_time points) p.timestamp_s
          && leb p.kafka_consumer_lag (max baseline_lag 100))
        (peak_lag_time points) points

  unfoldable pub recovery_start : List (AggregatedMetricPoint F) → ℕ
  unfolding first_time
  recovery_start points = first_time (λ _. true) 0 (in_phases "recovery" "post_incident" points)

module _ {ℓ} {F : Type ℓ} ⦃fl : F64 F⦄ where
  mean_from : ℕ → F → List F → F
  mean_from count sum [] = if ltb 0 count then fl.div sum (fl.of_nat count) else zero_f
  mean_from count sum (v ∷ vs) = mean_from (count + 1) (fl.add sum v) vs

  unfoldable pub mean_of : List F → F
  unfolding mean_from
  mean_of values = mean_from 0 zero_f values

  -- `if d > 0.0 { n / d } else { 0.0 }`.
  abbrev pub ratio : F → F → F
  ratio n d = if fl.lt zero_f d then fl.div n d else zero_f

  abbrev pub fold_max : F → List F → F
  fold_max acc [] = acc
  fold_max acc (x ∷ xs) = fold_max (fl.fmax acc x) xs

  abbrev of_first : (AggregatedMetricPoint F → F) → Option (AggregatedMetricPoint F) → F
  of_first f none = zero_f
  of_first f (some p) = f p

  unfoldable pub p99_of : List (AggregatedMetricPoint F) → F
  p99_of points = mean_of (map (λ (p : AggregatedMetricPoint F). p.query_latency.p99) points)

  unfoldable pub p50_of : List (AggregatedMetricPoint F) → F
  p50_of points = mean_of (map (λ (p : AggregatedMetricPoint F). p.query_latency.p50) points)

  unfoldable pub recovered : F → AggregatedMetricPoint F → Bool
  recovered threshold p = fl.le p.query_latency.p99 threshold && fl.lt zero_f p.query_latency.p99

  unfoldable pub recovery_end : F → List (AggregatedMetricPoint F) → ℕ
  unfolding first_time recovered recovery_start
  recovery_end threshold points =
      first_time (recovered threshold) (recovery_start points)
        (in_phases "recovery" "post_incident" points)

  unfoldable pub backlog_drain : List (AggregatedMetricPoint F) → F
  backlog_drain points =
      let baseline_lag = fl.to_u64 (mean_of (map fl.of_nat (lags (in_phase "baseline" points)))) in
      if peak_backlog points == 0 || peak_lag_time points == 0
      then zero_f
      else fl.of_nat (sub_u64 (drain_time baseline_lag points) (peak_lag_time points))

  -- `compute_derived`, on the points of the time series.
  unfoldable pub compute_derived : List (AggregatedMetricPoint F) → DerivedMetrics F
  unfolding backlog_drain recovery_end p50_of p99_of
  compute_derived points =
      let baseline = in_phase "baseline" points in
      let overlap = in_phase "overlap" points in
      let queries = sum_u64 (map (λ (p : AggregatedMetricPoint F). p.query_executed) overlap) in
      let errors = sum_u64 (map (λ (p : AggregatedMetricPoint F). p.query_errors) overlap) in
      let produced =
        sum_u64 (map (λ (p : AggregatedMetricPoint F). p.ingest_events_produced) overlap) in
      let per_second = λ (n : ℕ).
        if not (is_empty overlap)
        then fl.div (fl.of_nat n) (fl.of_nat (length overlap))
        else zero_f in
      let start = recovery_start points in
      let end = recovery_end (fl.mul (p99_of baseline) (fl.lit 12 1)) points in
      record {
        query_baseline_p50 = p50_of baseline;
        query_baseline_p99 = p99_of baseline;
        query_overlap_p50 = p50_of overlap;
        query_overlap_p99 = p99_of overlap;
        query_p99_ratio = ratio (p99_of overlap) (p99_of baseline);
        query_error_rate_overlap =
            if ltb 0 queries then fl.div (fl.of_nat errors) (fl.of_nat queries) else zero_f;
        query_throughput_ratio =
            ratio (per_second queries) (of_first (λ p. p.query_target_qps) (first overlap));
        ingest_baseline_eps =
            mean_of
              (map (λ (p : AggregatedMetricPoint F). fl.of_nat p.ingest_events_produced) baseline);
        ingest_peak_eps = fold_max zero_f (
            map (λ (p : AggregatedMetricPoint F). fl.of_nat p.ingest_events_produced)
              (in_phases "ingestion_surge" "overlap" points));
        ingest_throughput_ratio =
            ratio (per_second produced)
              (of_first (λ p. fl.of_nat p.ingest_target_eps) (first overlap));
        ingest_peak_backlog = peak_backlog points;
        ingest_backlog_drain_time_s = backlog_drain points;
        recovery_time_to_baseline_s = fl.of_nat (sub_u64 end start);
      }

-- `Scorecard::from_derived`.
unfoldable pub from_derived {ℓ} : {F : Type ℓ} → DerivedMetrics F → Scorecard F
from_derived d = record {
  baseline_p99_ms = d.query_baseline_p99;
  overlap_p99_ms = d.query_overlap_p99;
  p99_degradation_ratio = d.query_p99_ratio;
  query_error_rate_overlap = d.query_error_rate_overlap;
  peak_backlog = d.ingest_peak_backlog;
  backlog_drain_time_s = d.ingest_backlog_drain_time_s;
  recovery_time_s = d.recovery_time_to_baseline_s;
}
