-- ===== src/Aggregator/Bucket.antt =====
-- `try_aggregate_bucket` and `build_per_query_timeseries_points` of
-- crates/incidentbench-worker/src/aggregator.rs. A map's order of iteration is that of its list.
use incident_bench.Base.{
  ℕ, ℤ, as_u64, max_zero, add_u64, sum_u64, sum_u32, u32_mod, ◌%◌, String, Option, none, some, List,
  [], ◌∷◌, ◌++◌, map, first, length, lookup, insert, unwrap_or, str_eq, if◌then◌else◌, F64, zero_f,
}
use incident_bench.Metrics.{
  LatencyDistribution, QueryGroupMetrics, AggregatedMetricPoint, PerQueryTimeSeriesPoint,
  merge_latency_distributions,
}
use incident_bench.Aggregator.Snapshots.{
  QueryTypeLatency, WorkerMetricSnapshot, SecondBucket, bucket_at,
}

-- `filter_map(|s| s.field)`.
abbrev pub present {ℓ} : {A : Type ℓ} → List (Option A) → List A
present [] = []
present (none ∷ xs) = present xs
present (some a ∷ xs) = a ∷ present xs

-- `first().or(second.first())`.
abbrev pub first_of {ℓ} : {A : Type ℓ} → List A → List A → Option A
first_of [] ys = first ys
first_of (x ∷ xs) ys = some x

module _ {ℓ} {F : Type ℓ} where
  abbrev pub phase_of : Option (WorkerMetricSnapshot F) → String
  phase_of none = ""
  phase_of (some s) = s.phase

  -- `iter().map(|s| s.field as u64).sum()`.
  abbrev pub total : (WorkerMetricSnapshot F → ℤ) → List (WorkerMetricSnapshot F) → ℕ
  total field snaps = sum_u64 (map (λ s. as_u64 (field s)) snaps)

  -- The map from a query group to its snapshots.
  unfoldable pub by_group :
      List (String × List (WorkerMetricSnapshot F))
      → List (WorkerMetricSnapshot F)
      → List (String × List (WorkerMetricSnapshot F))
  by_group groups [] = groups
  by_group groups (s ∷ rest) =
      by_group
        (if str_eq s.query_group ""
          then groups
          else insert s.query_group (unwrap_or (lookup s.query_group groups) [] ++ s ∷ []) groups)
        rest

module _ {ℓ} {F : Type ℓ} ⦃fl : F64 F⦄ where
  abbrev max_cpu_from : F → List (WorkerMetricSnapshot F) → F
  max_cpu_from acc [] = acc
  max_cpu_from acc (s ∷ rest) = max_cpu_from (fl.fmax acc s.cpu_utilization) rest

  unfoldable pub max_cpu : SecondBucket F → F
  max_cpu b = max_cpu_from zero_f (b.ingest_snapshots ++ b.query_snapshots)

  -- `target_mqps as f64 / 1000.0`.
  abbrev pub qps : ℕ → F
  qps n = fl.div (fl.of_nat n) (fl.lit 1000 0)

  unfoldable pub group_metrics :
      String × List (WorkerMetricSnapshot F) → String × QueryGroupMetrics F
  group_metrics (name, snaps) = (
    name,
    record {
      executed = total (λ s. s.queries_executed) snaps;
      errors = total (λ s. s.query_errors) snaps;
      target_qps = qps (total (λ s. s.target_rate) snaps);
      latency =
          merge_latency_distributions
            (present (map (λ (s : WorkerMetricSnapshot F). s.query_latency) snaps));
      warehouse_name = "";
    },
  )

  -- The point of a bucket.
  unfoldable pub aggregate : ℕ → ℕ → SecondBucket F → AggregatedMetricPoint F
  unfolding max_cpu group_metrics by_group
  aggregate t lag b =
      let ingest = b.ingest_snapshots in
      let query = b.query_snapshots in
      record {
        timestamp_s = t;
        phase = phase_of (first_of ingest query);
        ingest_events_produced = total (λ s. s.events_produced) ingest;
        ingest_events_acknowledged = total (λ s. s.events_acknowledged) ingest;
        ingest_events_failed = total (λ s. s.events_failed) ingest;
        ingest_target_eps = total (λ s. s.target_rate) ingest;
        ingest_kafka_produce_latency =
            merge_latency_distributions
              (present (map (λ (s : WorkerMetricSnapshot F). s.kafka_produce_latency) ingest));
        query_executed = total (λ s. s.queries_executed) query;
        query_errors = total (λ s. s.query_errors) query;
        query_target_qps = qps (total (λ s. s.target_rate) query);
        query_latency =
            merge_latency_distributions
              (present (map (λ (s : WorkerMetricSnapshot F). s.query_latency) query));
        kafka_consumer_lag = lag;
        ingest_workers_reporting = length ingest % u32_mod;
        query_workers_reporting = length query % u32_mod;
        concurrent_sessions =
            sum_u32 (map (λ (s : WorkerMetricSnapshot F). max_zero s.concurrent_sessions) query);
        harness_saturated = fl.lt (fl.lit 9 1) (max_cpu b);
        max_worker_cpu = max_cpu b;
        query_group_metrics = map group_metrics (by_group [] query);
      }

  try_aggregate : ℕ → ℕ → Option (SecondBucket F) → Option (AggregatedMetricPoint F)
  unfolding aggregate
  try_aggregate t lag none = none
  try_aggregate t lag (some b) = some (aggregate t lag b)

  unfoldable pub try_aggregate_bucket :
      List (ℕ × SecondBucket F) → ℕ → ℕ → Option (AggregatedMetricPoint F)
  unfolding try_aggregate bucket_at
  try_aggregate_bucket buckets t lag = try_aggregate t lag (bucket_at t buckets)

module _ {ℓ} {F : Type ℓ} where
  abbrev add_distribution :
      String
      → Option (LatencyDistribution F)
      → List (String × List (LatencyDistribution F))
      → List (String × List (LatencyDistribution F))
  add_distribution name none dists = dists
  add_distribution name (some d) dists =
      insert name (unwrap_or (lookup name dists) [] ++ d ∷ []) dists

  unfoldable pub query_types : List (WorkerMetricSnapshot F) → List (QueryTypeLatency F)
  query_types [] = []
  query_types (s ∷ rest) = s.query_latency_by_type ++ query_types rest

  unfoldable pub distributions_by_query :
      List (String × List (LatencyDistribution F))
      → List (QueryTypeLatency F)
      → List (String × List (LatencyDistribution F))
  distributions_by_query dists [] = dists
  distributions_by_query dists (q ∷ rest) =
      distributions_by_query (add_distribution q.query_name q.latency dists) rest

  unfoldable pub errors_by_query : List (String × ℕ) → List (QueryTypeLatency F) → List (String × ℕ)
  errors_by_query errors [] = errors
  errors_by_query errors (q ∷ rest) =
      errors_by_query
        (insert q.query_name (add_u64 (unwrap_or (lookup q.query_name errors) 0) (as_u64 q.errors))
          errors)
        rest

module _ {ℓ} {F : Type ℓ} ⦃fl : F64 F⦄ where
  per_query_points : ℕ → Option (SecondBucket F) → List (String × PerQueryTimeSeriesPoint F)
  unfolding distributions_by_query errors_by_query query_types
  per_query_points t none = []
  per_query_points t (some b) =
      let types = query_types b.query_snapshots in
      let errors = errors_by_query [] types in
      let phase = phase_of (first_of b.query_snapshots b.ingest_snapshots) in
      map
        (λ (e : String × List (LatencyDistribution F)).
          let merged = merge_latency_distributions e.1 in
          (
            e.0,
            record {
              timestamp_s = t;
              phase = phase;
              p95_ms = merged.p95;
              count = merged.count;
              error_count = unwrap_or (lookup e.0 errors) 0;
            },
          ))
        (distributions_by_query [] types)

  unfoldable pub build_per_query_timeseries_points :
      List (ℕ × SecondBucket F) → ℕ → List (String × PerQueryTimeSeriesPoint F)
  unfolding per_query_points bucket_at
  build_per_query_timeseries_points buckets t = per_query_points t (bucket_at t buckets)
