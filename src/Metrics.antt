-- ===== src/Metrics.antt =====
-- The latency summaries of crates/incidentbench-common/src/metrics.rs and the messages that they
-- are made of. `f64::partial_cmp` gives an order on numbers; `sort_by` is the stable sort by it.
pub mod Derived
pub mod Sorting
pub mod Reach
pub mod Percentiles
pub mod Compression
pub mod Backlog
use incident_bench.Base.{
  ℕ, zero, suc, ◌/◌, max, ℤ, pos, add_i64, as_i64, as_u64, leb_ℤ, String, Bool, Option, none, some,
  List, [], ◌∷◌, ◌++◌, map, if◌then◌else◌, is_empty, length, take, drop, first, last, F64, zero_f,
}

pub record Centroid {ℓ} (F : Type ℓ) : Type ℓ where
  pub mean : F
  pub count : ℤ

pub record LatencyDistribution {ℓ} (F : Type ℓ) : Type ℓ where
  pub centroids : List (Centroid F)
  pub count : ℤ
  pub min : F
  pub max : F

pub record PercentileSummary {ℓ} (F : Type ℓ) : Type ℓ where
  pub p50 : F
  pub p95 : F
  pub p99 : F
  pub max : F
  pub count : ℕ

pub record QueryGroupMetrics {ℓ} (F : Type ℓ) : Type ℓ where
  pub executed : ℕ
  pub errors : ℕ
  pub target_qps : F
  pub latency : PercentileSummary F
  pub warehouse_name : String

pub record AggregatedMetricPoint {ℓ} (F : Type ℓ) : Type ℓ where
  pub timestamp_s : ℕ
  pub phase : String
  pub ingest_events_produced : ℕ
  pub ingest_events_acknowledged : ℕ
  pub ingest_events_failed : ℕ
  pub ingest_target_eps : ℕ
  pub ingest_kafka_produce_latency : PercentileSummary F
  pub query_executed : ℕ
  pub query_errors : ℕ
  pub query_target_qps : F
  pub query_latency : PercentileSummary F
  pub kafka_consumer_lag : ℕ
  pub ingest_workers_reporting : ℕ
  pub query_workers_reporting : ℕ
  pub concurrent_sessions : ℕ
  pub harness_saturated : Bool
  pub max_worker_cpu : F
  pub query_group_metrics : List (String × QueryGroupMetrics F)

pub record PerQueryTimeSeriesPoint {ℓ} (F : Type ℓ) : Type ℓ where
  pub timestamp_s : ℕ
  pub phase : String
  pub p95_ms : F
  pub count : ℕ
  pub error_count : ℕ

abbrev pub is_zero : ℤ → Bool
is_zero (pos zero) = Bool.true
is_zero _ = Bool.false

module _ {ℓ} {F : Type ℓ} ⦃fl : F64 F⦄ where
  -- A stable sort by a key, from the back: an element goes before the first one that is not below it.
  unfoldable pub insert_by {κ} : {A : Type κ} → (A → F) → A → List A → List A
  insert_by key x [] = x ∷ []
  insert_by key x (y ∷ ys) = if fl.lt (key y) (key x) then y ∷ insert_by key x ys else x ∷ y ∷ ys

  unfoldable pub sort_by {κ} : {A : Type κ} → (A → F) → List A → List A
  sort_by key [] = []
  sort_by key (x ∷ xs) = insert_by key x (sort_by key xs)

  -- `PercentileSummary::default()`.
  abbrev pub default_summary : PercentileSummary F
  default_summary = record { p50 = zero_f; p95 = zero_f; p99 = zero_f; max = zero_f; count = 0 }

  -- The loop of `percentile_from_centroids`; `fallback` is what stands behind it.
  unfoldable pub reach : ℤ → ℤ → F → List (Centroid F) → F
  reach target cumulative fallback [] = fallback
  reach target cumulative fallback (c ∷ cs) =
      let rest = reach target (add_i64 cumulative c.count) fallback cs in
      if leb_ℤ target (add_i64 cumulative c.count) then c.mean else rest

  abbrev pub mean_or_zero : Option (Centroid F) → F
  mean_or_zero none = zero_f
  mean_or_zero (some c) = c.mean

  unfoldable pub percentile_from_centroids : List (Centroid F) → ℤ → F → F
  unfolding reach
  percentile_from_centroids centroids total quantile =
      reach (fl.to_i64 (fl.mul (fl.of_int total) quantile)) (pos 0) (mean_or_zero (last centroids))
        centroids

  abbrev pub all_centroids : List (LatencyDistribution F) → List (Centroid F)
  all_centroids [] = []
  all_centroids (d ∷ ds) = d.centroids ++ all_centroids ds

  unfoldable pub total_count : ℤ → List (Centroid F) → ℤ
  total_count acc [] = acc
  total_count acc (c ∷ cs) = total_count (add_i64 acc c.count) cs

  -- `fold(f64::MIN, f64::max)`.
  unfoldable pub global_max : F → List (LatencyDistribution F) → F
  global_max acc [] = acc
  global_max acc (d ∷ ds) = global_max (fl.fmax acc d.max) ds

  unfoldable pub merge_latency_distributions : List (LatencyDistribution F) → PercentileSummary F
  unfolding sort_by percentile_from_centroids total_count global_max
  merge_latency_distributions dists =
      let centroids = sort_by (λ (c : Centroid F). c.mean) (all_centroids dists) in
      let total = total_count (pos 0) centroids in
      if is_empty dists
      then default_summary
      else if is_zero total
      then default_summary
      else record {
        p50 = percentile_from_centroids centroids total (fl.lit 50 2);
        p95 = percentile_from_centroids centroids total (fl.lit 95 2);
        p99 = percentile_from_centroids centroids total (fl.lit 99 2);
        max = global_max fl.lowest dists;
        count = as_u64 total;
      }

  abbrev pub sum_from : F → List F → F
  sum_from acc [] = acc
  sum_from acc (x ∷ xs) = sum_from (fl.add acc x) xs

  -- The loop over `sorted.chunks(size)`; `fuel` chunks are enough when there are no more values.
  unfoldable pub compress : ℕ → ℕ → List F → List (Centroid F)
  compress zero size values = []
  compress (suc fuel) size [] = []
  compress (suc fuel) size (v ∷ vs) =
      let chunk = take size (v ∷ vs) in
      record {
        mean = fl.div (sum_from zero_f chunk) (fl.of_nat (length chunk));
        count = as_i64 (length chunk);
      }
      ∷ compress fuel size (drop size (v ∷ vs))

  abbrev pub value_or_zero : Option F → F
  value_or_zero none = zero_f
  value_or_zero (some x) = x

  unfoldable pub latency_distribution_from_values : List F → LatencyDistribution F
  unfolding sort_by compress
  latency_distribution_from_values [] = record {
    centroids = [];
    count = pos 0;
    min = zero_f;
    max = zero_f;
  }
  latency_distribution_from_values (v ∷ vs) =
      let sorted = sort_by (λ x. x) (v ∷ vs) in
      record {
        centroids = compress (length sorted) (max (length sorted / 100) 1) sorted;
        count = as_i64 (length (v ∷ vs));
        min = value_or_zero (first sorted);
        max = value_or_zero (last sorted);
      }
