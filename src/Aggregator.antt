-- ===== src/Aggregator.antt =====
-- The aggregator of crates/incidentbench-worker/src/aggregator.rs: its state and the handlers of its
-- service. A handler that holds the lock is one step on the state; what a step sends or writes is
-- part of its result. Logging is left out.
pub mod Snapshots
pub mod Bucket
pub mod Results
pub mod Service
pub mod Runs
pub mod Filing
pub mod Seconds
pub mod Adding
pub mod Totals
pub mod Lifetime
pub mod Ending
use incident_bench.Base.{
  ℕ, ◌-◌, ◌+◌, ◌/◌, max, ℤ, pos, negsuc, as_u64, u64_mod, max_zero, add_u32, add_u64, sum_u64,
  String, Bool, true, false, Option, none, some, List, [], ◌∷◌, ◌++◌, map, length, take, ltb, leb,
  ◌==◌, if◌then◌else◌, lookup, insert, unwrap_or, str_eq, F64,
}
use incident_bench.Metrics.{
  Centroid, LatencyDistribution, AggregatedMetricPoint, PerQueryTimeSeriesPoint,
}
use incident_bench.Aggregator.Snapshots.{
  QueryTypeLatency, TimedOutQueryRecord, QueryErrorRecord, WorkerMetricSnapshot, SecondBucket,
  file_snapshot,
}
use incident_bench.Aggregator.Bucket.{try_aggregate_bucket, build_per_query_timeseries_points}
use incident_bench.Aggregator.Results.{
  PerQueryAccumulator, AggregatedSnapshot, metric_point_to_proto,
}

pub data AggState : Type 0 where
  collecting complete : AggState

pub record AggregatorState {ℓ} (F : Type ℓ) : Type ℓ where
  pub buckets : List (ℕ × SecondBucket F)
  pub timeline : List (AggregatedMetricPoint F)
  pub kafka_consumer_lag : ℕ
  pub per_stream_lag : List (String × ℕ)
  pub connected_workers : ℕ
  pub had_workers : Bool
  pub total_snapshots : ℕ
  pub state : AggState
  pub timed_out_queries : List (TimedOutQueryRecord F)
  pub query_error_records : List (QueryErrorRecord F)
  pub per_query_latency : List (String × PerQueryAccumulator F)
  pub per_query_timeseries : List (String × List (PerQueryTimeSeriesPoint F))
  pub results_path : String

-- `timestamp_ns / 1_000_000_000`, towards zero, as a `u64`.
abbrev pub seconds : ℤ → ℕ
seconds (pos n) = n / 1_000_000_000
seconds (negsuc n) = let q = (n + 1) / 1_000_000_000 in if q == 0 then 0 else u64_mod - q

abbrev pub max_query_error_records : ℕ
max_query_error_records = 1000

-- The entry with the same time is replaced; without one, the new entry goes to the end.
unfoldable pub upsert {ℓ} : {A : Type ℓ} → (A → ℕ) → A → List A → List A
upsert time x [] = x ∷ []
upsert time x (y ∷ ys) =
    let rest = upsert time x ys in if time y == time x then x ∷ ys else y ∷ rest

-- A stable sort by time, as `sort_by_key`.
insert_time {ℓ} : {A : Type ℓ} → (A → ℕ) → A → List A → List A
insert_time time x [] = x ∷ []
insert_time time x (y ∷ ys) =
    let rest = insert_time time x ys in if ltb (time y) (time x) then y ∷ rest else x ∷ y ∷ ys

unfoldable pub sort_by_time {ℓ} : {A : Type ℓ} → (A → ℕ) → List A → List A
unfolding insert_time
sort_by_time time [] = []
sort_by_time time (x ∷ xs) = insert_time time x (sort_by_time time xs)

module _ {ℓ} {F : Type ℓ} where
  -- `MetricsAggregatorService::new`.
  unfoldable pub new : String → AggregatorState F
  new results_path = record {
    buckets = [];
    timeline = [];
    kafka_consumer_lag = 0;
    per_stream_lag = [];
    connected_workers = 0;
    had_workers = false;
    total_snapshots = 0;
    state = collecting;
    timed_out_queries = [];
    query_error_records = [];
    per_query_latency = [];
    per_query_timeseries = [];
    results_path = results_path;
  }

  abbrev empty_accumulator : PerQueryAccumulator F
  empty_accumulator = record { latencies = []; error_count = 0; timeout_count = 0 }

  repeat : ℕ → F → List F
  repeat ℕ.zero x = []
  repeat (ℕ.suc n) x = x ∷ repeat n x

  -- The latencies that stand for a distribution: each mean as often as it counts, once at least.
  unfoldable pub expand : List (Centroid F) → List F
  unfolding repeat
  expand [] = []
  expand (c ∷ cs) = repeat (max (max_zero c.count) 1) c.mean ++ expand cs

  abbrev add_latency :
      QueryTypeLatency F
      → Option (LatencyDistribution F)
      → List (String × PerQueryAccumulator F)
      → List (String × PerQueryAccumulator F)
  add_latency q none accs = accs
  add_latency q (some d) accs =
      let acc = unwrap_or (lookup q.query_name accs) empty_accumulator in
      insert q.query_name
        (record acc {
          latencies = acc.latencies ++ expand d.centroids;
          error_count = add_u64 acc.error_count (as_u64 q.errors);
        })
        accs

  unfoldable pub add_latencies :
      List (QueryTypeLatency F)
      → List (String × PerQueryAccumulator F)
      → List (String × PerQueryAccumulator F)
  unfolding expand
  add_latencies [] accs = accs
  add_latencies (q ∷ rest) accs = add_latencies rest (add_latency q q.latency accs)

  unfoldable pub count_timeouts :
      List (TimedOutQueryRecord F)
      → List (String × PerQueryAccumulator F)
      → List (String × PerQueryAccumulator F)
  count_timeouts [] accs = accs
  count_timeouts (r ∷ rest) accs =
      let acc = unwrap_or (lookup r.query_name accs) empty_accumulator in
      count_timeouts rest
        (insert r.query_name (record acc { timeout_count = add_u64 acc.timeout_count 1 }) accs)

  -- The sample of error records stays within its bound.
  unfoldable pub add_errors :
      List (QueryErrorRecord F) → List (QueryErrorRecord F) → List (QueryErrorRecord F)
  add_errors new held =
      if ltb (length held) max_query_error_records
      then held ++ take (max_query_error_records - length held) new
      else held

  unfoldable pub upsert_points :
      List (String × PerQueryTimeSeriesPoint F)
      → List (String × List (PerQueryTimeSeriesPoint F))
      → List (String × List (PerQueryTimeSeriesPoint F))
  unfolding upsert
  upsert_points [] series = series
  upsert_points ((name, point) ∷ rest) series = upsert_points rest (
      insert name
        (upsert (λ (p : PerQueryTimeSeriesPoint F). p.timestamp_s) point
          (unwrap_or (lookup name series) []))
        series)

  -- The start of `report_metrics`.
  unfoldable pub open_stream : AggregatorState F → AggregatorState F
  open_stream s = record s { connected_workers = add_u32 s.connected_workers 1; had_workers = true }

  -- The part of the loop body before the aggregation.
  unfoldable pub take_in : WorkerMetricSnapshot F → AggregatorState F → AggregatorState F
  unfolding add_latencies count_timeouts add_errors file_snapshot
  take_in snap s = record s {
    total_snapshots = add_u64 s.total_snapshots 1;
    per_query_latency =
        count_timeouts snap.timed_out_queries
          (add_latencies snap.query_latency_by_type s.per_query_latency);
    buckets = file_snapshot (seconds snap.timestamp_ns) snap s.buckets;
    timed_out_queries = s.timed_out_queries ++ snap.timed_out_queries;
    query_error_records = add_errors snap.query_error_records s.query_error_records;
  }

-- What a snapshot leaves, and what is sent to the live subscribers.
pub record Received {ℓ} (F : Type ℓ) : Type ℓ where
  pub state : AggregatorState F
  pub live : Option (AggregatedSnapshot F)

module _ {ℓ} {F : Type ℓ} ⦃fl : F64 F⦄ where
  unfoldable pub publish : ℕ → Option (AggregatedMetricPoint F) → AggregatorState F → Received F
  publish t none s = record { state = s; live = none }
  publish t (some point) s = record {
    state = record s {
      per_query_timeseries =
          upsert_points (build_per_query_timeseries_points s.buckets t) s.per_query_timeseries;
      timeline = upsert (λ (p : AggregatedMetricPoint F). p.timestamp_s) point s.timeline;
    };
    live = some (metric_point_to_proto point);
  }

  -- The body of the loop of `report_metrics`.
  unfoldable pub receive : WorkerMetricSnapshot F → AggregatorState F → Received F
  unfolding publish take_in upsert_points upsert
  receive snap s =
      let t = seconds snap.timestamp_ns in
      let s' = take_in snap s in
      publish t (try_aggregate_bucket s'.buckets t s'.kafka_consumer_lag) s'

-- What `complete_aggregation` writes in the background: the files of `persist_results`.
pub record Persisted {ℓ} (F : Type ℓ) : Type ℓ where
  pub path : String
  pub timeline : List (AggregatedMetricPoint F)
  pub timed_out_queries : List (TimedOutQueryRecord F)
  pub query_error_records : List (QueryErrorRecord F)
  pub per_query : List (String × PerQueryAccumulator F)
  pub per_query_timeseries : List (String × List (PerQueryTimeSeriesPoint F))

module _ {ℓ} {F : Type ℓ} where
  unfoldable pub persisted : AggregatorState F → Persisted F
  unfolding sort_by_time
  persisted s = record {
    path = s.results_path;
    timeline = sort_by_time (λ (p : AggregatedMetricPoint F). p.timestamp_s) s.timeline;
    timed_out_queries = s.timed_out_queries;
    query_error_records = s.query_error_records;
    per_query = s.per_query_latency;
    per_query_timeseries =
        map
          (λ (e : String × List (PerQueryTimeSeriesPoint F)).
            (e.0, sort_by_time (λ (p : PerQueryTimeSeriesPoint F). p.timestamp_s) e.1))
          s.per_query_timeseries;
  }

  unfoldable pub complete_from :
      AggState → AggregatorState F → AggregatorState F × Option (Persisted F)
  unfolding persisted
  complete_from complete s = (s, none)
  complete_from collecting s =
      (record s { state = complete }, if str_eq s.results_path "" then none else some (persisted s))

  unfoldable pub complete_aggregation : AggregatorState F → AggregatorState F × Option (Persisted F)
  unfolding complete_from
  complete_aggregation s = complete_from s.state s

  -- The end of `report_metrics`: the stream has closed.
  unfoldable pub close_stream : AggregatorState F → AggregatorState F × Option (Persisted F)
  unfolding complete_aggregation
  close_stream s =
      let s' = record s { connected_workers = s.connected_workers - 1 } in
      if s'.connected_workers == 0
      then if s'.had_workers then complete_aggregation s' else (s', none)
      else (s', none)

  -- A result of the lag polling of a stream.
  unfoldable pub record_lag : String → ℕ → AggregatorState F → AggregatorState F
  record_lag stream lag s =
      let lags = insert stream lag s.per_stream_lag in
      record s {
        per_stream_lag = lags;
        kafka_consumer_lag = sum_u64 (map (λ (e : String × ℕ). e.1) lags);
      }
