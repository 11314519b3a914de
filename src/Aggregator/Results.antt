-- ===== src/Aggregator/Results.antt =====
-- What the aggregator of crates/incidentbench-worker/src/aggregator.rs sends out: the snapshot of a
-- point, and the summary of a query's latencies over the run.
use incident_bench.Base.{
  ℕ, ◌-◌, min, ℤ, as_i64, as_i32, mul_u64, String, Bool, Option, some, List, map, length, last,
  get_elem?, ◌==◌, if◌then◌else◌, F64, zero_f,
}
use incident_bench.Metrics.{PercentileSummary, AggregatedMetricPoint, sort_by, value_or_zero}

-- The percentiles of the wire, with a signed count.
pub record ProtoPercentile {ℓ} (F : Type ℓ) : Type ℓ where
  pub p50 : F
  pub p95 : F
  pub p99 : F
  pub max : F
  pub count : ℤ

pub record AggregatedSnapshot {ℓ} (F : Type ℓ) : Type ℓ where
  pub timestamp_ns : ℤ
  pub phase : String
  pub ingest_events_produced : ℤ
  pub ingest_events_acknowledged : ℤ
  pub ingest_events_failed : ℤ
  pub ingest_target_eps : ℤ
  pub ingest_kafka_produce_latency : Option (ProtoPercentile F)
  pub query_executed : ℤ
  pub query_errors : ℤ
  pub query_target_qps : F
  pub query_latency : Option (ProtoPercentile F)
  pub kafka_consumer_lag : ℤ
  pub ingest_workers_reporting : ℤ
  pub query_workers_reporting : ℤ
  pub concurrent_sessions : ℤ
  pub harness_saturated : Bool
  pub max_worker_cpu : F

unfoldable pub to_proto_percentile {ℓ} : {F : Type ℓ} → PercentileSummary F → ProtoPercentile F
to_proto_percentile s = record {
  p50 = s.p50;
  p95 = s.p95;
  p99 = s.p99;
  max = s.max;
  count = as_i64 s.count;
}

-- `metric_point_to_proto`.
unfoldable pub metric_point_to_proto {ℓ} :
    {F : Type ℓ} → AggregatedMetricPoint F → AggregatedSnapshot F
unfolding to_proto_percentile
metric_point_to_proto p = record {
  timestamp_ns = as_i64 (mul_u64 p.timestamp_s 1_000_000_000);
  phase = p.phase;
  ingest_events_produced = as_i64 p.ingest_events_produced;
  ingest_events_acknowledged = as_i64 p.ingest_events_acknowledged;
  ingest_events_failed = as_i64 p.ingest_events_failed;
  ingest_target_eps = as_i64 p.ingest_target_eps;
  ingest_kafka_produce_latency = some (to_proto_percentile p.ingest_kafka_produce_latency);
  query_executed = as_i64 p.query_executed;
  query_errors = as_i64 p.query_errors;
  query_target_qps = p.query_target_qps;
  query_latency = some (to_proto_percentile p.query_latency);
  kafka_consumer_lag = as_i64 p.kafka_consumer_lag;
  ingest_workers_reporting = as_i32 p.ingest_workers_reporting;
  query_workers_reporting = as_i32 p.query_workers_reporting;
  concurrent_sessions = as_i32 p.concurrent_sessions;
  harness_saturated = p.harness_saturated;
  max_worker_cpu = p.max_worker_cpu;
}

pub record PerQueryAccumulator {ℓ} (F : Type ℓ) : Type ℓ where
  pub latencies : List F
  pub error_count : ℕ
  pub timeout_count : ℕ

pub record QueryLatencySummary {ℓ} (F : Type ℓ) : Type ℓ where
  pub query_name : String
  pub p50 : F
  pub p95 : F
  pub p99 : F
  pub max : F
  pub count : ℤ
  pub error_count : ℤ
  pub timeout_count : ℤ

module _ {ℓ} {F : Type ℓ} ⦃fl : F64 F⦄ where
  -- The closure `percentile`, on the sorted latencies.
  unfoldable pub percentile : List F → F → F
  percentile sorted p =
      let n = length sorted in
      let index =
        fl.to_u64
          (fl.round (fl.mul (fl.div p (fl.lit 100 0)) (fl.sub (fl.of_nat n) (fl.lit 1 0)))) in
      if n == 0 then zero_f else value_or_zero (get_elem? sorted (min index (n - 1)))

  unfoldable pub summarize : String × PerQueryAccumulator F → QueryLatencySummary F
  unfolding percentile sort_by
  summarize (name, a) =
      let sorted = sort_by (λ x. x) a.latencies in
      record {
        query_name = name;
        p50 = percentile sorted (fl.lit 50 0);
        p95 = percentile sorted (fl.lit 95 0);
        p99 = percentile sorted (fl.lit 99 0);
        max = value_or_zero (last sorted);
        count = as_i64 (length sorted);
        error_count = as_i64 (a.error_count - a.timeout_count);
        timeout_count = as_i64 a.timeout_count;
      }

  -- `compute_per_query_summaries`.
  unfoldable pub compute_per_query_summaries :
      List (String × PerQueryAccumulator F) → List (QueryLatencySummary F)
  unfolding summarize
  compute_per_query_summaries acc = map summarize acc
