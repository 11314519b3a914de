-- ===== src/Examples/Reports.antt =====
-- Two workers that report three snapshots in two seconds, and the latencies that they saw.
use incident_bench.Base.{
  ℕ, Bool, ◌+◌, ◌≤◌, ◌%◌, ◌^◌, ◌*◌, ◌/◌, min, ◌≡◌, refl, ◌⊎◌, ◌≢◌, pos, leb, String, true, none,
  some, List, [], ◌∷◌, All, arith, length, u64_mod, zero_f, ◌-◌,
}
use incident_bench.Metrics.{
  LatencyDistribution, AggregatedMetricPoint, default_summary, merge_latency_distributions,
  latency_distribution_from_values,
}
use incident_bench.Metrics.Derived.{compute_derived, recovery_start, peak_lag_time}
use incident_bench.Metrics.Percentiles.{HasQuantiles, InOrder, merge_latency_distributions-InOrder}
use incident_bench.Metrics.Reach.{counted}
use incident_bench.Metrics.Compression.{latency_distribution_from_values-counts}
use incident_bench.Metrics.Backlog.{end_of_recovery, end_of_backlog, compute_derived-times}
use incident_bench.Aggregator.Snapshots.{WorkerMetricSnapshot}
use incident_bench.Aggregator.Bucket.{aggregate}
use incident_bench.Aggregator.{complete, new}
use incident_bench.Aggregator.Service.{get_results}
use incident_bench.Aggregator.Runs.{
  Event, opened, snapshot, closed, polled, run, received, at_second, by_mode, points_at,
}
use incident_bench.Aggregator.Totals.{Agree, timeline-Agree}
use incident_bench.Aggregator.Seconds.{timeline-seconds}
use incident_bench.Aggregator.Lifetime.{run-counts}
use incident_bench.Aggregator.Ending.{Branches, run-complete, get_results-Branches}
use incident_bench.Examples.Milli.{Milli, milli, milli-IsOrdered}

half_le_most :
    (n : ℕ)
    → min (n * 1000 * 500 / 1000 / 1000) (2 ^ 63 - 1)
      ≤ min (n * 1000 * 950 / 1000 / 1000) (2 ^ 63 - 1)
half_le_most n = omega arith

most_le_all :
    (n : ℕ)
    → min (n * 1000 * 950 / 1000 / 1000) (2 ^ 63 - 1)
      ≤ min (n * 1000 * 990 / 1000 / 1000) (2 ^ 63 - 1)
most_le_all n = omega arith

le-leb : (a b : ℕ) → a ≤ b → leb a b ≡ true
le-leb a b h = ground arith

milli-HasQuantiles : HasQuantiles Milli
milli-HasQuantiles = record {
  half = λ n. le-leb _ _ (half_le_most n);
  most = λ n. le-leb _ _ (most_le_all n);
  max-ge_left = λ x y h. ground arith;
  max-ge = λ x y h. ground arith;
}

abbrev pub ms : ℕ → Milli
ms n = record { thousandths = n * 1000 }

abbrev fast : LatencyDistribution Milli
fast = record {
  centroids = record { mean = ms 12; count = pos 90 } ∷ record { mean = ms 8; count = pos 9 } ∷ [];
  count = pos 99;
  min = ms 7;
  max = ms 15;
}

abbrev slow : LatencyDistribution Milli
slow = record {
  centroids = record { mean = ms 400; count = pos 4 } ∷ [];
  count = pos 4;
  min = ms 390;
  max = ms 410;
}

merge_latency_distributions-InOrder_example :
    InOrder (merge_latency_distributions (fast ∷ slow ∷ []))
merge_latency_distributions-InOrder_example =
    merge_latency_distributions-InOrder milli-IsOrdered milli-HasQuantiles (fast ∷ slow ∷ [])
      ((refl, (refl, tt)), ((refl, tt), tt)) (refl, (refl, (refl, tt))) (omega arith)

latency_distribution_from_values-counts_example :
    let d = latency_distribution_from_values (ms 3 ∷ ms 1 ∷ ms 2 ∷ []) in
    (counted d.centroids ≡ 3) × (d.count ≡ pos 3) × (length d.centroids ≤ 199)
latency_distribution_from_values-counts_example =
    latency_distribution_from_values-counts (ms 3 ∷ ms 1 ∷ ms 2 ∷ []) (omega arith)

abbrev pub point : ℕ → String → ℕ → AggregatedMetricPoint Milli
point t phase lag = record {
  timestamp_s = t;
  phase = phase;
  ingest_events_produced = 1000;
  ingest_events_acknowledged = 1000;
  ingest_events_failed = 0;
  ingest_target_eps = 1000;
  ingest_kafka_produce_latency = default_summary;
  query_executed = 5;
  query_errors = 0;
  query_target_qps = ms 5;
  query_latency = record { p50 = ms 5; p95 = ms 9; p99 = ms 10; max = ms 11; count = 5 };
  kafka_consumer_lag = lag;
  ingest_workers_reporting = 1;
  query_workers_reporting = 1;
  concurrent_sessions = 0;
  harness_saturated = Bool.false;
  max_worker_cpu = zero_f;
  query_group_metrics = [];
}

abbrev pub four_points : List (AggregatedMetricPoint Milli)
four_points =
    point 100 "baseline" 10
    ∷ point 101 "overlap" 900
    ∷ point 102 "recovery" 300
    ∷ point 103 "recovery" 20
    ∷ []

compute_derived-times_example :
    let d = compute_derived four_points in
    All
      (λ (p : AggregatedMetricPoint Milli). p.kafka_consumer_lag ≤ d.ingest_peak_backlog)
      four_points
    × (recovery_start four_points ≤ end_of_recovery four_points)
    × (d.recovery_time_to_baseline_s
        ≡ milli.of_nat (end_of_recovery four_points - recovery_start four_points))
    × (peak_lag_time four_points ≤ end_of_backlog four_points)
    × ((d.ingest_backlog_drain_time_s ≡ zero_f)
        ⊎ (d.ingest_backlog_drain_time_s
            ≡ milli.of_nat (end_of_backlog four_points - peak_lag_time four_points)))
compute_derived-times_example =
    compute_derived-times four_points
      (
        (omega arith, (omega arith, (omega arith, tt))),
        ((omega arith, (omega arith, tt)), ((omega arith, tt), (tt, tt))),
      )
      (omega arith, (omega arith, (omega arith, (omega arith, tt))))

abbrev from_worker : String → ℕ → ℕ → WorkerMetricSnapshot Milli
from_worker mode t n = record {
  worker_id = mode;
  worker_mode = mode;
  worker_index = pos 0;
  timestamp_ns = pos (t * 1_000_000_000 + 5);
  phase = "baseline";
  events_produced = pos n;
  events_acknowledged = pos n;
  events_failed = pos 0;
  kafka_produce_latency = none;
  queries_executed = pos n;
  query_errors = pos 0;
  query_latency = some fast;
  query_latency_by_type = [];
  query_group = "";
  cpu_utilization = record { thousandths = 250 };
  memory_bytes = pos 4096;
  target_rate = pos 1000;
  concurrent_sessions = pos 0;
  timed_out_queries = [];
  query_error_records = [];
}

abbrev calls_behind : List (Event Milli)
calls_behind =
    opened
    ∷ snapshot (from_worker "ingest" 100 500)
    ∷ snapshot (from_worker "query" 101 7)
    ∷ polled "logs" 40
    ∷ closed
    ∷ snapshot (from_worker "ingest" 100 300)
    ∷ closed
    ∷ []

abbrev calls : List (Event Milli)
calls = opened ∷ calls_behind

timeline-seconds_example :
    let here = at_second 100 (received calls) in
    let timeline = (run calls (new "")).timeline in
    ((here ≡ []) × (points_at 100 timeline ≡ []))
    ⊎ ((here ≢ []) × ((lag : ℕ) × (points_at 100 timeline ≡ aggregate 100 lag (by_mode here) ∷ [])))
timeline-seconds_example = timeline-seconds "" calls 100

timeline-Agree_example : Agree (run calls (new "")).timeline (by_mode (received calls))
timeline-Agree_example = timeline-Agree "" calls

run-counts_example :
    let s = run calls (new "") in
    (length s.query_error_records ≤ 1000) × (s.total_snapshots ≡ 3 % u64_mod)
run-counts_example = run-counts "" calls

run-complete_example : (run (opened ∷ calls_behind) (new "")).state ≡ complete
run-complete_example = run-complete "" calls_behind (omega arith) (omega arith, (omega arith, refl))

get_results-Branches_example : Branches (get_results (run calls (new ""))) (run calls (new ""))
get_results-Branches_example = get_results-Branches (run calls (new ""))
