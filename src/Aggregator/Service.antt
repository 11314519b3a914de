-- ===== src/Aggregator/Service.antt =====
-- The requests on the aggregator of crates/incidentbench-worker/src/aggregator.rs: its status, the
-- latest snapshot, and the results.
use incident_bench.Base.{
  ℕ, ℤ, as_i64, as_i32, String, Bool, ◌&&◌, Option, none, some, List, [], ◌∷◌, ◌++◌, length, last,
  any, ltb, is_empty, if◌then◌else◌, str_eq, F64,
}
use incident_bench.Metrics.{AggregatedMetricPoint}
use incident_bench.Metrics.Derived.{Scorecard, compute_derived, from_derived}
use incident_bench.Aggregator.Snapshots.{TimedOutQueryRecord}
use incident_bench.Aggregator.Results.{
  QueryLatencySummary, AggregatedSnapshot, metric_point_to_proto, compute_per_query_summaries,
}
use incident_bench.Aggregator.{
  AggState, collecting, complete, AggregatorState, Persisted, complete_aggregation,
}

pub record AggregationStatus : Type 0 where
  pub state : String
  pub snapshots_received : ℤ
  pub seconds_aggregated : ℤ
  pub connected_workers : ℤ

abbrev pub state_name : AggState → String
state_name collecting = "collecting"
state_name complete = "complete"

pub data Violation : Type 0 where
  too_short : ℕ → Violation
  missing_phase : String → Violation

pub data Warning : Type 0 where
  cpu_saturation : Warning

pub record Results {ℓ} (F : Type ℓ) : Type ℓ where
  pub valid : Bool
  pub validity_violations : List Violation
  pub warnings : List Warning
  pub harness_saturated : Bool
  pub scorecard : Scorecard F
  pub timed_out_queries : List (TimedOutQueryRecord F)
  pub per_query_latency : List (QueryLatencySummary F)

-- A reply, `none` for the failed precondition, with the state and what is written.
pub record Replied {ℓ} (F : Type ℓ) : Type ℓ where
  pub state : AggregatorState F
  pub reply : Option (Results F)
  pub written : Option (Persisted F)

module _ {ℓ} {F : Type ℓ} where
  unfoldable pub get_aggregation_status : AggregatorState F → AggregationStatus
  get_aggregation_status s = record {
    state = state_name s.state;
    snapshots_received = as_i64 s.total_snapshots;
    seconds_aggregated = as_i64 (length s.timeline);
    connected_workers = as_i32 s.connected_workers;
  }

  snapshot_of : Option (AggregatedMetricPoint F) → Option (AggregatedSnapshot F)
  snapshot_of none = none
  snapshot_of (some p) = some (metric_point_to_proto p)

  -- `get_latest_snapshot`, with `none` for the empty snapshot.
  unfoldable pub get_latest_snapshot : AggregatorState F → Option (AggregatedSnapshot F)
  unfolding snapshot_of
  get_latest_snapshot s = snapshot_of (last s.timeline)

  abbrev has_phase : String → List (AggregatedMetricPoint F) → Bool
  has_phase name points = any (λ (p : AggregatedMetricPoint F). str_eq p.phase name) points

  unfoldable pub violations : List (AggregatedMetricPoint F) → List Violation
  violations points =
      (if ltb (length points) 10 then too_short (length points) ∷ [] else [])
      ++ ((if has_phase "baseline" points then [] else missing_phase "baseline" ∷ [])
          ++ (if has_phase "overlap" points then [] else missing_phase "overlap" ∷ []))

module _ {ℓ} {F : Type ℓ} ⦃fl : F64 F⦄ where
  -- The response of `get_results` for a state that is complete.
  unfoldable pub results : AggregatorState F → Results F
  unfolding violations
  results s = record {
    valid = is_empty (violations s.timeline);
    validity_violations = violations s.timeline;
    warnings =
        if any (λ (p : AggregatedMetricPoint F). p.harness_saturated) s.timeline
        then cpu_saturation ∷ []
        else [];
    harness_saturated = any (λ (p : AggregatedMetricPoint F). p.harness_saturated) s.timeline;
    scorecard = from_derived (compute_derived s.timeline);
    timed_out_queries = s.timed_out_queries;
    per_query_latency = compute_per_query_summaries s.per_query_latency;
  }

  unfoldable pub reply_from : AggState → AggregatorState F → Replied F
  unfolding results
  reply_from complete s = record { state = s; reply = some (results s); written = none }
  reply_from collecting s =
      let (s', written) = complete_aggregation s in
      if s.had_workers && ltb 0 s.total_snapshots
      then record { state = s'; reply = some (results s'); written = written }
      else record { state = s; reply = none; written = none }

  unfoldable pub get_results : AggregatorState F → Replied F
  unfolding reply_from
  get_results s = reply_from s.state s
