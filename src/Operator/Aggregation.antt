-- ===== src/Operator/Aggregation.antt =====
-- `handle_aggregating` of crates/incidentbench-operator/src/controller.rs.
pub mod Timeout
use incident_bench.Base.{
  not, Bool, ℤ, pos, leb_ℤ, String, false, Option, none, some, [], ◌∷◌, lookup, unwrap_or, str_eq,
  if◌then◌else◌, F64, zero_f,
}
use incident_bench.Crd.{IncidentBenchRun}
use incident_bench.Crd.Status.{phase, results, reporting, RunResults}
use incident_bench.Cluster.{
  set_status, Prog, ret, ◌>>=◌, ask, Result, ok, err, connect, get_aggregation_status, get_results,
  elapsed_since,
}
use incident_bench.Aggregator.Service.{AggregationStatus}
use incident_bench.Operator.Steps.{}
use incident_bench.Operator.Watching.{aggregating_since, agg_addr}

-- What is reported where the results cannot be fetched.
unfoldable pub empty_results : {F : Type 0} ⦃fl : F64 F⦄ → RunResults F
empty_results = record {
  valid = false;
  validity_violations = "No metrics data collected from workers" ∷ [];
  warnings = "Aggregation timed out or workers failed to report metrics" ∷ [];
  harness_saturated = false;
  scorecard = some record {
    baseline_p99_ms = zero_f;
    overlap_p99_ms = zero_f;
    p99_degradation_ratio = zero_f;
    query_error_rate_overlap = zero_f;
    peak_backlog = 0;
    backlog_drain_time_s = zero_f;
    recovery_time_s = zero_f;
  };
}

unfoldable pub results_or_empty :
    {F : Type 0} ⦃fl : F64 F⦄ → Result String (RunResults F) → RunResults F
unfolding empty_results
results_or_empty (ok r) = r
results_or_empty (err e) = empty_results

unfoldable pub aggregating_too_long : ℤ → Bool
aggregating_too_long elapsed = not (leb_ℤ elapsed (pos 120))

unfoldable pub marked_since : {F J : Type 0} → IncidentBenchRun F J → Option String
marked_since run = lookup aggregating_since (unwrap_or run.metadata.annotations [])

module _ {F J : Type 0} ⦃fl : F64 F⦄ where
  unfoldable pub collect_results : IncidentBenchRun F J → Prog F J (Unit {0})
  collect_results run = do
    reply ← ask (get_results (agg_addr run))
    set_status (phase reporting ∷ results (results_or_empty reply) ∷ [])

  unfoldable pub seconds_since : Option String → Prog F J ℤ
  seconds_since none = ret (pos 0)
  seconds_since (some time) = do elapsed ← ask (elapsed_since time); ret (unwrap_or elapsed (pos 0))

  -- Over 120 seconds the results are collected from what there is.
  unfoldable pub wait_or_force : IncidentBenchRun F J → Prog F J (Unit {0})
  unfolding seconds_since
  wait_or_force run = do
    elapsed ← seconds_since (marked_since run)
    if aggregating_too_long elapsed then collect_results run else ret tt

  unfoldable pub aggregation_status :
      IncidentBenchRun F J → Result String AggregationStatus → Prog F J (Unit {0})
  unfolding wait_or_force
  aggregation_status run (err e) = ret tt
  aggregation_status run (ok s) =
      if str_eq s.state "complete" then collect_results run else wait_or_force run

  unfoldable pub connected : IncidentBenchRun F J → Result String (Unit {0}) → Prog F J (Unit {0})
  unfolding aggregation_status
  connected run (err e) = ret tt
  connected run (ok _) = do
    status ← ask (get_aggregation_status (agg_addr run))
    aggregation_status run status

  unfoldable pub handle_aggregating : IncidentBenchRun F J → Prog F J (Unit {0})
  unfolding connected
  handle_aggregating run = do channel ← ask (connect (agg_addr run) 5); connected run channel
