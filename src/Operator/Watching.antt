-- ===== src/Operator/Watching.antt =====
-- `handle_running` of crates/incidentbench-operator/src/controller.rs.
use incident_bench.Base.{pos, String, ◌<>◌, List, [], ◌∷◌, if◌then◌else◌, F64, zero_f}
use incident_bench.Crd.{IncidentBenchRun}
use incident_bench.Crd.Status.{
  Failure, phase, current_benchmark_phase, progress, aggregating, ProgressStatus,
}
use incident_bench.Cluster.{
  set_status, Prog, ret, ◌>>=◌, ◌>>◌, ask, try, attempt, for_each, Result, ok, err, now, connect,
  get_status, get_latest_snapshot, scale, patch_metadata, annotation,
}
use incident_bench.PhaseController.{StatusResponse}
use incident_bench.Aggregator.Results.{AggregatedSnapshot}
use incident_bench.Resources.{object_name}
use incident_bench.Operator.Steps.{run_name, namespace_of, update_phase_failed}
use incident_bench.Operator.Health.{ingest_deployments, query_deployments, check_worker_health}

-- What the run is patched with before the first snapshot of the aggregator.
abbrev pub aggregating_since : String
aggregating_since = "incidentbench.io/aggregating-since"

module _ {F J : Type 0} where
  abbrev pub pc_addr : IncidentBenchRun F J → String
  pc_addr run = run_name run <> "-phase-controller." <> namespace_of run <> ".svc:50051"

  abbrev pub agg_addr : IncidentBenchRun F J → String
  agg_addr run = run_name run <> "-aggregator." <> namespace_of run <> ".svc:50052"

  unfoldable pub and_then :
      {A B : Type 0} → Result String A → Prog F J (Result String B) → Prog F J (Result String B)
  and_then (err e) rest = ret (err e)
  and_then (ok _) rest = rest

  unfoldable pub poll_phase_controller : String → Prog F J (Result String StatusResponse)
  unfolding and_then
  poll_phase_controller addr = do
    channel ← ask (connect addr 5)
    and_then channel (ask (get_status addr))

  unfoldable pub poll_aggregator_snapshot : String → Prog F J (Result String (AggregatedSnapshot F))
  unfolding and_then
  poll_aggregator_snapshot addr = do
    channel ← ask (connect addr 3)
    and_then channel (ask (get_latest_snapshot addr))

  -- Scales deployments down in turn, whatever the replies.
  unfoldable pub scale_down : String → List String → Prog F J (Unit {0})
  scale_down namespace names = for_each names λ name. attempt (scale namespace name 0)

  unfoldable pub set_aggregating : Prog F J (Unit {0})
  set_aggregating = do
    time ← ask now
    reply ← ask (patch_metadata (annotation aggregating_since time))
    try reply
    set_status (phase aggregating ∷ [])

unfoldable pub live_progress :
    {F : Type 0} ⦃fl : F64 F⦄
    → StatusResponse
    → Result String (AggregatedSnapshot F)
    → ProgressStatus F
live_progress ⦃fl⦄ s (ok snap) = record {
  elapsed_seconds = s.total_elapsed_seconds;
  total_seconds = s.total_duration_seconds;
  achieved_ingest_eps = snap.ingest_events_produced;
  target_ingest_eps = snap.ingest_target_eps;
  achieved_query_qps = fl.of_int snap.query_executed;
  target_query_qps = snap.query_target_qps;
  kafka_consumer_lag = snap.kafka_consumer_lag;
}
live_progress ⦃fl⦄ s (err e) = record {
  elapsed_seconds = s.total_elapsed_seconds;
  total_seconds = s.total_duration_seconds;
  achieved_ingest_eps = pos 0;
  target_ingest_eps = pos 0;
  achieved_query_qps = zero_f;
  target_query_qps = zero_f;
  kafka_consumer_lag = pos 0;
}

module _ {F J : Type 0} ⦃fl : F64 F⦄ where
  unfoldable pub finish_timeline : IncidentBenchRun F J → Prog F J (Unit {0})
  unfolding set_aggregating
  finish_timeline run = do
    scale_down (namespace_of run)
        (object_name (run_name run) "query" ∷ object_name (run_name run) "phase-controller" ∷ [])
    scale_down (namespace_of run) (ingest_deployments run)
    scale_down (namespace_of run) (query_deployments run)
    set_aggregating

  unfoldable pub report_progress : IncidentBenchRun F J → StatusResponse → Prog F J (Unit {0})
  unfolding live_progress
  report_progress run s = do
    snapshot ← poll_aggregator_snapshot (agg_addr run)
    set_status (current_benchmark_phase s.current_phase ∷ progress (live_progress s snapshot) ∷ [])

  -- A failed poll changes nothing.
  unfoldable pub polled : IncidentBenchRun F J → Result String StatusResponse → Prog F J (Unit {0})
  unfolding finish_timeline report_progress
  polled run (err e) = ret tt
  polled run (ok s) = if s.timeline_complete then finish_timeline run else report_progress run s

  unfoldable pub checked :
      IncidentBenchRun F J → Result (Failure F) (Unit {0}) → Prog F J (Unit {0})
  unfolding polled
  checked run (err message) = update_phase_failed message
  checked run (ok _) = do status ← poll_phase_controller (pc_addr run); polled run status

  unfoldable pub handle_running : IncidentBenchRun F J → Prog F J (Unit {0})
  unfolding checked
  handle_running run = do health ← check_worker_health run; checked run health
