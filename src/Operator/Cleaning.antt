-- ===== src/Operator/Cleaning.antt =====
-- `handle_cleanup` of crates/incidentbench-operator/src/controller.rs.
pub mod Covers
pub mod Undone
use incident_bench.Base.{String, Option, none, some, List, [], ◌∷◌, map, ◌++◌}
use incident_bench.Crd.{IncidentBenchRun}
use incident_bench.Crd.Status.{conditions, literal}
use incident_bench.Cluster.{
  set_status, Prog, ret, ◌>>=◌, ◌>>◌, ask, try, attempt, for_each, Result, ok, err, Adapter, now,
  delete, cleanup, patch_metadata, finalizers,
}
use incident_bench.Cluster.Objects.{Platform, Kind, config_maps, services, deployments}
use incident_bench.Scenario.{Scenario, DataStream, streams_of}
use incident_bench.Resources.{object_name, ingest_name}
use incident_bench.Operator.Steps.{
  run_name, namespace_of, bootstrap_of, condition, delete_kafka_topic,
}
use incident_bench.Operator.Targets.{stream_configs, build_warehouse_configs, create_adapter}
use incident_bench.Operator.Health.{stream_names, query_deployments}

abbrev inline_names : {F : Type 0} → String → Option (Scenario F) → List String
inline_names name none = []
inline_names name (some scenario) = map (ingest_name name) (stream_names scenario)

module _ {F J : Type 0} where
  -- The per-stream objects, by the inline scenario.
  abbrev pub stream_objects : IncidentBenchRun F J → List String
  stream_objects run = inline_names (run_name run) run.spec.scenario

  abbrev pub common_names : IncidentBenchRun F J → List String → List String
  common_names run suffixes = map (object_name (run_name run)) suffixes

  abbrev pub deployment_names : IncidentBenchRun F J → List String
  deployment_names run =
      common_names run ("aggregator" ∷ "phase-controller" ∷ "query" ∷ [])
      ++ (stream_objects run ++ query_deployments run)

  abbrev pub service_names : IncidentBenchRun F J → List String
  service_names run = common_names run ("phase-controller" ∷ "aggregator" ∷ [])

  abbrev pub config_map_names : IncidentBenchRun F J → List String
  config_map_names run =
      common_names run
        ("scenario" ∷ "phase-controller" ∷ "aggregator" ∷ "query" ∷ "prepare" ∷ "sql-files" ∷ [])
      ++ (stream_objects run ++ query_deployments run)

  -- What is deleted, in order.
  unfoldable pub deletions : IncidentBenchRun F J → List (Kind × String)
  deletions run =
      map (λ (n : String). (deployments, n)) (deployment_names run)
      ++ (map (λ (n : String). (services, n)) (service_names run)
          ++ map (λ (n : String). (config_maps, n)) (config_map_names run))

  -- Deletes the objects in turn, whatever the replies.
  unfoldable pub delete_all : IncidentBenchRun F J → Prog F J (Unit {0})
  delete_all run =
      for_each (deletions run) λ (d : Kind × String). attempt (delete d.0 (namespace_of run) d.1)

  unfoldable pub delete_topics_of : IncidentBenchRun F J → Option (Scenario F) → Prog F J (Unit {0})
  delete_topics_of run none = ret tt
  delete_topics_of run (some scenario) =
      for_each (streams_of scenario)
        λ (d : DataStream). delete_kafka_topic (bootstrap_of run.spec) d.schema.index_name

  -- The finalizers are removed and the run is marked, so that it is cleaned once.
  unfoldable pub mark_cleaned : Prog F J (Unit {0})
  mark_cleaned = do
    reply ← ask (patch_metadata (finalizers none))
    try reply
    time ← ask now
    set_status
        (conditions (condition "Cleaned" (literal "All resources cleaned up") time ∷ []) ∷ [])

module _ {F J : Type 0} ⦃pf : Platform J⦄ where
  unfoldable pub clean_with :
      IncidentBenchRun F J → Scenario F → Result String Adapter → Prog F J (Unit {0})
  clean_with run scenario (err e) = ret tt
  clean_with run scenario (ok adapter) =
      attempt (cleanup adapter (stream_configs scenario) (build_warehouse_configs run.spec))

  unfoldable pub clean_target : IncidentBenchRun F J → Option (Scenario F) → Prog F J (Unit {0})
  unfolding clean_with
  clean_target run none = ret tt
  clean_target run (some scenario) = do
    adapter ← create_adapter run.spec.target.adapter run.spec.target.config
    clean_with run scenario adapter

  unfoldable pub handle_cleanup : IncidentBenchRun F J → Prog F J (Unit {0})
  unfolding clean_target delete_topics_of mark_cleaned
  handle_cleanup run = do
    delete_all run
    clean_target run run.spec.scenario
    delete_topics_of run run.spec.scenario
    mark_cleaned
