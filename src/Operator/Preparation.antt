-- ===== src/Operator/Preparation.antt =====
-- `handle_pending` and `handle_preparing` of crates/incidentbench-operator/src/controller.rs.
use incident_bench.Base.{
  String, Bool, true, false, some, List, [], ◌∷◌, length, contains, unwrap_or, F64,
}
use incident_bench.Crd.{IncidentBenchRun}
use incident_bench.Crd.Status.{
  Failure, phase, conditions, completed, preparing, initializing, completion_time, run_id_key,
  start_time_key, literal, dry_run_summary, prepare_summary, validation_failed, topic_failed,
  adapter_failed, prepare_failed,
}
use incident_bench.Cluster.{
  set_status, Prog, ret, ◌>>=◌, ◌>>◌, ask, try, attempt, Result, ok, err, Adapter, PrepareResult,
  patch_metadata, finalizers, now, new_uuid, prepare, apply,
}
use incident_bench.Cluster.Objects.{Platform, config_map}
use incident_bench.Scenario.{Scenario, DataStream, streams_of, total_duration_seconds}
use incident_bench.Scenario.Validate.{validate, ValidationError}
use incident_bench.Resources.ConfigMaps.{build_prepare_result_configmap}
use incident_bench.Operator.Steps.{
  run_name, namespace_of, bootstrap_of, resolve_scenario, condition, update_phase_failed,
  create_kafka_topic,
}
use incident_bench.Operator.Targets.{stream_configs, build_warehouse_configs, create_adapter}
use incident_bench.Operator.Health.{scaled, stream_names}

abbrev pub finalizer : String
finalizer = "incidentbench.io/cleanup"

module _ {F J : Type 0} where
  unfoldable pub complete_dry_run : Scenario F → Prog F J (Unit {0})
  complete_dry_run scenario = do
    time ← ask now
    set_status (
        phase completed
        ∷ completion_time time
        ∷ conditions (
            condition "DryRun"
              (dry_run_summary (length (streams_of scenario)) (length scenario.timeline.phases)
                (total_duration_seconds scenario))
              time
            ∷ condition "Cleaned" (literal "Dry-run: no resources to clean up") time
            ∷ [])
        ∷ [])

  unfoldable pub has_finalizer : IncidentBenchRun F J → Bool
  has_finalizer run = contains (unwrap_or run.metadata.finalizers []) finalizer

  unfoldable pub add_finalizer : Bool → Prog F J (Unit {0})
  add_finalizer true = ret tt
  add_finalizer false = do
    reply ← ask (patch_metadata (finalizers (some (finalizer ∷ []))))
    try reply

  unfoldable pub start_run : IncidentBenchRun F J → Prog F J (Unit {0})
  unfolding add_finalizer
  start_run run = do
    run_id ← ask new_uuid
    add_finalizer (has_finalizer run)
    start ← ask now
    time ← ask now
    set_status (
        phase preparing
        ∷ run_id_key run_id
        ∷ start_time_key start
        ∷ conditions (condition "Validated" (literal "Scenario validated successfully") time ∷ [])
        ∷ [])

  unfoldable pub start_or_complete : Bool → IncidentBenchRun F J → Scenario F → Prog F J (Unit {0})
  unfolding start_run complete_dry_run
  start_or_complete true run scenario = complete_dry_run scenario
  start_or_complete false run scenario = start_run run

module _ {F J : Type 0} ⦃fl : F64 F⦄ where
  unfoldable pub validated :
      IncidentBenchRun F J → Scenario F → List (ValidationError F) → Prog F J (Unit {0})
  unfolding start_or_complete
  validated run scenario [] = start_or_complete run.spec.dry_run run scenario
  validated run scenario (e ∷ errors) = update_phase_failed (validation_failed (e ∷ errors))

  unfoldable pub pending_with :
      IncidentBenchRun F J → Result (Failure F) (Scenario F) → Prog F J (Unit {0})
  unfolding validated
  pending_with run (err e) = update_phase_failed e
  pending_with run (ok scenario) = validated run scenario (validate scenario)

  unfoldable pub handle_pending : IncidentBenchRun F J → Prog F J (Unit {0})
  unfolding pending_with
  handle_pending run = pending_with run (resolve_scenario run)

module _ {F J : Type 0} where
  unfoldable pub after_topic :
      Result String (Unit {0}) → String → Prog F J (Unit {0}) → Prog F J (Unit {0})
  after_topic (ok _) topic rest = rest
  after_topic (err e) topic rest = update_phase_failed (topic_failed topic e)

  -- The topics of the streams in turn. `rest` follows when all are created.
  unfoldable pub create_topics_then :
      String → List DataStream → Prog F J (Unit {0}) → Prog F J (Unit {0})
  unfolding after_topic
  create_topics_then bootstrap [] rest = rest
  create_topics_then bootstrap (stream ∷ streams) rest = do
    created ←
        create_kafka_topic bootstrap stream.schema.index_name
          (unwrap_or stream.kafka_partitions stream.ingest_replicas)
    after_topic created stream.schema.index_name (create_topics_then bootstrap streams rest)

module _ {F J : Type 0} ⦃fl : F64 F⦄ ⦃pf : Platform J⦄ where
  unfoldable pub prepared :
      IncidentBenchRun F J → Scenario F → Result String PrepareResult → Prog F J (Unit {0})
  prepared run scenario (err e) = update_phase_failed (prepare_failed e)
  prepared run scenario (ok result) = do
    attempt (
        apply (namespace_of run) (
          config_map (
            build_prepare_result_configmap (run_name run) result.consumer_groups
              result.query_endpoints run)))
    time ← ask now
    set_status (
        phase initializing
        ∷ conditions (
            condition "Prepared"
              (prepare_summary (stream_names scenario) result.consumer_groups
                result.query_endpoints)
              time
            ∷ [])
        ∷ [])

  unfoldable pub prepare_target :
      IncidentBenchRun F J → Scenario F → Result String Adapter → Prog F J (Unit {0})
  unfolding prepared
  prepare_target run scenario (err e) = update_phase_failed (adapter_failed e)
  prepare_target run scenario (ok adapter) = do
    result ← ask (
        prepare adapter (stream_configs scenario) (bootstrap_of run.spec)
          (build_warehouse_configs run.spec))
    prepared run scenario result

  unfoldable pub create_and_prepare : IncidentBenchRun F J → Scenario F → Prog F J (Unit {0})
  unfolding prepare_target
  create_and_prepare run scenario = do
    adapter ← create_adapter run.spec.target.adapter run.spec.target.config
    prepare_target run scenario adapter

  unfoldable pub preparing_with :
      IncidentBenchRun F J → Result (Failure F) (Scenario F) → Prog F J (Unit {0})
  unfolding create_and_prepare
  preparing_with run (err e) = update_phase_failed e
  preparing_with run (ok scenario) =
      create_topics_then (bootstrap_of run.spec) (streams_of (scaled run scenario))
        (create_and_prepare run (scaled run scenario))

  unfoldable pub handle_preparing : IncidentBenchRun F J → Prog F J (Unit {0})
  unfolding preparing_with
  handle_preparing run = preparing_with run (resolve_scenario run)
