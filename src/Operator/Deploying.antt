-- ===== src/Operator/Deploying.antt =====
-- `handle_initializing` of crates/incidentbench-operator/src/controller.rs.
pub mod Counts
pub mod Handover
pub mod Mounts
use incident_bench.Base.{
  ℕ, String, Bool, true, false, Option, none, some, List, [], ◌∷◌, map, ◌++◌, length, lookup,
  unwrap_or, F64, str_eq, if◌then◌else◌,
}
use incident_bench.Crd.{IncidentBenchRun, IncidentBenchRunSpec, QueryGroupSpec}
use incident_bench.Crd.Status.{Failure, phase, conditions, running, workers, workers_deployed}
use incident_bench.Cluster.{
  set_status, Prog, ret, ◌>>=◌, ◌>>◌, ask, try, attempt, for_each, Result, ok, err, now, apply,
  get_config_map, read_sql_files,
}
use incident_bench.Cluster.Objects.{
  Platform, Object, ConfigMap, Deployment, Document, text, config_map, service, claim, deployment,
}
use incident_bench.Scenario.{Scenario, DataStream, streams_of, has_ingest, total_ingest_replicas}
use incident_bench.Resources.{object_name}
use incident_bench.Resources.ConfigMaps.{
  build_worker_configmaps, build_sql_files_configmap, total_query_replicas,
}
use incident_bench.Resources.Services.{
  build_phase_controller_service, build_aggregator_service, build_results_pvc,
}
use incident_bench.Resources.Deployments.{
  build_aggregator_deployment, build_phase_controller_deployment, build_ingest_stream_deployments,
  build_query_worker_deployment, build_query_worker_group_deployments,
}
use incident_bench.Operator.Steps.{
  run_name, namespace_of, bootstrap_of, resolve_scenario, condition, update_phase_failed,
}
use incident_bench.Operator.Health.{scaled}

unfoldable pub parse_map : (J : Type 0) ⦃pf : Platform J⦄ → Option String → List (String × String)
parse_map _ none = []
parse_map _ ⦃pf⦄ (some t) = unwrap_or (pf.map_from_json t) []

unfoldable pub sql_dir_of : Option String → Option String
sql_dir_of none = none
sql_dir_of (some dir) = if str_eq dir "" then none else some dir

module _ {F J : Type 0} where
  abbrev text_of : Option (Document F J) → Option String
  text_of (some (text t)) = some t
  text_of _ = none

  -- A map of strings in the data of the prepare config map; empty where there is none.
  unfoldable pub read_map :
      ⦃pf : Platform J⦄ → String → List (String × Document F J) → List (String × String)
  unfolding parse_map
  read_map key files = parse_map J (text_of (lookup key files))

  -- Applies objects in turn, whatever the replies.
  unfoldable pub apply_all : String → List (Object F J) → Prog F J (Unit {0})
  apply_all namespace objects = for_each objects λ o. attempt (apply namespace o)

  unfoldable pub apply_sql : String → Option (ConfigMap F J) → Prog F J (Option String)
  apply_sql namespace none = ret none
  apply_sql namespace (some cm) = do
    attempt (apply namespace (config_map cm))
    ret (some cm.metadata.name)

  -- The config map of the SQL files, with its name. Its application runs beside what follows.
  unfoldable pub sql_config_map : IncidentBenchRun F J → Option String → Prog F J (Option String)
  unfolding apply_sql
  sql_config_map run none = ret none
  sql_config_map run (some dir) = do
    files ← ask (read_sql_files dir)
    apply_sql (namespace_of run) (build_sql_files_configmap (run_name run) files run)

  unfoldable pub ingest_objects : Bool → IncidentBenchRun F J → Scenario F → List (Object F J)
  ingest_objects false run scenario = []
  ingest_objects true run scenario =
      map deployment (build_ingest_stream_deployments (run_name run) scenario run.spec run)

  unfoldable pub query_objects :
      Option (List QueryGroupSpec) → IncidentBenchRun F J → Option String → List (Object F J)
  query_objects (some groups) run sql =
      map deployment (build_query_worker_group_deployments (run_name run) groups run.spec run sql)
  query_objects none run sql =
      deployment (build_query_worker_deployment (run_name run) run.spec run sql) ∷ []

module _ {F J : Type 0} ⦃fl : F64 F⦄ ⦃pf : Platform J⦄ where
  -- What is applied before the workers.
  unfoldable pub base_objects :
      IncidentBenchRun F J → Scenario F → List (String × Document F J) → List (Object F J)
  unfolding read_map
  base_objects run scenario files =
      map config_map (
        build_worker_configmaps (run_name run) scenario run.spec run
          (read_map "consumer_groups" files) (read_map "query_endpoints" files)
          (bootstrap_of run.spec))
      ++ (service (build_phase_controller_service (run_name run) run)
          ∷ service (build_aggregator_service (run_name run) run)
          ∷ claim (build_results_pvc (run_name run) run)
          ∷ deployment (build_aggregator_deployment (run_name run) run.spec run)
          ∷ deployment (build_phase_controller_deployment (run_name run) scenario run.spec run)
          ∷ [])

  -- The workers' deployments.
  unfoldable pub worker_objects :
      IncidentBenchRun F J → Scenario F → Option String → List (Object F J)
  unfolding ingest_objects query_objects
  worker_objects run scenario sql =
      ingest_objects (has_ingest scenario) run scenario
      ++ query_objects run.spec.workers.query_groups run sql

  unfoldable pub set_running : IncidentBenchRun F J → Scenario F → Prog F J (Unit {0})
  set_running run scenario = do
    let ingest = total_ingest_replicas scenario
    let query = total_query_replicas run.spec
    time ← ask now
    set_status (
        phase running
        ∷ workers record {
          ingest_desired = ingest;
          ingest_ready = ingest;
          query_desired = query;
          query_ready = query;
        }
        ∷ conditions (
            condition "WorkersReady" (workers_deployed ingest (length (streams_of scenario)) query)
              time
            ∷ [])
        ∷ [])

  unfoldable pub deploy : IncidentBenchRun F J → Scenario F → Prog F J (Unit {0})
  unfolding sql_config_map set_running
  deploy run scenario = do
    reply ← ask (get_config_map (namespace_of run) (object_name (run_name run) "prepare"))
    prepare_data ← try reply
    apply_all (namespace_of run) (base_objects run scenario (unwrap_or prepare_data []))
    sql ← sql_config_map run (sql_dir_of run.spec.sql_dir)
    apply_all (namespace_of run) (worker_objects run scenario sql)
    set_running run scenario

  unfoldable pub initializing_with :
      IncidentBenchRun F J → Result (Failure F) (Scenario F) → Prog F J (Unit {0})
  unfolding deploy
  initializing_with run (err e) = update_phase_failed e
  initializing_with run (ok scenario) = deploy run (scaled run scenario)

  unfoldable pub handle_initializing : IncidentBenchRun F J → Prog F J (Unit {0})
  unfolding initializing_with
  handle_initializing run = initializing_with run (resolve_scenario run)
