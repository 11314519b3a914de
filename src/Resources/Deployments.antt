-- ===== src/Resources/Deployments.antt =====
-- The deployments of crates/incidentbench-operator/src/resources.rs.
use incident_bench.Base.{ℕ, String, ◌<>◌, Option, none, some, List, [], ◌∷◌, map, ◌++◌}
use incident_bench.Crd.{IncidentBenchRun, IncidentBenchRunSpec, QueryGroupSpec, ResourceSpec}
use incident_bench.Cluster.Objects.{
  Deployment, Container, Probe, Volume, VolumeMount, Labels, from_config_map, from_claim,
}
use incident_bench.Scenario.{Scenario, DataStream, streams_of}
use incident_bench.Resources.{
  standard_labels, selector_labels, object_name, ingest_name, query_name, child_metadata,
  image_of_worker, resolve_resources,
}

abbrev health_probe : ℕ → ℕ → Option Probe
health_probe delay period = some record {
  path = "/healthz";
  port = 8080;
  initial_delay_seconds = delay;
  period_seconds = period;
}

-- A container of the worker's image, which all have the same two probes.
abbrev worker_container :
    String
    → String
    → List String
    → List (String × String)
    → List ℕ
    → List VolumeMount
    → Option ResourceSpec
    → Container
worker_container name image arguments env ports mounts resources = record {
  name = name;
  image = image;
  command = "incidentbench-worker" ∷ arguments;
  env = env;
  ports = ports ++ (8080 ∷ []);
  liveness_probe = health_probe 5 10;
  readiness_probe = health_probe 3 5;
  volume_mounts = mounts;
  resources = resources;
}

abbrev config_mount : VolumeMount
config_mount = record { name = "config"; mount_path = "/config" }

abbrev config_volume : String → Volume
config_volume name = record { name = "config"; source = from_config_map name }

abbrev pub sql_mounts : Option String → List VolumeMount
sql_mounts none = []
sql_mounts (some cm) = record { name = "sql-files"; mount_path = "/queries" } ∷ []

abbrev pub sql_volumes : Option String → List Volume
sql_volumes none = []
sql_volumes (some cm) = record { name = "sql-files"; source = from_config_map cm } ∷ []

abbrev pod_name_env : List (String × String)
pod_name_env = ("POD_NAME", "metadata.name") ∷ []

abbrev pub mark_of : String → String → Labels
mark_of key value = (key, value) ∷ []

abbrev copy_scenario : Container
copy_scenario = record {
  name = "copy-scenario";
  image = "busybox:1.36";
  command = "sh" ∷ "-c" ∷ "cp /scenario/scenario.yaml /results/scenario.yaml" ∷ [];
  env = [];
  ports = [];
  liveness_probe = none;
  readiness_probe = none;
  volume_mounts =
      record { name = "scenario"; mount_path = "/scenario" }
      ∷ record { name = "results"; mount_path = "/results" }
      ∷ [];
  resources = none;
}

module _ {F J : Type 0} where
  unfoldable pub build_aggregator_deployment :
      String → IncidentBenchRunSpec F J → IncidentBenchRun F J → Deployment
  build_aggregator_deployment run_name spec run =
      let labels = standard_labels run_name "aggregator" in
      let arguments = "aggregator" ∷ "--config" ∷ "/config/aggregator.yaml" ∷ [] in
      let mounts =
        config_mount
        ∷ record { name = "results"; mount_path = "/results" }
        ∷ record { name = "scenario"; mount_path = "/scenario" }
        ∷ [] in
      record {
        metadata = child_metadata (object_name run_name "aggregator") run labels;
        replicas = 1;
        match_labels = selector_labels run_name "aggregator";
        template = record {
          labels = labels;
          containers =
              worker_container "aggregator" (image_of_worker spec) arguments [] (50052 ∷ []) mounts
                none
              ∷ [];
          init_containers = copy_scenario ∷ [];
          volumes =
              config_volume (object_name run_name "aggregator")
              ∷ record { name = "results"; source = from_claim (object_name run_name "results") }
              ∷ record {
                name = "scenario";
                source = from_config_map (object_name run_name "scenario");
              }
              ∷ [];
        };
      }

  unfoldable pub build_phase_controller_deployment :
      String → Scenario F → IncidentBenchRunSpec F J → IncidentBenchRun F J → Deployment
  build_phase_controller_deployment run_name _ spec run =
      let labels = standard_labels run_name "phase-controller" in
      let arguments = "phase-controller" ∷ "--config" ∷ "/config/phase-controller.yaml" ∷ [] in
      record {
        metadata = child_metadata (object_name run_name "phase-controller") run labels;
        replicas = 1;
        match_labels = selector_labels run_name "phase-controller";
        template = record {
          labels = labels;
          containers =
              worker_container "phase-controller" (image_of_worker spec) arguments [] (50051 ∷ [])
                (config_mount ∷ []) none
              ∷ [];
          init_containers = [];
          volumes = config_volume (object_name run_name "phase-controller") ∷ [];
        };
      }

  unfoldable pub ingest_deployment :
      String → IncidentBenchRunSpec F J → IncidentBenchRun F J → DataStream → Deployment
  ingest_deployment run_name spec run stream =
      let mark = mark_of "incidentbench.io/data-stream" stream.name in
      let labels = standard_labels run_name "ingest-worker" ++ mark in
      let arguments = "ingest" ∷ "--config" ∷ "/config/ingest.yaml" ∷ [] in
      record {
        metadata = child_metadata (ingest_name run_name stream.name) run labels;
        replicas = stream.ingest_replicas;
        match_labels = selector_labels run_name "ingest-worker" ++ mark;
        template = record {
          labels = labels;
          containers =
              worker_container "ingest-worker" (image_of_worker spec) arguments pod_name_env []
                (config_mount ∷ []) (some (resolve_resources spec.workers.ingest.resources))
              ∷ [];
          init_containers = [];
          volumes = config_volume (ingest_name run_name stream.name) ∷ [];
        };
      }

  unfoldable pub build_ingest_stream_deployments :
      String → Scenario F → IncidentBenchRunSpec F J → IncidentBenchRun F J → List Deployment
  build_ingest_stream_deployments run_name scenario spec run =
      map (ingest_deployment run_name spec run) (streams_of scenario)

  unfoldable pub build_query_worker_deployment :
      String → IncidentBenchRunSpec F J → IncidentBenchRun F J → Option String → Deployment
  build_query_worker_deployment run_name spec run sql_cm_name =
      let labels = standard_labels run_name "query-worker" in
      record {
        metadata = child_metadata (object_name run_name "query") run labels;
        replicas = spec.workers.query.replicas;
        match_labels = selector_labels run_name "query-worker";
        template = record {
          labels = labels;
          containers =
              worker_container "query-worker" (image_of_worker spec)
                ("query" ∷ "--config" ∷ "/config/query.yaml" ∷ []) pod_name_env []
                (config_mount ∷ sql_mounts sql_cm_name)
                (some (resolve_resources spec.workers.query.resources))
              ∷ [];
          init_containers = [];
          volumes = config_volume (object_name run_name "query") ∷ sql_volumes sql_cm_name;
        };
      }

  unfoldable pub group_deployment :
      String
      → IncidentBenchRunSpec F J
      → IncidentBenchRun F J
      → Option String
      → QueryGroupSpec
      → Deployment
  group_deployment run_name spec run sql_cm_name group =
      let mark = mark_of "incidentbench.io/query-group" group.name in
      let labels = standard_labels run_name "query-worker" ++ mark in
      record {
        metadata = child_metadata (query_name run_name group.name) run labels;
        replicas = group.replicas;
        match_labels = selector_labels run_name "query-worker" ++ mark;
        template = record {
          labels = labels;
          containers =
              worker_container "query-worker" (image_of_worker spec)
                ("query" ∷ "--config" ∷ ("/config/query-" <> group.name <> ".yaml") ∷ [])
                pod_name_env [] (config_mount ∷ sql_mounts sql_cm_name)
                (some (resolve_resources group.resources))
              ∷ [];
          init_containers = [];
          volumes = config_volume (query_name run_name group.name) ∷ sql_volumes sql_cm_name;
        };
      }

  unfoldable pub build_query_worker_group_deployments :
      String
      → List QueryGroupSpec
      → IncidentBenchRunSpec F J
      → IncidentBenchRun F J
      → Option String
      → List Deployment
  build_query_worker_group_deployments run_name groups spec run sql_cm_name =
      map (group_deployment run_name spec run sql_cm_name) groups
