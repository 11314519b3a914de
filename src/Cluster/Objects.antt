-- ===== src/Cluster/Objects.antt =====
-- The objects that crates/incidentbench-operator/src/resources.rs builds: the parts of the Kubernetes
-- types that it fills. A document in a config map is the value that is serialised, or its text.
use incident_bench.Base.{ℕ, String, Option, List}
use incident_bench.Scenario.{Scenario, QueryMix, QuerySession, Schema}
use incident_bench.Scenario.Rates.{WorkerRateTable}
use incident_bench.PhaseController.{PhaseSpec}
use incident_bench.Crd.{ResourceSpec}

abbrev pub Labels : Type 0
Labels = List (String × String)

pub record OwnerReference : Type 0 where
  pub name : String
  pub uid : String

pub record Metadata : Type 0 where
  pub name : String
  pub namespace : Option String
  pub owner_references : List OwnerReference
  pub labels : Labels

pub record PhaseControllerYaml : Type 0 where
  pub expected_ingest_workers : ℕ
  pub expected_query_workers : ℕ
  pub phases : List PhaseSpec

pub record StreamYaml : Type 0 where
  pub name : String
  pub kafka_topic : String
  pub consumer_group : String

pub record AggregatorYaml : Type 0 where
  pub kafka_bootstrap_servers : String
  pub streams : List StreamYaml
  pub results_path : String

pub record IngestYaml : Type 0 where
  pub worker_index : ℕ
  pub run_seed : ℕ
  pub schema : Schema
  pub rate_table : WorkerRateTable
  pub kafka_bootstrap_servers : String
  pub kafka_topic : String
  pub phase_controller_addr : String
  pub aggregator_addr : String

pub record QueryYaml (J : Type 0) : Type 0 where
  pub worker_index : ℕ
  pub run_seed : ℕ
  pub query_mix : QueryMix
  pub rate_table : WorkerRateTable
  pub query_endpoint : String
  pub query_group : String
  pub target_adapter : String
  pub target_config : List (String × J)
  pub phase_controller_addr : String
  pub aggregator_addr : String
  pub query_session : Option QuerySession
  pub default_timeout_ms : ℕ

pub data Document (F J : Type 0) : Type 0 where
  text : String → Document F J
  scenario_yaml : Scenario F → Document F J
  phase_controller_yaml : PhaseControllerYaml → Document F J
  aggregator_yaml : AggregatorYaml → Document F J
  ingest_yaml : IngestYaml → Document F J
  query_yaml : QueryYaml J → Document F J

pub record ConfigMap (F J : Type 0) : Type 0 where
  pub metadata : Metadata
  pub files : List (String × Document F J)

pub record Service : Type 0 where
  pub metadata : Metadata
  pub selector : Labels
  pub port : ℕ
  pub target_port : ℕ

pub record PersistentVolumeClaim : Type 0 where
  pub metadata : Metadata
  pub access_modes : List String
  pub storage : String

pub record VolumeMount : Type 0 where
  pub name : String
  pub mount_path : String

pub data VolumeSource : Type 0 where
  from_config_map from_claim : String → VolumeSource

pub record Volume : Type 0 where
  pub name : String
  pub source : VolumeSource

-- The path and the port of the health endpoint, with the two times of a probe.
pub record Probe : Type 0 where
  pub path : String
  pub port : ℕ
  pub initial_delay_seconds : ℕ
  pub period_seconds : ℕ

-- `env` has the name of a variable and the path of the field that it takes.
pub record Container : Type 0 where
  pub name : String
  pub image : String
  pub command : List String
  pub env : List (String × String)
  pub ports : List ℕ
  pub liveness_probe : Option Probe
  pub readiness_probe : Option Probe
  pub volume_mounts : List VolumeMount
  pub resources : Option ResourceSpec

pub record Pod : Type 0 where
  pub labels : Labels
  pub containers : List Container
  pub init_containers : List Container
  pub volumes : List Volume

pub record Deployment : Type 0 where
  pub metadata : Metadata
  pub replicas : ℕ
  pub match_labels : Labels
  pub template : Pod

pub record Job : Type 0 where
  pub metadata : Metadata
  pub backoff_limit : ℕ
  pub ttl_seconds_after_finished : ℕ
  pub restart_policy : String
  pub template : Pod

-- What the server is asked to apply, and what kinds of object it is asked to delete.
pub data Object (F J : Type 0) : Type 0 where
  config_map : ConfigMap F J → Object F J
  service : Service → Object F J
  claim : PersistentVolumeClaim → Object F J
  deployment : Deployment → Object F J

pub data Kind : Type 0 where
  config_maps services claims deployments : Kind

module _ {F J : Type 0} where
  abbrev pub kind_of : Object F J → Kind
  kind_of (config_map _) = config_maps
  kind_of (service _) = services
  kind_of (claim _) = claims
  kind_of (deployment _) = deployments

  abbrev pub name_of : Object F J → String
  name_of (config_map c) = c.metadata.name
  name_of (service s) = s.metadata.name
  name_of (claim c) = c.metadata.name
  name_of (deployment d) = d.metadata.name

-- The library calls that the operator's pure code makes: reading a JSON value, the hash that seeds
-- a run, and the JSON text of a map of strings.
pub record Platform (J : Type 0) : Type 0 where
  pub get : J → String → Option J
  pub as_str : J → Option String
  pub as_u64 : J → Option ℕ
  pub hash : String → ℕ
  pub trim_slashes : String → String
  pub map_to_json : List (String × String) → String
  pub map_from_json : String → Option (List (String × String))
