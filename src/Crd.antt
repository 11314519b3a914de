-- ===== src/Crd.antt =====
-- The custom resource of crates/incidentbench-common/src/crd.rs: a run, its specification and its
-- status. `J` is the type of a free-form JSON value, and the text of a condition's message is the
-- value that its format takes.
pub mod Status
use incident_bench.Base.{ℕ, String, Bool, Option, none, some, List, F64}
use incident_bench.Scenario.{Scenario}
use incident_bench.Crd.Status.{IncidentBenchRunStatus, LifecyclePhase, pending}

pub record ConfigMapRef : Type 0 where
  pub name : String
  pub key : String

pub record ScenarioRef : Type 0 where
  pub config_map : ConfigMapRef

pub record TargetSpec (J : Type 0) : Type 0 where
  pub adapter : String
  pub config : List (String × J)

pub record ManagedKafkaConfig : Type 0 where
  pub replicas : ℕ
  pub storage : String

pub record KafkaSpec : Type 0 where
  pub bootstrap_servers : Option String
  pub managed : Bool
  pub managed_config : Option ManagedKafkaConfig

pub record ScalingSpec (F : Type 0) : Type 0 where
  pub duration_scale : F
  pub rate_scale : F

pub record ResourceSpec : Type 0 where
  pub requests : Option (List (String × String))
  pub limits : Option (List (String × String))

pub record WarehouseSpec : Type 0 where
  pub name : String
  pub num_mediators : ℕ
  pub num_os : ℕ

pub record QueryGroupSpec : Type 0 where
  pub name : String
  pub warehouse : WarehouseSpec
  pub replicas : ℕ
  pub resources : Option ResourceSpec

pub record WorkerReplicaSpec : Type 0 where
  pub replicas : ℕ
  pub resources : Option ResourceSpec

pub record WorkerSpec : Type 0 where
  pub ingest : WorkerReplicaSpec
  pub query : WorkerReplicaSpec
  pub query_groups : Option (List QueryGroupSpec)

pub record ImageSpec : Type 0 where
  pub operator : Option String
  pub worker : Option String
  pub reporter : Option String

-- The storage of the results is left out: no code reads it.
pub record IncidentBenchRunSpec (F J : Type 0) : Type 0 where
  pub scenario : Option (Scenario F)
  pub scenario_ref : Option ScenarioRef
  pub target : TargetSpec J
  pub kafka : KafkaSpec
  pub scaling : ScalingSpec F
  pub workers : WorkerSpec
  pub images : Option ImageSpec
  pub sql_dir : Option String
  pub dry_run : Bool

-- The part of the object's metadata that the operator reads.
pub record RunMetadata : Type 0 where
  pub name : Option String
  pub namespace : Option String
  pub uid : Option String
  pub finalizers : Option (List String)
  pub annotations : Option (List (String × String))

pub record IncidentBenchRun (F J : Type 0) : Type 0 where
  pub metadata : RunMetadata
  pub spec : IncidentBenchRunSpec F J
  pub status : Option (IncidentBenchRunStatus F)

-- `ScalingSpec::default`.
abbrev pub default_scaling : {F : Type 0} ⦃fl : F64 F⦄ → ScalingSpec F
default_scaling ⦃fl⦄ = record { duration_scale = fl.lit 1 0; rate_scale = fl.lit 1 0 }

-- `WorkerReplicaSpec::default_ingest` and `WorkerReplicaSpec::default_query`.
abbrev pub default_ingest : WorkerReplicaSpec
default_ingest = record { replicas = 10; resources = none }

abbrev pub default_query : WorkerReplicaSpec
default_query = record { replicas = 4; resources = none }

-- `WorkerSpec::default`.
abbrev pub default_workers : WorkerSpec
default_workers = record { ingest = default_ingest; query = default_query; query_groups = none }
