-- ===== src/Cluster.antt =====
-- What the operator of crates/incidentbench-operator/src/controller.rs asks of the world: the Kubernetes
-- API server, Kafka, the target's adapter, the two gRPC services, the clock. A handler is a program
-- that makes requests and goes on with the replies; the replies are arbitrary.
pub mod Objects
pub mod Paths
pub mod Server
pub mod Requests
use incident_bench.Base.{
  ℕ, ℤ, String, Bool, Option, none, some, List, [], ◌∷◌, map, ◌≡◌, refl, if◌then◌else◌,
}
use incident_bench.Crd.Status.{StatusEntry, RunResults}
use incident_bench.Cluster.Objects.{Object, Kind, Job, Document}
use incident_bench.Scenario.{Schema}
use incident_bench.PhaseController.{StatusResponse}
use incident_bench.Aggregator.Results.{AggregatedSnapshot}
use incident_bench.Aggregator.Service.{AggregationStatus}

pub data Result {ℓ κ} (E : Type ℓ) (A : Type κ) : Type (ℓ ⊔ κ) where
  ok : A → Result E A
  err : E → Result E A

-- `kube::Error`: a status code of the server, or anything else.
pub data KubeError : Type 0 where
  api : ℕ → KubeError
  other : String → KubeError

pub data KafkaError : Type 0 where
  topic_already_exists : KafkaError
  kafka_error : String → KafkaError

-- A merge patch of the run's metadata.
pub data MetadataPatch : Type 0 where
  finalizers : Option (List String) → MetadataPatch
  annotation : String → String → MetadataPatch

pub record WarehouseConfig : Type 0 where
  pub name : String
  pub num_mediators : ℕ
  pub num_os : ℕ

pub record DataStreamConfig : Type 0 where
  pub name : String
  pub schema : Schema
  pub kafka_topic : String

pub record PrepareResult : Type 0 where
  pub consumer_groups : List (String × String)
  pub query_endpoints : List (String × String)

pub record PgConfig : Type 0 where
  pub host : String
  pub port : ℕ
  pub user : String
  pub password : String
  pub dbname : String
  pub warehouse : String

pub record Adapter : Type 0 where
  pub endpoint : String
  pub namespace : String
  pub connection_name : String
  pub pg_config : Option PgConfig

pub record DeploymentStatus : Type 0 where
  pub replicas : Option ℤ
  pub available_replicas : Option ℤ
  pub unavailable_replicas : Option ℤ
  -- the type and the status of each
  pub conditions : Option (List (String × String))

pub record JobStatus : Type 0 where
  pub succeeded : Option ℤ
  pub failed : Option ℤ

-- The run's own status and metadata are patched under its name; any other object is named with its
-- namespace. `elapsed_since` is the number of whole seconds since an RFC 3339 time, where it is one.
pub data Request (F J : Type 0) : Type 0 where
  patch_status : List (StatusEntry F) → Request F J
  patch_metadata : MetadataPatch → Request F J
  apply : String → Object F J → Request F J
  scale : String → String → ℕ → Request F J
  delete : Kind → String → String → Request F J
  get_config_map get_deployment get_job : String → String → Request F J
  create_job : String → Job → Request F J
  create_admin_client : String → Request F J
  create_topics : String → ℤ → ℕ → Request F J
  delete_topics : String → Request F J
  build_http_client : Request F J
  prepare : Adapter → List DataStreamConfig → String → List WarehouseConfig → Request F J
  cleanup : Adapter → List DataStreamConfig → List WarehouseConfig → Request F J
  connect : String → ℕ → Request F J
  get_status get_latest_snapshot get_aggregation_status get_results : String → Request F J
  read_sql_files : String → Request F J
  now new_uuid : Request F J
  elapsed_since : String → Request F J

module _ {F J : Type 0} where
  abbrev pub Reply : Request F J → Type 0
  Reply (patch_status _) = Result KubeError (Unit {0})
  Reply (patch_metadata _) = Result KubeError (Unit {0})
  Reply (apply _ _) = Result KubeError (Unit {0})
  Reply (scale _ _ _) = Result KubeError (Unit {0})
  Reply (delete _ _ _) = Result KubeError (Unit {0})
  Reply (get_config_map _ _) = Result KubeError (Option (List (String × Document F J)))
  Reply (get_deployment _ _) = Result KubeError (Option DeploymentStatus)
  Reply (get_job _ _) = Result KubeError (Option JobStatus)
  Reply (create_job _ _) = Result KubeError (Unit {0})
  Reply (create_admin_client _) = Result String (Unit {0})
  Reply (create_topics _ _ _) = Result String (List (Result KafkaError (Unit {0})))
  Reply (delete_topics _) = Result String (List (Result KafkaError (Unit {0})))
  Reply build_http_client = Result String (Unit {0})
  Reply (prepare _ _ _ _) = Result String PrepareResult
  Reply (cleanup _ _ _) = Result String (Unit {0})
  Reply (connect _ _) = Result String (Unit {0})
  Reply (get_status _) = Result String StatusResponse
  Reply (get_latest_snapshot _) = Result String (AggregatedSnapshot F)
  Reply (get_aggregation_status _) = Result String AggregationStatus
  Reply (get_results _) = Result String (RunResults F)
  Reply (read_sql_files _) = List (String × String)
  Reply now = String
  Reply new_uuid = String
  Reply (elapsed_since _) = Option ℤ

-- `fail` is an error that `?` returns.
pub data Prog (F J : Type 0) (A : Type 0) : Type 0 where
  ret : A → Prog F J A
  fail : KubeError → Prog F J A
  call : (r : Request F J) → (Reply r → Prog F J A) → Prog F J A

module _ {F J : Type 0} where
  infixl 5 ◌>>=◌ ◌>>◌
  abbrev pub ◌>>=◌ : {A B : Type 0} → Prog F J A → (A → Prog F J B) → Prog F J B
  ret a >>= f = f a
  fail e >>= f = fail e
  call r k >>= f = call r λ x. k x >>= f

  abbrev pub ◌>>◌ : {A B : Type 0} → Prog F J A → Prog F J B → Prog F J B
  m >> k = m >>= λ _. k

  -- A request, and its reply.
  abbrev pub ask : (r : Request F J) → Prog F J (Reply r)
  ask r = call r ret

  -- `?` on a result of the API.
  abbrev pub try : {A : Type 0} → Result KubeError A → Prog F J A
  try (ok a) = ret a
  try (err e) = fail e

  -- `patch_status(...).await?`.
  abbrev pub set_status : List (StatusEntry F) → Prog F J (Unit {0})
  set_status entries = do reply ← ask (patch_status entries); try reply

  -- A request whose result is ignored.
  abbrev pub attempt : Request F J → Prog F J (Unit {0})
  attempt r = call r λ _. ret tt

  abbrev pub for_each : {A : Type 0} → List A → (A → Prog F J (Unit {0})) → Prog F J (Unit {0})
  for_each [] f = ret tt
  for_each (x ∷ xs) f = f x >>= λ _. for_each xs f
