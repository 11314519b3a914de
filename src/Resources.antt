-- ===== src/Resources.antt =====
-- The builders of crates/incidentbench-operator/src/resources.rs that the others share: labels, owner,
-- resources, images, and the names of a run's objects.
pub mod ConfigMaps
pub mod Deployments
pub mod Services
use incident_bench.Base.{ℕ, String, ◌<>◌, Option, none, some, List, [], ◌∷◌, unwrap_or}
use incident_bench.Crd.{IncidentBenchRun, IncidentBenchRunSpec, ImageSpec, ResourceSpec}
use incident_bench.Cluster.Objects.{Labels, OwnerReference, Metadata}

-- `default_worker_resources`.
abbrev pub default_worker_resources : ResourceSpec
default_worker_resources = record {
  requests = some (("cpu", "100m") ∷ ("memory", "128Mi") ∷ []);
  limits = some (("cpu", "2") ∷ ("memory", "2Gi") ∷ []);
}

unfoldable pub resolve_resources : Option ResourceSpec → ResourceSpec
resolve_resources none = default_worker_resources
resolve_resources (some r) = r

-- `standard_labels`.
abbrev pub standard_labels : String → String → Labels
standard_labels run_name component =
    ("app.kubernetes.io/name", "incidentbench")
    ∷ ("app.kubernetes.io/instance", run_name)
    ∷ ("app.kubernetes.io/component", component)
    ∷ ("app.kubernetes.io/managed-by", "incidentbench-operator")
    ∷ []

-- The labels that a selector names.
abbrev pub selector_labels : String → String → Labels
selector_labels run_name component =
    ("app.kubernetes.io/instance", run_name) ∷ ("app.kubernetes.io/component", component) ∷ []

-- `format!("{}-{}", run_name, suffix)`.
unfoldable pub object_name : String → String → String
object_name run_name suffix = run_name <> "-" <> suffix

abbrev pub ingest_name : String → String → String
ingest_name run_name stream = object_name run_name ("ingest-" <> stream)

abbrev pub query_name : String → String → String
query_name run_name group = object_name run_name ("query-" <> group)

abbrev worker_image : Option ImageSpec → Option String
worker_image none = none
worker_image (some i) = i.worker

abbrev reporter_image : Option ImageSpec → Option String
reporter_image none = none
reporter_image (some i) = i.reporter

module _ {F J : Type 0} where
  -- `owner_reference`.
  abbrev pub owner_reference : IncidentBenchRun F J → OwnerReference
  owner_reference run = record {
    name = unwrap_or run.metadata.name "";
    uid = unwrap_or run.metadata.uid "";
  }

  abbrev pub child_metadata : String → IncidentBenchRun F J → Labels → Metadata
  child_metadata name run labels = record {
    name = name;
    namespace = run.metadata.namespace;
    owner_references = owner_reference run ∷ [];
    labels = labels;
  }

  abbrev pub image_of_worker : IncidentBenchRunSpec F J → String
  image_of_worker spec =
      unwrap_or (worker_image spec.images) "ghcr.io/mach5-io/incidentbench-worker:v0.1.0"

  abbrev pub image_of_reporter : IncidentBenchRunSpec F J → String
  image_of_reporter spec =
      unwrap_or (reporter_image spec.images) "ghcr.io/mach5-io/incidentbench-reporter:v0.1.0"
