-- ===== src/Examples/Clusters.antt =====
-- A small cluster that refuses nothing, and a run in it.
use incident_bench.Base.{
  pos, refl, String, true, false, Option, none, some, List, [], ◌∷◌, str_eq, if◌then◌else◌,
}
use incident_bench.Crd.{IncidentBenchRun, default_workers, default_scaling}
use incident_bench.Crd.Status.{IncidentBenchRunStatus, default_status, LifecyclePhase}
use incident_bench.Cluster.{
  Request, Reply, ok, err, api, patch_status, patch_metadata, apply, scale, delete, get_config_map,
  get_deployment, get_job, create_job, create_admin_client, create_topics, delete_topics,
  build_http_client, prepare, cleanup, connect, get_status, get_latest_snapshot,
  get_aggregation_status, get_results, read_sql_files, now, new_uuid, elapsed_since,
}
use incident_bench.Cluster.Objects.{Platform}
use incident_bench.Cluster.Paths.{after}
use incident_bench.Cluster.Server.{Server, IsLawful}
use incident_bench.Examples.Milli.{Milli, milli}
use incident_bench.Examples.Loads.{incident}

-- A stand-in for JSON texts, for maps of one known entry.
abbrev first_key : List (String × String) → String
first_key [] = "{}"
first_key ((k, _) ∷ _) = k

abbrev entry_of : String → List (String × String)
entry_of t =
    if str_eq t "{}" then [] else (t, if str_eq t "logs" then "logs-cg" else "http://q") ∷ []

-- JSON values that are texts.
instance abbrev pub texts : Platform String
texts = record {
  get = λ _ _. none;
  as_str = λ t. some t;
  as_u64 = λ _. none;
  hash = λ _. 7;
  trim_slashes = λ t. t;
  map_to_json = first_key;
  map_from_json = λ t. some (entry_of t);
}

abbrev pub reply : (r : Request Milli String) → Reply r
reply (patch_status _) = ok tt
reply (patch_metadata _) = ok tt
reply (apply _ _) = ok tt
reply (scale _ _ _) = ok tt
reply (delete _ _ _) = ok tt
reply (get_config_map _ _) = ok none
reply (get_deployment _ _) = err (api 404)
reply (get_job _ _) = ok (some record { succeeded = some (pos 1); failed = none })
reply (create_job _ _) = ok tt
reply (create_admin_client _) = ok tt
reply (create_topics _ _ _) = ok (ok tt ∷ [])
reply (delete_topics _) = ok []
reply build_http_client = ok tt
reply (prepare _ _ _ _) = ok record { consumer_groups = []; query_endpoints = [] }
reply (cleanup _ _ _) = ok tt
reply (connect _ _) = ok tt
reply (get_status _) = ok record {
  state = "complete";
  current_phase = "complete";
  phase_elapsed_seconds = pos 0;
  total_elapsed_seconds = pos 60;
  total_duration_seconds = pos 60;
  connected_ingest_workers = pos 0;
  connected_query_workers = pos 0;
  timeline_complete = true;
}
reply (get_latest_snapshot _) = err "no snapshot"
reply (get_aggregation_status _) = ok record {
  state = "complete";
  snapshots_received = pos 9;
  seconds_aggregated = pos 60;
  connected_workers = pos 0;
}
reply (get_results _) = err "no results"
reply (read_sql_files _) = []
reply now = "2026-01-01T00:00:00Z"
reply new_uuid = "run-1"
reply (elapsed_since _) = none

abbrev pub cluster : Server Milli String
cluster = record {
  State = Option (IncidentBenchRunStatus Milli);
  handle = λ r s. (reply r, after r (reply r) s);
  status = λ s. s;
}

pub cluster-IsLawful : IsLawful cluster
cluster-IsLawful = record { status-handle = λ r s. refl }

abbrev pub nightly : IncidentBenchRun Milli String
nightly = record {
  metadata = record {
    name = some "nightly";
    namespace = some "bench";
    uid = none;
    finalizers = none;
    annotations = none;
  };
  spec = record {
    scenario = some incident;
    scenario_ref = none;
    target = record {
      adapter = "mach5";
      config = ("endpoint", "http://mach5") ∷ ("namespace", "bench") ∷ [];
    };
    kafka = record { bootstrap_servers = none; managed = false; managed_config = none };
    scaling = default_scaling;
    workers = default_workers;
    images = none;
    sql_dir = none;
    dry_run = false;
  };
  status = none;
}

abbrev pub at_phase : LifecyclePhase → Option (IncidentBenchRunStatus Milli)
at_phase p = some (record default_status { phase = p })
