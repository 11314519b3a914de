-- ===== src/Resources/Services.antt =====
-- The services, the results' claim and the reporter's job of
-- crates/incidentbench-operator/src/resources.rs.
use incident_bench.Base.{String, none, [], ◌∷◌}
use incident_bench.Crd.{IncidentBenchRun}
use incident_bench.Cluster.Objects.{Service, PersistentVolumeClaim, Job, from_claim}
use incident_bench.Resources.{
  standard_labels, selector_labels, object_name, child_metadata, image_of_reporter,
}

module _ {F J : Type 0} where
  unfoldable pub build_phase_controller_service : String → IncidentBenchRun F J → Service
  build_phase_controller_service run_name run = record {
    metadata =
        child_metadata (object_name run_name "phase-controller") run
          (standard_labels run_name "phase-controller");
    selector = selector_labels run_name "phase-controller";
    port = 50051;
    target_port = 50051;
  }

  unfoldable pub build_aggregator_service : String → IncidentBenchRun F J → Service
  build_aggregator_service run_name run = record {
    metadata =
        child_metadata (object_name run_name "aggregator") run
          (standard_labels run_name "aggregator");
    selector = selector_labels run_name "aggregator";
    port = 50052;
    target_port = 50052;
  }

  -- It has no owner, so that it outlives the run.
  unfoldable pub build_results_pvc : String → IncidentBenchRun F J → PersistentVolumeClaim
  build_results_pvc run_name run = record {
    metadata = record {
      name = object_name run_name "results";
      namespace = run.metadata.namespace;
      owner_references = [];
      labels = standard_labels run_name "results";
    };
    access_modes = "ReadWriteOnce" ∷ [];
    storage = "1Gi";
  }

  unfoldable pub build_reporter_job : String → IncidentBenchRun F J → Job
  build_reporter_job run_name run =
      let labels = standard_labels run_name "reporter" in
      record {
        metadata = child_metadata (object_name run_name "reporter") run labels;
        backoff_limit = 2;
        ttl_seconds_after_finished = 600;
        restart_policy = "OnFailure";
        template = record {
          labels = labels;
          containers =
              record {
                name = "reporter";
                image = image_of_reporter run.spec;
                command =
                    "incidentbench-reporter" ∷ "--input" ∷ "/results" ∷ "--output" ∷ "/results"
                    ∷ [];
                env = [];
                ports = [];
                liveness_probe = none;
                readiness_probe = none;
                volume_mounts = record { name = "results"; mount_path = "/results" } ∷ [];
                resources = none;
              }
              ∷ [];
          init_containers = [];
          volumes =
              record { name = "results"; source = from_claim (object_name run_name "results") }
              ∷ [];
        };
      }
