-- ===== src/Examples/Lifecycles.antt =====
-- The theorems on the operator at a run in a small cluster.
use incident_bench.Base.{
  ℕ, All, arith, pos, ◌≡◌, refl, ◌≤◌, String, true, Option, none, some, List, [], ◌∷◌, ◌++◌, lookup,
}
use incident_bench.Crd.{IncidentBenchRun, default_workers}
use incident_bench.Crd.Status.{
  IncidentBenchRunStatus, preparing, running, aggregating, reporting, completed,
}
use incident_bench.Cluster.{
  Request, Reply, ok, patch_status, connect, get_aggregation_status, elapsed_since,
}
use incident_bench.Cluster.Paths.{after}
use incident_bench.Cluster.Server.{Server, IsLawful}
use incident_bench.Cluster.{ret}
use incident_bench.Cluster.Server.{exec}
use incident_bench.Cluster.Requests.{Every}
use incident_bench.Resources.{object_name}
use incident_bench.Operator.{await_change, reconcile, reconcile_in, finish, is_cleaned}
use incident_bench.Operator.Preparation.{handle_preparing}
use incident_bench.Operator.Deploying.{handle_initializing}
use incident_bench.Operator.Cleaning.{
  handle_cleanup, delete_all, deletions, clean_target, clean_with, delete_topics_of, mark_cleaned,
}
use incident_bench.Operator.Targets.{create_adapter, new_adapter, with_client}
use incident_bench.Operator.Steps.{delete_kafka_topic, delete_with}
use incident_bench.Operator.{phase_of}
use incident_bench.Operator.Lifecycle.{Follows, rounds, reconciled, rank, is_terminal}
use incident_bench.Operator.Lifecycle.Rounds.{reconciled-Follows, rounds-rank_le}
use incident_bench.Operator.Lifecycle.Once.{cleaned_once}
use incident_bench.Operator.Lifecycle.Gate.{Verdict, pending_verdict}
use incident_bench.Operator.Cleaning.Undone.{Undone, handlers-Undone}
use incident_bench.Operator.Watching.{aggregating_since}
use incident_bench.Operator.Aggregation.{marked_since}
use incident_bench.Operator.Aggregation.Timeout.{Overdue, reconciled-reporting}
use incident_bench.Examples.Milli.{Milli, milli}
use incident_bench.Examples.Loads.{incident}
use incident_bench.Crd.{QueryGroupSpec}
use incident_bench.Scenario.Validate.Emptiness.{Distinct}
use incident_bench.Resources.ConfigMaps.{build_prepare_result_configmap, build_worker_configmaps}
use incident_bench.Operator.Deploying.{read_map}
use incident_bench.Operator.Deploying.Counts.{WaitsFor, worker_configmaps-Expects}
use incident_bench.Operator.Deploying.{base_objects, worker_objects}
use incident_bench.Operator.Deploying.Mounts.{IsDeployable, deployed-IsDeployable}
use incident_bench.Operator.Deploying.Handover.{read_map-build_prepare_result_configmap}
use incident_bench.Operator.Targets.{build_warehouse_configs}
use incident_bench.Operator.Targets.Warehouses.{
  names, with_name, first_of, build_warehouse_configs-first,
}
use incident_bench.Examples.Clusters.{texts, reply, cluster, cluster-IsLawful, nightly, at_phase}

reconciled-Follows_example :
    Follows
      (phase_of (at_phase preparing))
      (phase_of (reconciled cluster nightly (at_phase preparing)))
reconciled-Follows_example =
    reconciled-Follows cluster cluster-IsLawful nightly (at_phase preparing)

rounds-rank_le_example :
    (rank (phase_of (at_phase running))
      ≤ rank (phase_of (rounds cluster (λ _. nightly) (λ _ s. s) 3 (at_phase running))))
    × (is_terminal (phase_of (at_phase running)) ≡ true
        → phase_of (rounds cluster (λ _. nightly) (λ _ s. s) 3 (at_phase running))
          ≡ phase_of (at_phase running))
rounds-rank_le_example =
    rounds-rank_le cluster cluster-IsLawful (λ _. nightly) (λ _ s. s) (λ _ _. refl) 3
      (at_phase running)

pending_verdict_example : Verdict nightly (phase_of (reconciled cluster nightly none))
unfolding phase_of
pending_verdict_example = pending_verdict cluster cluster-IsLawful nightly none refl

handlers-Undone_example :
    Every (Undone nightly) (handle_preparing nightly)
    × Every (Undone nightly) (handle_initializing nightly)
handlers-Undone_example = handlers-Undone nightly incident refl

returns :
    (exec cluster
      (reconcile (record nightly { status = at_phase completed }))
      (at_phase completed)).0
    ≡ ok await_change
unfolding exec reconcile reconcile_in phase_of finish is_cleaned handle_cleanup delete_all deletions
    clean_target create_adapter new_adapter with_client clean_with delete_topics_of
    delete_kafka_topic delete_with mark_cleaned object_name lookup
returns = refl

cleaned_once_example :
    reconcile (record nightly { status = reconciled cluster nightly (at_phase completed) })
    ≡ ret await_change
unfolding phase_of
cleaned_once_example =
    cleaned_once cluster cluster-IsLawful nightly nightly (at_phase completed) await_change refl
      returns

abbrev small_group : String → ℕ → QueryGroupSpec
small_group name nodes = record {
  name = name;
  warehouse = record { name = "shared"; num_mediators = 1; num_os = nodes };
  replicas = 4;
  resources = none;
}

abbrev grouped : IncidentBenchRun Milli String
grouped = record nightly {
  spec = record nightly.spec {
    workers = record default_workers {
      query_groups = some (small_group "a" 2 ∷ small_group "b" 5 ∷ []);
    };
  };
}

build_warehouse_configs-first_example :
    Distinct (names (build_warehouse_configs grouped.spec))
    × ((name : String)
        → with_name name (build_warehouse_configs grouped.spec)
          ≡ first_of name (small_group "a" 2 ∷ small_group "b" 5 ∷ []))
build_warehouse_configs-first_example = build_warehouse_configs-first grouped.spec _ refl

abbrev groups_map : List (String × String)
groups_map = ("logs", "logs-cg") ∷ []

abbrev endpoints_map : List (String × String)
endpoints_map = ("shared", "http://q") ∷ []

read_map-build_prepare_result_configmap_example :
    let cm = build_prepare_result_configmap "nightly" groups_map endpoints_map nightly in
    (read_map "consumer_groups" cm.files ≡ groups_map)
    × (read_map "query_endpoints" cm.files ≡ endpoints_map)
read_map-build_prepare_result_configmap_example =
    read_map-build_prepare_result_configmap nightly "nightly" groups_map endpoints_map refl refl

worker_configmaps-Expects_example :
    All
      (WaitsFor grouped incident none)
      (build_worker_configmaps "nightly" incident grouped.spec grouped [] [] "kafka:9092")
worker_configmaps-Expects_example =
    worker_configmaps-Expects grouped incident none [] [] "kafka:9092" (omega arith)

-- An aggregator that goes on collecting, and has no results.
abbrev late_reply : (r : Request Milli String) → Reply r
late_reply (get_aggregation_status _) = ok record {
  state = "collecting";
  snapshots_received = pos 9;
  seconds_aggregated = pos 60;
  connected_workers = pos 2;
}
late_reply (elapsed_since _) = some (pos 121)
late_reply r = reply r

abbrev late_cluster : Server Milli String
late_cluster = record {
  State = Option (IncidentBenchRunStatus Milli);
  handle = λ r s. (late_reply r, after r (late_reply r) s);
  status = λ s. s;
}

late_cluster-IsLawful : IsLawful late_cluster
late_cluster-IsLawful = record { status-handle = λ r s. refl }

late_cluster-Overdue :
    (r : Request Milli String) (s : late_cluster.State) → Overdue r (late_reply r)
late_cluster-Overdue (connect _ _) s = tt
late_cluster-Overdue (get_aggregation_status _) s = tt
late_cluster-Overdue (elapsed_since _) s = refl
late_cluster-Overdue (patch_status _) s = tt
late_cluster-Overdue _ s = tt

abbrev marked : IncidentBenchRun Milli String
marked = record nightly {
  metadata = record nightly.metadata {
    annotations = some ((aggregating_since, "2026-01-01T00:00:00Z") ∷ []);
  };
}

reconciled-reporting_example :
    phase_of (late_cluster.status (reconciled late_cluster marked (at_phase aggregating)))
    ≡ reporting
unfolding marked_since lookup phase_of
reconciled-reporting_example =
    reconciled-reporting late_cluster late_cluster-IsLawful late_cluster-Overdue marked
      "2026-01-01T00:00:00Z" (at_phase aggregating) refl refl

deployed-IsDeployable_example :
    let base = base_objects grouped incident [] in
    All
      (IsDeployable base (some "nightly-sql-files"))
      (base ++ worker_objects grouped incident (some "nightly-sql-files"))
deployed-IsDeployable_example = deployed-IsDeployable grouped incident [] (some "nightly-sql-files")
