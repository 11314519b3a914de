-- ===== src/Operator/Cleaning/Covers.antt =====
-- What the operator creates it deletes again.
use mathlib.Core.List.{Memᴰ}
use mathlib.Core.List.Memᴰ
use incident_bench.Base.{
  All-append, All-map, All-under, String, ◌≡◌, refl, sym, ◌⊎◌, inl, inr, Bool, true, false, Option,
  none, some, List, map, ◌++◌, All, F64,
}
use incident_bench.Crd.{IncidentBenchRun, QueryGroupSpec}
use incident_bench.Cluster.{delete}
use incident_bench.Cluster.Objects.{
  Platform, Object, ConfigMap, Deployment, Kind, kind_of, name_of, claims, config_maps, services,
  deployments, config_map, deployment, Document,
}
use incident_bench.Cluster.Requests.{Asks, Asks-bind, for_each-Asks}
use incident_bench.Scenario.{Scenario, DataStream, streams_of}
use incident_bench.Scenario.Scaling.Keeps.{with_scaling-SameShape}
use incident_bench.Operator.Steps
use incident_bench.Operator.Health
use incident_bench.Operator.Deploying
use incident_bench.Operator.Cleaning
use incident_bench.Operator.Cleaning.{
  deletions, deployment_names, service_names, config_map_names, handle_cleanup, delete_all,
}
use incident_bench.Resources.{ingest_name, query_name}
use incident_bench.Resources.ConfigMaps
use incident_bench.Resources.Deployments
use incident_bench.Resources.Services

module _ {F J : Type 0} where
  abbrev Deleted : IncidentBenchRun F J → Kind → String → Type 0
  Deleted run kind name = Memᴰ (kind, name) (deletions run)

  deployment-Deleted :
      (run : IncidentBenchRun F J) (name : String)
      → Memᴰ name (deployment_names run)
      → Deleted run deployments name
  unfolding deletions
  deployment-Deleted run name m = Memᴰ.append_left _ (Memᴰ.map (λ (n : String). (deployments, n)) m)

  service-Deleted :
      (run : IncidentBenchRun F J) (name : String)
      → Memᴰ name (service_names run)
      → Deleted run services name
  unfolding deletions
  service-Deleted run name m =
      Memᴰ.append_right (map (λ (n : String). (deployments, n)) (deployment_names run))
        (Memᴰ.append_left _ (Memᴰ.map (λ (n : String). (services, n)) m))

  pub config_map-Deleted :
      (run : IncidentBenchRun F J) (name : String)
      → Memᴰ name (config_map_names run)
      → Deleted run config_maps name
  unfolding deletions
  config_map-Deleted run name m =
      Memᴰ.append_right (map (λ (n : String). (deployments, n)) (deployment_names run)) (
        Memᴰ.append_right (map (λ (n : String). (services, n)) (service_names run))
          (Memᴰ.map (λ (n : String). (config_maps, n)) m))

  -- What the specification deletes of a stream's and a group's objects, of either kind.
  stream-Memᴰ :
      ⦃fl : F64 F⦄ (run : IncidentBenchRun F J) (scenario : Scenario F)
      → run.spec.scenario ≡ some scenario
      → (d : DataStream) → Memᴰ d (streams_of (Health.scaled run scenario))
      → Memᴰ (ingest_name (Steps.run_name run) d.name) (Cleaning.stream_objects run)
  stream-Memᴰ run scenario e d m =
      let shape =
        (with_scaling-SameShape run.spec.scaling.duration_scale run.spec.scaling.rate_scale
          scenario).0 in
      let named : Memᴰ d.name (Health.stream_names (Health.scaled run scenario)) =
        Memᴰ.map (λ (x : DataStream). x.name) m in
      rw e (Memᴰ.map (ingest_name (Steps.run_name run)) (rw (sym shape.streams) named))

  group-Memᴰ :
      (run : IncidentBenchRun F J) (g : QueryGroupSpec)
      → Memᴰ g (Steps.groups_of run)
      → Memᴰ (query_name (Steps.run_name run) g.name) (Health.query_deployments run)
  group-Memᴰ run g m = Memᴰ.map (λ (g : QueryGroupSpec). query_name (Steps.run_name run) g.name) m

  module _ ⦃pf : Platform J⦄ where
    -- An object that is applied is a claim, or is deleted on every path of the cleanup.
    abbrev pub IsUndone : IncidentBenchRun F J → String → Object F J → Type 0
    IsUndone run namespace o =
        (kind_of o ≡ claims) ⊎ Asks (delete (kind_of o) namespace (name_of o)) (handle_cleanup run)

    pub Deleted-Asks :
        (run : IncidentBenchRun F J) (kind : Kind) (name : String)
        → Deleted run kind name
        → Asks (delete kind (Steps.namespace_of run) name) (handle_cleanup run)
    unfolding handle_cleanup delete_all
    Deleted-Asks run kind name m = Asks-bind _ _ _ (
        for_each-Asks (λ (d : Kind × String). delete d.0 (Steps.namespace_of run) d.1) (kind, name)
          (deletions run) m)

  module _ ⦃fl : F64 F⦄ ⦃pf : Platform J⦄ (run : IncidentBenchRun F J) (scenario : Scenario F)
      (inline : run.spec.scenario ≡ some scenario) where
    config_map-rest :
        (name : String)
        → Memᴰ name (Cleaning.stream_objects run ++ Health.query_deployments run)
        → Deleted run config_maps name
    config_map-rest name m =
        config_map-Deleted run name
          (Memᴰ.tail (Memᴰ.tail (Memᴰ.tail (Memᴰ.tail (Memᴰ.tail (Memᴰ.tail m))))))

    deployment-rest :
        (name : String)
        → Memᴰ name (Cleaning.stream_objects run ++ Health.query_deployments run)
        → Deleted run deployments name
    deployment-rest name m = deployment-Deleted run name (Memᴰ.tail (Memᴰ.tail (Memᴰ.tail m)))

    worker_configmaps-Undone :
        (groups endpoints : List (String × String)) (bootstrap : String)
        → All
            (λ (c : ConfigMap F J). IsUndone run (Steps.namespace_of run) (config_map c))
            (ConfigMaps.build_worker_configmaps
              (Steps.run_name run)
              (Health.scaled run scenario)
              run.spec
              run
              groups
              endpoints
              bootstrap)
    unfolding ConfigMaps.build_worker_configmaps
    worker_configmaps-Undone groups endpoints bootstrap =
        let streams = streams_of (Health.scaled run scenario) in
        let name = Steps.run_name run in
        let ingest =
          All-map (λ (c : ConfigMap F J). IsUndone run (Steps.namespace_of run) (config_map c))
            (ConfigMaps.ingest_config_map name (Health.scaled run scenario) run bootstrap) streams
            λ d m.
              unfold ConfigMaps.ingest_config_map in
              inr (
                Deleted-Asks run _ _
                  (config_map-rest _ (Memᴰ.append_left _ (stream-Memᴰ run scenario inline d m)))) in
        let query =
          All-map (λ (c : ConfigMap F J). IsUndone run (Steps.namespace_of run) (config_map c))
            (ConfigMaps.group_config_map name (Health.scaled run scenario) run.spec run endpoints)
            (Steps.groups_of run)
            λ g m.
              unfold ConfigMaps.group_config_map in
              inr (
                Deleted-Asks run _ _ (
                  config_map-rest _
                    (Memᴰ.append_right (Cleaning.stream_objects run) (group-Memᴰ run g m)))) in
        (
          inr (Deleted-Asks run _ _ (config_map-Deleted run _ (Memᴰ.head refl))),
          (
            inr (Deleted-Asks run _ _ (config_map-Deleted run _ (Memᴰ.tail (Memᴰ.head refl)))),
            (
              inr (
                  Deleted-Asks run _ _
                    (config_map-Deleted run _ (Memᴰ.tail (Memᴰ.tail (Memᴰ.head refl))))),
              All-append _ _ _ ingest (
                inr (
                    Deleted-Asks run _ _ (
                      config_map-Deleted run _
                        (Memᴰ.tail (Memᴰ.tail (Memᴰ.tail (Memᴰ.head refl)))))),
                query,
              ),
            ),
          ),
        )

    pub base_objects-Undone :
        (files : List (String × Document F J))
        → All
            (IsUndone run (Steps.namespace_of run))
            (Deploying.base_objects run (Health.scaled run scenario) files)
    unfolding Deploying.base_objects Services.build_phase_controller_service
        Services.build_aggregator_service Services.build_results_pvc
        Deployments.build_aggregator_deployment Deployments.build_phase_controller_deployment
    base_objects-Undone files =
        All-append _ _ _
          (All-under (IsUndone run (Steps.namespace_of run)) config_map _
            (worker_configmaps-Undone _ _ _))
          (
            inr (Deleted-Asks run _ _ (service-Deleted run _ (Memᴰ.head refl))),
            (
              inr (Deleted-Asks run _ _ (service-Deleted run _ (Memᴰ.tail (Memᴰ.head refl)))),
              (
                inl refl,
                (
                  inr (Deleted-Asks run _ _ (deployment-Deleted run _ (Memᴰ.head refl))),
                  (
                    inr (
                        Deleted-Asks run _ _
                          (deployment-Deleted run _ (Memᴰ.tail (Memᴰ.head refl)))),
                    tt,
                  ),
                ),
              ),
            ),
          )

    pub ingest_objects-Undone :
        (b : Bool)
        → All
            (IsUndone run (Steps.namespace_of run))
            (Deploying.ingest_objects b run (Health.scaled run scenario))
    unfolding Deploying.ingest_objects Deployments.build_ingest_stream_deployments
    ingest_objects-Undone false = tt
    ingest_objects-Undone true = All-under (IsUndone run (Steps.namespace_of run)) deployment _ (
        All-map (λ (d : Deployment). IsUndone run (Steps.namespace_of run) (deployment d))
          (Deployments.ingest_deployment (Steps.run_name run) run.spec run)
          (streams_of (Health.scaled run scenario))
          λ d m.
            unfold Deployments.ingest_deployment in
            inr (
              Deleted-Asks run _ _
                (deployment-rest _ (Memᴰ.append_left _ (stream-Memᴰ run scenario inline d m)))))

    pub query_objects-Undone :
        (groups : Option (List QueryGroupSpec)) (sql : Option String)
        → run.spec.workers.query_groups ≡ groups
        → All (IsUndone run (Steps.namespace_of run)) (Deploying.query_objects groups run sql)
    unfolding Deploying.query_objects Deployments.build_query_worker_group_deployments
        Deployments.build_query_worker_deployment
    query_objects-Undone none sql e = (
      inr (
          Deleted-Asks run _ _ (deployment-Deleted run _ (Memᴰ.tail (Memᴰ.tail (Memᴰ.head refl))))),
      tt,
    )
    query_objects-Undone (some groups) sql e =
        All-under (IsUndone run (Steps.namespace_of run)) deployment _ (
          All-map (λ (d : Deployment). IsUndone run (Steps.namespace_of run) (deployment d))
            (Deployments.group_deployment (Steps.run_name run) run.spec run sql) groups
            λ g m.
              unfold Deployments.group_deployment in
              inr (
                Deleted-Asks run _ _ (
                  deployment-rest _
                    (Memᴰ.append_right (Cleaning.stream_objects run) (group-Memᴰ run g (rw e m))))))
