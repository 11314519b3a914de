-- ===== src/Operator/Deploying/Mounts.antt =====
-- What the pods that the operator deploys are started with.
use mathlib.Core.List.{Memᴰ}
use mathlib.Core.List.Memᴰ
use incident_bench.Base.{
  All-append, All-map, All-under, String, ◌≡◌, refl, sym, ◌⊎◌, inl, inr, Bool, true, false, Option,
  none, some, List, ◌∷◌, map, ◌++◌, All, F64,
}
use incident_bench.Crd.{IncidentBenchRun, QueryGroupSpec}
use incident_bench.Cluster.Objects.{
  Platform, Object, ConfigMap, Deployment, Document, Kind, kind_of, name_of, claims, config_maps,
  config_map, deployment, service, VolumeSource, Volume, VolumeMount, Container, from_config_map,
  from_claim,
}
use incident_bench.Scenario.{Scenario, DataStream, streams_of, has_ingest}
use incident_bench.Resources.{ingest_name, query_name, object_name}
use incident_bench.Resources
use incident_bench.Resources.ConfigMaps
use incident_bench.Resources.Services
use incident_bench.Resources.Deployments
use incident_bench.Operator.Steps
use incident_bench.Operator.Deploying
use incident_bench.Operator.Deploying.{base_objects, worker_objects, ingest_objects, query_objects}

module _ {F J : Type 0} where
  abbrev key : Object F J → Kind × String
  key o = (kind_of o, name_of o)

  -- What a volume is filled from is among the objects, or is the config map of the SQL files.
  abbrev pub Offered : List (Object F J) → Option String → VolumeSource → Type 0
  Offered objects sql (from_config_map name) =
      Memᴰ (config_maps, name) (map key objects) ⊎ (sql ≡ some name)
  Offered objects sql (from_claim name) = Memᴰ (claims, name) (map key objects)

  -- The selector of a deployment names labels of its pods, their volumes are offered, and each mount of
  -- their containers is one of their volumes.
  abbrev pub IsDeployable : List (Object F J) → Option String → Object F J → Type 0
  IsDeployable objects sql (deployment d) =
      All (λ (l : String × String). Memᴰ l d.template.labels) d.match_labels
      × All (λ (v : Volume). Offered objects sql v.source) d.template.volumes
      × All
          (λ (c : Container).
            All (λ (m : VolumeMount). Memᴰ m.name (map (λ (v : Volume). v.name) d.template.volumes))
              c.volume_mounts)
          (d.template.containers ++ d.template.init_containers)
  IsDeployable objects sql _ = Unit {0}

module _ {F J : Type 0} ⦃fl : F64 F⦄ ⦃pf : Platform J⦄ (run : IncidentBenchRun F J)
    (scenario : Scenario F) (files : List (String × Document F J)) where
  abbrev base : List (Object F J)
  base = base_objects run scenario files

  abbrev config_maps_of : List (ConfigMap F J)
  config_maps_of =
      ConfigMaps.build_worker_configmaps (Steps.run_name run) scenario run.spec run
        (Deploying.read_map "consumer_groups" files) (Deploying.read_map "query_endpoints" files)
        (Steps.bootstrap_of run.spec)

  abbrev HasConfig : String → Type 0
  HasConfig name = Memᴰ (config_maps, name) (map key base)

  config_map-HasConfig : (c : ConfigMap F J) → Memᴰ c config_maps_of → HasConfig c.metadata.name
  unfolding base_objects
  config_map-HasConfig c m = Memᴰ.map key (Memᴰ.append_left _ (Memᴰ.map config_map m))

  ingest-HasConfig :
      (d : DataStream)
      → Memᴰ d (streams_of scenario)
      → HasConfig (ingest_name (Steps.run_name run) d.name)
  unfolding ConfigMaps.build_worker_configmaps ConfigMaps.ingest_config_map
  ingest-HasConfig d m = config_map-HasConfig _ (
      Memᴰ.tail (
        Memᴰ.tail (
          Memᴰ.tail (
            Memᴰ.append_left _ (
              Memᴰ.map
                (ConfigMaps.ingest_config_map (Steps.run_name run) scenario run
                  (Steps.bootstrap_of run.spec))
                m)))))

  query-HasConfig : HasConfig (object_name (Steps.run_name run) "query")
  unfolding ConfigMaps.build_worker_configmaps
  query-HasConfig = config_map-HasConfig _ (
      Memᴰ.tail (
        Memᴰ.tail (
          Memᴰ.tail (
            Memᴰ.append_right
              (map
                (ConfigMaps.ingest_config_map (Steps.run_name run) scenario run
                  (Steps.bootstrap_of run.spec))
                (streams_of scenario))
              (Memᴰ.head refl)))))

  group-HasConfig :
      (g : QueryGroupSpec)
      → Memᴰ g (Steps.groups_of run)
      → HasConfig (query_name (Steps.run_name run) g.name)
  unfolding ConfigMaps.build_worker_configmaps ConfigMaps.group_config_map
  group-HasConfig g m = config_map-HasConfig _ (
      Memᴰ.tail (
        Memᴰ.tail (
          Memᴰ.tail (
            Memᴰ.append_right
              (map
                (ConfigMaps.ingest_config_map (Steps.run_name run) scenario run
                  (Steps.bootstrap_of run.spec))
                (streams_of scenario))
              (Memᴰ.tail (
                Memᴰ.map
                  (ConfigMaps.group_config_map (Steps.run_name run) scenario run.spec run
                    (Deploying.read_map "query_endpoints" files))
                  m))))))

  module _ (sql : Option String) where
    abbrev Works : Object F J → Type 0
    Works o = IsDeployable base sql o

    abbrev sql_names : List String
    sql_names = map (λ (v : Volume). v.name) (Deployments.sql_volumes sql)

    sql-Offered :
        (s : Option String)
        → s ≡ sql
        → All (λ (v : Volume). Offered base sql v.source) (Deployments.sql_volumes s)
    sql-Offered none e = tt
    sql-Offered (some n) e = (inr (sym e), tt)

    sql-mounts :
        (s : Option String)
        → All
            (λ (m : VolumeMount).
              Memᴰ m.name ("config" ∷ map (λ (v : Volume). v.name) (Deployments.sql_volumes s)))
            (Deployments.sql_mounts s)
    sql-mounts none = tt
    sql-mounts (some n) = (Memᴰ.tail (Memᴰ.head refl), tt)

    marked-Memᴰ :
        (component key name : String)
        → All
            (λ (l : String × String). Memᴰ l (
              Resources.standard_labels (Steps.run_name run) component
              ++ Deployments.mark_of key name))
            (Resources.selector_labels (Steps.run_name run) component
              ++ Deployments.mark_of key name)
    marked-Memᴰ component key name = (
      Memᴰ.tail (Memᴰ.head refl),
      (
        Memᴰ.tail (Memᴰ.tail (Memᴰ.head refl)),
        (Memᴰ.tail (Memᴰ.tail (Memᴰ.tail (Memᴰ.tail (Memᴰ.head refl)))), tt),
      ),
    )

    selected-Memᴰ :
        (component : String)
        → All
            (λ (l : String × String).
              Memᴰ l (Resources.standard_labels (Steps.run_name run) component))
            (Resources.selector_labels (Steps.run_name run) component)
    selected-Memᴰ component =
        (Memᴰ.tail (Memᴰ.head refl), (Memᴰ.tail (Memᴰ.tail (Memᴰ.head refl)), tt))

    ingest-IsDeployable :
        (d : DataStream)
        → Memᴰ d (streams_of scenario)
        → Works (deployment (Deployments.ingest_deployment (Steps.run_name run) run.spec run d))
    unfolding Deployments.ingest_deployment
    ingest-IsDeployable d m = (
      marked-Memᴰ "ingest-worker" "incidentbench.io/data-stream" d.name,
      (inl (ingest-HasConfig d m), tt),
      ((Memᴰ.head refl, tt), tt),
    )

    group-IsDeployable :
        (g : QueryGroupSpec)
        → Memᴰ g (Steps.groups_of run)
        → Works (deployment (Deployments.group_deployment (Steps.run_name run) run.spec run sql g))
    unfolding Deployments.group_deployment
    group-IsDeployable g m = (
      marked-Memᴰ "query-worker" "incidentbench.io/query-group" g.name,
      (inl (group-HasConfig g m), sql-Offered sql refl),
      ((Memᴰ.head refl, sql-mounts sql), tt),
    )

    query-IsDeployable : Works (
        deployment
          (Deployments.build_query_worker_deployment (Steps.run_name run) run.spec run sql))
    unfolding Deployments.build_query_worker_deployment
    query-IsDeployable = (
      selected-Memᴰ "query-worker",
      (inl query-HasConfig, sql-Offered sql refl),
      ((Memᴰ.head refl, sql-mounts sql), tt),
    )

    claim-Memᴰ : Memᴰ (claims, object_name (Steps.run_name run) "results") (map key base)
    unfolding base_objects Services.build_results_pvc
    claim-Memᴰ = Memᴰ.map key (
        Memᴰ.append_right (map config_map config_maps_of) (
          Memᴰ.tail {x = service (Services.build_phase_controller_service (Steps.run_name run) run)}
            (Memᴰ.tail (Memᴰ.head refl))))

    aggregator-IsDeployable :
        Works
          (deployment (Deployments.build_aggregator_deployment (Steps.run_name run) run.spec run))
    unfolding Deployments.build_aggregator_deployment ConfigMaps.build_worker_configmaps
    aggregator-IsDeployable = (
      selected-Memᴰ "aggregator",
      (
        inl (config_map-HasConfig _ (Memᴰ.tail (Memᴰ.tail (Memᴰ.head refl)))),
        (claim-Memᴰ, (inl (config_map-HasConfig _ (Memᴰ.head refl)), tt)),
      ),
      (
        (
          Memᴰ.head refl,
          (Memᴰ.tail (Memᴰ.head refl), (Memᴰ.tail (Memᴰ.tail (Memᴰ.head refl)), tt)),
        ),
        ((Memᴰ.tail (Memᴰ.tail (Memᴰ.head refl)), (Memᴰ.tail (Memᴰ.head refl), tt)), tt),
      ),
    )

    phase_controller-IsDeployable : Works (
        deployment (
          Deployments.build_phase_controller_deployment (Steps.run_name run) scenario run.spec run))
    unfolding Deployments.build_phase_controller_deployment ConfigMaps.build_worker_configmaps
    phase_controller-IsDeployable = (
      selected-Memᴰ "phase-controller",
      (inl (config_map-HasConfig _ (Memᴰ.tail (Memᴰ.head refl))), tt),
      ((Memᴰ.head refl, tt), tt),
    )

    ingest_objects-IsDeployable : (there : Bool) → All Works (ingest_objects there run scenario)
    unfolding ingest_objects Deployments.build_ingest_stream_deployments
    ingest_objects-IsDeployable false = tt
    ingest_objects-IsDeployable true = All-under Works deployment _ (
        All-map (λ (d : Deployment). Works (deployment d))
          (Deployments.ingest_deployment (Steps.run_name run) run.spec run) (streams_of scenario)
          ingest-IsDeployable)

    query_objects-IsDeployable :
        (groups : Option (List QueryGroupSpec))
        → run.spec.workers.query_groups ≡ groups
        → All Works (query_objects groups run sql)
    unfolding query_objects Deployments.build_query_worker_group_deployments
    query_objects-IsDeployable none e = (query-IsDeployable, tt)
    query_objects-IsDeployable (some groups) e = All-under Works deployment _ (
        All-map (λ (d : Deployment). Works (deployment d))
          (Deployments.group_deployment (Steps.run_name run) run.spec run sql) groups
          λ g m. group-IsDeployable g (rw e m))

    -- What the operator deploys for a run fits together, for every run, scenario, stored result of the
    -- preparation and name of a config map of SQL files: the selector of each deployment names labels
    -- of its own pods, each volume of its pods is filled from a config map or a claim that is applied
    -- before the workers or from the config map of the SQL files, and each mount of its containers is
    -- a volume of the pod.
    pub deployed-IsDeployable : All Works (base ++ worker_objects run scenario sql)
    unfolding base_objects worker_objects
    deployed-IsDeployable =
        All-append Works base (worker_objects run scenario sql)
          (All-append Works (map config_map config_maps_of) _
            (All-map Works config_map config_maps_of λ c m. tt)
            (tt, (tt, (tt, (aggregator-IsDeployable, (phase_controller-IsDeployable, tt))))))
          (All-append Works (ingest_objects (has_ingest scenario) run scenario) _
            (ingest_objects-IsDeployable (has_ingest scenario))
            (query_objects-IsDeployable run.spec.workers.query_groups refl))
