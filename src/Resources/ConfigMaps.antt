-- ===== src/Resources/ConfigMaps.antt =====
-- The config maps of crates/incidentbench-operator/src/resources.rs. `run` and `spec` are the run and
-- its specification, as in the source.
use incident_bench.Base.{
  ℕ, ◌/◌, max, String, ◌<>◌, Option, none, some, List, [], ◌∷◌, map, ◌++◌, F64, unwrap_or, lookup,
  find, sum_u32, str_eq, is_empty, if◌then◌else◌,
}
use incident_bench.Crd.{IncidentBenchRun, IncidentBenchRunSpec, QueryGroupSpec}
use incident_bench.Cluster.Objects.{
  ConfigMap, Document, text, scenario_yaml, phase_controller_yaml, aggregator_yaml, ingest_yaml,
  query_yaml, IngestYaml, PhaseControllerYaml, AggregatorYaml, StreamYaml, QueryYaml, Platform,
}
use incident_bench.PhaseController.{PhaseSpec}
use incident_bench.Scenario.{
  Scenario, DataStream, PhaseDef, QueryGroup, QueryMix, streams_of, total_ingest_replicas,
}
use incident_bench.Scenario.Scaling.{resolve_group_query_mix}
use incident_bench.Scenario.Session.{derive_query_session}
use incident_bench.Scenario.Rates.{total_mqps, compute_ingest_rate_table, compute_query_rate_table}
use incident_bench.Resources.{standard_labels, object_name, ingest_name, query_name, child_metadata}

unfoldable pub stream_yaml : List (String × String) → DataStream → StreamYaml
stream_yaml consumer_groups stream = record {
  name = stream.name;
  kafka_topic = stream.schema.index_name;
  consumer_group =
      unwrap_or (lookup stream.name consumer_groups) (stream.schema.index_name <> "-cg");
}

abbrev first_value : List (String × String) → String
first_value [] = ""
first_value ((_, v) ∷ _) = v

mix_of : {F : Type 0} → Scenario F → Option (QueryGroup F) → QueryMix
mix_of s none = s.query_mix
mix_of s (some g) = resolve_group_query_mix s g

-- The query mix of a group, by the scenario's group of the same name.
unfoldable pub group_mix : {F : Type 0} → Scenario F → String → QueryMix
unfolding mix_of
group_mix s name =
    mix_of s (find (λ (g : QueryGroup _). str_eq g.name name) (unwrap_or s.query_groups []))

-- A phase of the phase controller's configuration.
unfoldable pub phase_spec : {F : Type 0} ⦃fl : F64 F⦄ → ℕ → PhaseDef F → PhaseSpec
phase_spec workers p = record {
  name = p.name;
  duration_seconds = p.duration_seconds;
  per_worker_ingest_eps = 0;
  per_worker_query_mqps = total_mqps p / max workers 1;
}

module _ {F J : Type 0} where
  abbrev new_config_map :
      String → String → String → IncidentBenchRun F J → List (String × Document F J) → ConfigMap F J
  new_config_map name run_name component run files = record {
    metadata = child_metadata name run (standard_labels run_name component);
    files = files;
  }

  first_entry : List (String × String) → List (String × Document F J)
  first_entry [] = []
  first_entry ((_, endpoint) ∷ _) = ("query_endpoint", text endpoint) ∷ []

  unfoldable pub build_prepare_result_configmap :
      ⦃pf : Platform J⦄
      → String
      → List (String × String)
      → List (String × String)
      → IncidentBenchRun F J
      → ConfigMap F J
  unfolding first_entry
  build_prepare_result_configmap ⦃pf⦄ run_name consumer_groups query_endpoints run =
      new_config_map (object_name run_name "prepare") run_name "prepare" run (
        ("consumer_groups", text (pf.map_to_json consumer_groups))
        ∷ ("query_endpoints", text (pf.map_to_json query_endpoints))
        ∷ first_entry query_endpoints)

  -- The part of `build_sql_files_configmap` after its walk, on the files that the walk has read.
  unfoldable pub build_sql_files_configmap :
      String → List (String × String) → IncidentBenchRun F J → Option (ConfigMap F J)
  build_sql_files_configmap run_name files run =
      if is_empty files
      then none
      else some (
          new_config_map (object_name run_name "sql-files") run_name "sql-files" run
            (map (λ (e : String × String). (e.0, text e.1)) files))

  -- The sum over the groups, or the replicas of the single deployment.
  unfoldable pub replicas_of : IncidentBenchRunSpec F J → Option (List QueryGroupSpec) → ℕ
  replicas_of spec none = spec.workers.query.replicas
  replicas_of spec (some groups) = sum_u32 (map (λ (g : QueryGroupSpec). g.replicas) groups)

  abbrev pub total_query_replicas : IncidentBenchRunSpec F J → ℕ
  total_query_replicas spec = replicas_of spec spec.workers.query_groups

  abbrev pc_addr : String → IncidentBenchRun F J → String
  pc_addr run_name run =
      run_name <> "-phase-controller." <> unwrap_or run.metadata.namespace "default" <> ".svc:50051"

  abbrev agg_addr : String → IncidentBenchRun F J → String
  agg_addr run_name run =
      run_name <> "-aggregator." <> unwrap_or run.metadata.namespace "default" <> ".svc:50052"

module _ {F J : Type 0} ⦃fl : F64 F⦄ ⦃pf : Platform J⦄ where
  unfoldable pub ingest_config_map :
      String → Scenario F → IncidentBenchRun F J → String → DataStream → ConfigMap F J
  ingest_config_map run_name scenario run bootstrap stream =
      let yaml : IngestYaml = record {
        worker_index = 0;
        run_seed = pf.hash run_name;
        schema = stream.schema;
        rate_table = compute_ingest_rate_table scenario stream 0;
        kafka_bootstrap_servers = bootstrap;
        kafka_topic = stream.schema.index_name;
        phase_controller_addr = pc_addr run_name run;
        aggregator_addr = agg_addr run_name run;
      } in
      new_config_map (ingest_name run_name stream.name) run_name "ingest" run
        (("ingest.yaml", ingest_yaml yaml) ∷ [])

  unfoldable pub query_config :
      String
      → Scenario F
      → IncidentBenchRunSpec F J
      → IncidentBenchRun F J
      → QueryMix
      → ℕ
      → String
      → String
      → QueryYaml J
  query_config run_name scenario spec run mix workers endpoint group = record {
    worker_index = 0;
    run_seed = pf.hash run_name;
    query_mix = mix;
    rate_table = compute_query_rate_table scenario workers 0;
    query_endpoint = endpoint;
    query_group = group;
    target_adapter = spec.target.adapter;
    target_config = spec.target.config;
    phase_controller_addr = pc_addr run_name run;
    aggregator_addr = agg_addr run_name run;
    query_session = derive_query_session scenario;
    default_timeout_ms = scenario.default_timeout_ms;
  }

  unfoldable pub group_config_map :
      String
      → Scenario F
      → IncidentBenchRunSpec F J
      → IncidentBenchRun F J
      → List (String × String)
      → QueryGroupSpec
      → ConfigMap F J
  unfolding query_config
  group_config_map run_name scenario spec run endpoints group =
      let endpoint = unwrap_or (lookup group.warehouse.name endpoints) (first_value endpoints) in
      let mix = group_mix scenario group.name in
      new_config_map (query_name run_name group.name) run_name "query" run (
        (
          "query-" <> group.name <> ".yaml",
          query_yaml
              (query_config run_name scenario spec run mix group.replicas endpoint group.name),
        )
        ∷ [])

  unfoldable pub build_worker_configmaps :
      String
      → Scenario F
      → IncidentBenchRunSpec F J
      → IncidentBenchRun F J
      → List (String × String)
      → List (String × String)
      → String
      → List (ConfigMap F J)
  unfolding ingest_config_map query_config group_config_map
  build_worker_configmaps run_name scenario spec run consumer_groups query_endpoints bootstrap =
      let workers = total_query_replicas spec in
      let pc_config : PhaseControllerYaml = record {
        expected_ingest_workers = total_ingest_replicas scenario;
        expected_query_workers = workers;
        phases = map (phase_spec workers) scenario.timeline.phases;
      } in
      let agg_config : AggregatorYaml = record {
        kafka_bootstrap_servers = bootstrap;
        streams = map (stream_yaml consumer_groups) (streams_of scenario);
        results_path = "/results";
      } in
      let query =
        query_config run_name scenario spec run scenario.query_mix workers
          (first_value query_endpoints) "" in
      (new_config_map (object_name run_name "scenario") run_name "scenario" run
        (("scenario.yaml", scenario_yaml scenario) ∷ []))
      ∷ (new_config_map (object_name run_name "phase-controller") run_name "phase-controller" run
          (("phase-controller.yaml", phase_controller_yaml pc_config) ∷ []))
      ∷ (new_config_map (object_name run_name "aggregator") run_name "aggregator" run
          (("aggregator.yaml", aggregator_yaml agg_config) ∷ []))
      ∷ (map (ingest_config_map run_name scenario run bootstrap) (streams_of scenario)
          ++ ((new_config_map (object_name run_name "query") run_name "query" run
                (("query.yaml", query_yaml query) ∷ []))
              ∷ map (group_config_map run_name scenario spec run query_endpoints)
                  (unwrap_or spec.workers.query_groups [])))
