-- ===== src/Operator/Deploying/Counts.antt =====
-- The workers that the phase controller waits for, and the rates that it hands out.
use native.Mathlib.Nat.{div-add-mod, mod-lt}
use incident_bench.Base.{
  zero, suc, ℕ, ◌+◌, ◌*◌, ◌/◌, ◌≤◌, ◌<◌, max, ◌≡◌, refl, sym, ◌∙◌, ap, String, Option, none, some,
  List, [], ◌∷◌, map, All, F64, arith, sum_u32, sum_u32-eq-sum, u32_mod, All-append, All-map,
}
use incident_bench.Crd.{IncidentBenchRun, QueryGroupSpec}
use incident_bench.Cluster.Objects.{
  Platform, Object, ConfigMap, Document, Deployment, deployment, phase_controller_yaml,
}
use incident_bench.Scenario.{
  Scenario, DataStream, PhaseDef, streams_of, has_ingest, total_ingest_replicas,
}
use incident_bench.Scenario.Rates.{total_mqps}
use incident_bench.Resources.ConfigMaps
use incident_bench.Resources.Deployments
use incident_bench.Operator.Steps
use incident_bench.Operator.Deploying

quotient-bounds : (n d : ℕ) → 1 ≤ d → (d * (n / d) ≤ n) × (n < d * (n / d) + d)
quotient-bounds n zero h = omega arith
quotient-bounds n (suc d) h =
    let split = div-add-mod n (suc d) in
    let small = mod-lt n {m = suc d} (omega arith) in (omega arith, omega arith)

module _ {F J : Type 0} where
  abbrev pub replicas_in : Object F J → ℕ
  replicas_in (deployment d) = d.replicas
  replicas_in _ = 0

  -- The replicas of the deployments among some objects.
  abbrev pub replicas : List (Object F J) → ℕ
  replicas objects = sum_u32 (map replicas_in objects)

module _ (F J : Type 0) where
  map-map-replicas :
      {A : Type 0} (f : A → Deployment) (g : A → ℕ)
      → ((a : A) → (f a).replicas ≡ g a)
      → (xs : List A) → map (replicas_in {F = F} {J = J}) (map deployment (map f xs)) ≡ map g xs
  map-map-replicas f g h [] = refl
  map-map-replicas f g h (x ∷ xs) = λ i. h x i ∷ map-map-replicas f g h xs i

module _ {F J : Type 0} where
  ingest_objects-replicas :
      (run : IncidentBenchRun F J) (scenario : Scenario F) (streams : Option (List DataStream))
      → scenario.data_streams ≡ streams
      → replicas (Deploying.ingest_objects (has_ingest scenario) run scenario)
        ≡ total_ingest_replicas scenario
  unfolding Deploying.ingest_objects Deployments.build_ingest_stream_deployments
      Deployments.ingest_deployment has_ingest total_ingest_replicas
  ingest_objects-replicas run scenario none e = rw e refl
  ingest_objects-replicas run scenario (some []) e = rw e refl
  ingest_objects-replicas run scenario (some (d ∷ ds)) e = simp e (
      ap sum_u32 (
        map-map-replicas F J (Deployments.ingest_deployment (Steps.run_name run) run.spec run)
          (λ (d : DataStream). d.ingest_replicas) (λ d. refl) (d ∷ ds)))

  query_objects-replicas :
      (run : IncidentBenchRun F J) (sql : Option String) (groups : Option (List QueryGroupSpec))
      → run.spec.workers.query.replicas < u32_mod
      → replicas (Deploying.query_objects groups run sql) ≡ ConfigMaps.replicas_of run.spec groups
  unfolding Deploying.query_objects Deployments.build_query_worker_group_deployments
      Deployments.build_query_worker_deployment Deployments.group_deployment ConfigMaps.replicas_of
  query_objects-replicas run sql none h = sum_u32-eq-sum _ ∙ omega arith
  query_objects-replicas run sql (some groups) h = ap sum_u32 (
      map-map-replicas F J (Deployments.group_deployment (Steps.run_name run) run.spec run sql)
        (λ (g : QueryGroupSpec). g.replicas) (λ g. refl) groups)

  -- A phase controller's configuration waits for as many workers as are deployed.
  abbrev pub Expects : ℕ → ℕ → String × Document F J → Type 0
  Expects ingest query (_, phase_controller_yaml y) =
      (y.expected_ingest_workers ≡ ingest) × (y.expected_query_workers ≡ query)
  Expects ingest query _ = Unit {0}

  -- Every configuration in a config map waits for the replicas of the run's worker deployments.
  abbrev pub WaitsFor : IncidentBenchRun F J → Scenario F → Option String → ConfigMap F J → Type 0
  WaitsFor run scenario sql c =
      All
        (Expects (replicas (Deploying.ingest_objects (has_ingest scenario) run scenario))
          (replicas (Deploying.query_objects run.spec.workers.query_groups run sql)))
        c.files

module _ {F J : Type 0} ⦃fl : F64 F⦄ ⦃pf : Platform J⦄ where
  -- The phase controller that is deployed waits for exactly the workers that are deployed, provided
  -- that the replicas of the single query deployment are a `u32`: in each config map of the workers,
  -- the expected ingest workers are the replicas of the ingest deployments, and the expected query
  -- workers are the replicas of the query deployments.
  pub worker_configmaps-Expects :
      (run : IncidentBenchRun F J) (scenario : Scenario F) (sql : Option String)
      (consumer_groups endpoints : List (String × String)) (bootstrap : String)
      → run.spec.workers.query.replicas < u32_mod
      → All (WaitsFor run scenario sql) (
          ConfigMaps.build_worker_configmaps
            (Steps.run_name run)
            scenario
            run.spec
            run
            consumer_groups
            endpoints
            bootstrap)
  unfolding ConfigMaps.build_worker_configmaps
  worker_configmaps-Expects run scenario sql consumer_groups endpoints bootstrap h = (
    (tt, tt),
    (
      (
        (
          sym (ingest_objects-replicas run scenario _ refl),
          sym (query_objects-replicas run sql _ h),
        ),
        tt,
      ),
      (
        (tt, tt),
        All-append _ _ _
            (All-map (WaitsFor run scenario sql)
              (ConfigMaps.ingest_config_map (Steps.run_name run) scenario run bootstrap)
              (streams_of scenario) λ d m. unfold ConfigMaps.ingest_config_map in (tt, tt))
            (
              (tt, tt),
              All-map (WaitsFor run scenario sql)
                  (ConfigMaps.group_config_map (Steps.run_name run) scenario run.spec run endpoints)
                  (Steps.groups_of run) λ g m. unfold ConfigMaps.group_config_map in (tt, tt),
            ),
      ),
    ),
  )

-- The rate that each of `workers` query workers is given in a phase, summed over them, is at most the
-- phase's rate, and falls short of it by less than one unit for each worker.
pub phase_spec-bounds :
    {F : Type 0} ⦃fl : F64 F⦄ (workers : ℕ) (p : PhaseDef F)
    → (max workers 1 * (ConfigMaps.phase_spec workers p).per_worker_query_mqps ≤ total_mqps p)
      × (total_mqps p
          < max workers 1 * (ConfigMaps.phase_spec workers p).per_worker_query_mqps + max workers 1)
unfolding ConfigMaps.phase_spec
phase_spec-bounds workers p = quotient-bounds (total_mqps p) (max workers 1) (omega arith)
