-- ===== src/Operator/Health.antt =====
-- `check_worker_health` and `check_deployment_health` of
-- crates/incidentbench-operator/src/controller.rs.
use incident_bench.Base.{
  ℤ, pos, leb_ℤ, String, Bool, true, false, not, ◌&&◌, Option, none, some, List, [], ◌∷◌, map, ◌++◌,
  unwrap_or, any, str_eq, F64,
}
use incident_bench.Crd.{IncidentBenchRun, QueryGroupSpec}
use incident_bench.Crd.Status.{Failure, deployment_stalled}
use incident_bench.Cluster.{
  Prog, ret, ◌>>=◌, ask, Result, ok, err, KubeError, DeploymentStatus, get_deployment,
}
use incident_bench.Scenario.{Scenario, DataStream, streams_of}
use incident_bench.Scenario.Scaling.{with_scaling}
use incident_bench.Resources.{object_name, ingest_name, query_name}
use incident_bench.Operator.Steps.{run_name, namespace_of, groups_of, resolve_scenario}

abbrev is_zero : ℤ → Bool
is_zero n = leb_ℤ n (pos 0) && leb_ℤ (pos 0) n

abbrev pub is_positive : ℤ → Bool
is_positive n = not (leb_ℤ n (pos 0))

unfoldable pub is_stalled : DeploymentStatus → Bool
is_stalled s =
    not (is_zero (unwrap_or s.replicas (pos 0)))
    && is_zero (unwrap_or s.available_replicas (pos 0))
    && is_positive (unwrap_or s.unavailable_replicas (pos 0))
    && any (λ (c : String × String). str_eq c.0 "Progressing" && str_eq c.1 "False")
        (unwrap_or s.conditions [])

module _ {F : Type 0} where
  unfoldable pub verdict : String → DeploymentStatus → Bool → Result (Failure F) (Unit {0})
  verdict name s true = err (deployment_stalled name (unwrap_or s.unavailable_replicas (pos 0)))
  verdict name s false = ok tt

  -- What a reply says of the deployment: an error is no failure.
  unfoldable pub health_of :
      String → Result KubeError (Option DeploymentStatus) → Result (Failure F) (Unit {0})
  unfolding verdict
  health_of name (err _) = ok tt
  health_of name (ok none) = ok tt
  health_of name (ok (some s)) = verdict name s (is_stalled s)

module _ {F J : Type 0} where
  abbrev pub query_deployments : IncidentBenchRun F J → List String
  query_deployments run =
      map (λ (g : QueryGroupSpec). query_name (run_name run) g.name) (groups_of run)

  unfoldable pub check_deployment_health :
      String → String → Prog F J (Result (Failure F) (Unit {0}))
  check_deployment_health namespace name = do
    reply ← ask (get_deployment namespace name)
    ret (health_of name reply)

  unfoldable pub unless_failed :
      Result (Failure F) (Unit {0})
      → Prog F J (Result (Failure F) (Unit {0}))
      → Prog F J (Result (Failure F) (Unit {0}))
  unless_failed (ok _) rest = rest
  unless_failed (err e) rest = ret (err e)

  -- The deployments in turn, up to the first that fails.
  unfoldable pub check_all : String → List String → Prog F J (Result (Failure F) (Unit {0}))
  unfolding unless_failed
  check_all namespace [] = ret (ok tt)
  check_all namespace (name ∷ names) = do
    health ← check_deployment_health namespace name
    unless_failed health (check_all namespace names)

abbrev pub stream_names : {F : Type 0} → Scenario F → List String
stream_names s = map (λ (d : DataStream). d.name) (streams_of s)

module _ {F J : Type 0} ⦃fl : F64 F⦄ where
  abbrev pub scaled : IncidentBenchRun F J → Scenario F → Scenario F
  scaled run scenario =
      with_scaling run.spec.scaling.duration_scale run.spec.scaling.rate_scale scenario

  abbrev pub scaled_streams : IncidentBenchRun F J → Result (Failure F) (Scenario F) → List String
  scaled_streams run (err _) = []
  scaled_streams run (ok scenario) = stream_names (scaled run scenario)

  -- The deployments of the workers, in the order in which they are checked.
  abbrev pub ingest_deployments : IncidentBenchRun F J → List String
  ingest_deployments run =
      map (ingest_name (run_name run)) (scaled_streams run (resolve_scenario run))

  unfoldable pub check_worker_health :
      IncidentBenchRun F J → Prog F J (Result (Failure F) (Unit {0}))
  check_worker_health run = check_all (namespace_of run) (
      object_name (run_name run) "phase-controller"
      ∷ object_name (run_name run) "aggregator"
      ∷ object_name (run_name run) "query"
      ∷ (query_deployments run ++ ingest_deployments run))
