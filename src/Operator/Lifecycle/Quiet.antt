-- ===== src/Operator/Lifecycle/Quiet.antt =====
-- The parts of the handlers that leave the run's status alone.
use incident_bench.Base.{
  ℕ, String, ◌≡◌, refl, Option, none, some, List, [], ◌∷◌, Bool-cases, str_eq, inl, inr,
}
use incident_bench.Crd.{IncidentBenchRun}
use incident_bench.Cluster.{Prog, Result, ok, err, KubeError, try}
use incident_bench.Scenario.{Scenario}
use incident_bench.Cluster.Objects.{Platform, Object}
use incident_bench.Cluster.Paths.{IsQuiet, for_each-IsQuiet}
use incident_bench.Operator.Steps
use incident_bench.Operator.Targets
use incident_bench.Operator.Health
use incident_bench.Operator.Watching
use incident_bench.Operator.Deploying

-- A run with an inline scenario resolves to it.
pub resolve_scenario-inline :
    {F J : Type 0} (run : IncidentBenchRun F J) (scenario : Scenario F)
    → run.spec.scenario ≡ some scenario
    → Steps.resolve_scenario run ≡ ok scenario
unfolding Steps.resolve_scenario Steps.resolve
resolve_scenario-inline run scenario e = rw e

module _ (F J : Type 0) where
  pub try-IsQuiet : {A : Type 0} (x : Result KubeError A) → IsQuiet (try {F = F} {J = J} x)
  try-IsQuiet (ok a) = tt
  try-IsQuiet (err e) = tt

  create_with-IsQuiet :
      (client : Result String (Unit {0})) (topic : String) (n : ℕ)
      → IsQuiet (Steps.create_with {F = F} {J = J} client topic n)
  unfolding Steps.create_with
  create_with-IsQuiet (ok _) topic n = (λ x st. refl, λ x. tt)
  create_with-IsQuiet (err e) topic n = tt

  pub create_kafka_topic-IsQuiet :
      (bootstrap topic : String) (n : ℕ)
      → IsQuiet (Steps.create_kafka_topic {F = F} {J = J} bootstrap topic n)
  unfolding Steps.create_kafka_topic
  create_kafka_topic-IsQuiet bootstrap topic n = (λ x st. refl, λ x. create_with-IsQuiet x topic n)

  delete_with-IsQuiet :
      (client : Result String (Unit {0})) (topic : String)
      → IsQuiet (Steps.delete_with {F = F} {J = J} client topic)
  unfolding Steps.delete_with
  delete_with-IsQuiet (ok _) topic = (λ x st. refl, λ x. tt)
  delete_with-IsQuiet (err e) topic = tt

  pub delete_kafka_topic-IsQuiet :
      (bootstrap topic : String)
      → IsQuiet (Steps.delete_kafka_topic {F = F} {J = J} bootstrap topic)
  unfolding Steps.delete_kafka_topic
  delete_kafka_topic-IsQuiet bootstrap topic = (λ x st. refl, λ x. delete_with-IsQuiet x topic)

  new_adapter-IsQuiet :
      ⦃pf : Platform J⦄ (config : List (String × J)) (endpoint namespace : Option String)
      → IsQuiet (Targets.new_adapter {F = F} config endpoint namespace)
  unfolding Targets.new_adapter
  new_adapter-IsQuiet config none n = tt
  new_adapter-IsQuiet config (some e) none = tt
  new_adapter-IsQuiet config (some e) (some n) = (λ x st. refl, λ x. tt)

  pub create_adapter-IsQuiet :
      ⦃pf : Platform J⦄ (name : String) (config : List (String × J))
      → IsQuiet (Targets.create_adapter {F = F} name config)
  unfolding Targets.create_adapter
  create_adapter-IsQuiet name config = elim (Bool-cases (str_eq name "mach5")) [
    | inl e ↦ rw e (new_adapter-IsQuiet config _ _)
    | inr e ↦ rw e tt
  ]

  unless_failed-IsQuiet :
      (health : Result _ (Unit {0})) (rest : Prog F J (Result _ (Unit {0})))
      → IsQuiet rest
      → IsQuiet (Health.unless_failed health rest)
  unfolding Health.unless_failed
  unless_failed-IsQuiet (ok _) rest h = h
  unless_failed-IsQuiet (err e) rest h = tt

  pub check_all-IsQuiet :
      (namespace : String) (names : List String)
      → IsQuiet (Health.check_all {F = F} {J = J} namespace names)
  unfolding Health.check_all Health.check_deployment_health
  check_all-IsQuiet namespace [] = tt
  check_all-IsQuiet namespace (name ∷ names) =
      (λ x st. refl, λ x. unless_failed-IsQuiet _ _ (check_all-IsQuiet namespace names))

  pub scale_down-IsQuiet :
      (namespace : String) (names : List String)
      → IsQuiet (Watching.scale_down {F = F} {J = J} namespace names)
  unfolding Watching.scale_down
  scale_down-IsQuiet namespace names = for_each-IsQuiet names _ λ name. (λ x st. refl, λ x. tt)

  pub apply_all-IsQuiet :
      (namespace : String) (objects : List (Object F J))
      → IsQuiet (Deploying.apply_all namespace objects)
  unfolding Deploying.apply_all
  apply_all-IsQuiet namespace objects = for_each-IsQuiet objects _ λ o. (λ x st. refl, λ x. tt)

  polled-IsQuiet :
      {A B : Type 0} (channel : Result String A) (rest : Prog F J (Result String B))
      → IsQuiet rest
      → IsQuiet (Watching.and_then channel rest)
  unfolding Watching.and_then
  polled-IsQuiet (ok _) rest h = h
  polled-IsQuiet (err e) rest h = tt

  pub poll_phase_controller-IsQuiet :
      (addr : String) → IsQuiet (Watching.poll_phase_controller {F = F} {J = J} addr)
  unfolding Watching.poll_phase_controller
  poll_phase_controller-IsQuiet addr =
      (λ x st. refl, λ x. polled-IsQuiet x _ (λ y st. refl, λ y. tt))

  pub poll_aggregator_snapshot-IsQuiet :
      (addr : String) → IsQuiet (Watching.poll_aggregator_snapshot {F = F} {J = J} addr)
  unfolding Watching.poll_aggregator_snapshot
  poll_aggregator_snapshot-IsQuiet addr =
      (λ x st. refl, λ x. polled-IsQuiet x _ (λ y st. refl, λ y. tt))
