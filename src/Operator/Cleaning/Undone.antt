-- ===== src/Operator/Cleaning/Undone.antt =====
-- The two handlers that create objects, request by request.
use mathlib.Core.Path.{subst}
use mathlib.Core.List.{Memᴰ}
use incident_bench.Base.{
  All-append, ℕ, String, ◌≡◌, refl, sym, inl, inr, Bool, true, false, Option, none, some, List, [],
  ◌∷◌, All, F64, Bool-cases, str_eq, is_empty,
}
use incident_bench.Crd.{IncidentBenchRun}
use incident_bench.Crd.Status.{Failure}
use incident_bench.Cluster.{Prog, Request, Result, ok, err, apply, try, PrepareResult, Adapter}
use incident_bench.Cluster.Objects.{Platform, Object}
use incident_bench.Cluster.Requests.{Every, Every-ret, Every-call, Every-try, Every-bind}
use incident_bench.Scenario.{Scenario, DataStream}
use incident_bench.Operator.Steps
use incident_bench.Operator.Health
use incident_bench.Operator.Deploying
use incident_bench.Operator.Preparation
use incident_bench.Operator.Targets
use incident_bench.Operator.Lifecycle.Quiet.{resolve_scenario-inline}
use incident_bench.Operator.Cleaning.Covers.{
  IsUndone, Deleted-Asks, config_map-Deleted, base_objects-Undone, ingest_objects-Undone,
  query_objects-Undone,
}
use incident_bench.Resources.ConfigMaps

module _ {F J : Type 0} ⦃fl : F64 F⦄ ⦃pf : Platform J⦄ (run : IncidentBenchRun F J) where
  -- What the cleanup undoes of a request.
  abbrev pub Undone : Request F J → Type 0
  Undone (apply namespace o) = IsUndone run namespace o
  Undone _ = Unit {0}

  failed-Undone : (e : Failure F) → Every Undone (Steps.update_phase_failed {J = J} e)
  unfolding Steps.update_phase_failed
  failed-Undone e =
      Every-call Undone _ _ tt λ time. Every-call Undone _ _ tt λ x. Every-try Undone x

  create_with-Undone :
      (client : Result String (Unit {0})) (topic : String) (n : ℕ)
      → Every Undone (Steps.create_with client topic n)
  unfolding Steps.create_with
  create_with-Undone (err e) topic n = Every-ret Undone _
  create_with-Undone (ok _) topic n = Every-call Undone _ _ tt λ x. Every-ret Undone _

  after_topic-Undone :
      (created : Result String (Unit {0})) (topic : String) (rest : Prog F J (Unit {0}))
      → Every Undone rest
      → Every Undone (Preparation.after_topic created topic rest)
  unfolding Preparation.after_topic
  after_topic-Undone (ok _) topic rest h = h
  after_topic-Undone (err e) topic rest h = failed-Undone _

  create_topics_then-Undone :
      (bootstrap : String) (streams : List DataStream) (rest : Prog F J (Unit {0}))
      → Every Undone rest
      → Every Undone (Preparation.create_topics_then bootstrap streams rest)
  unfolding Preparation.create_topics_then Steps.create_kafka_topic
  create_topics_then-Undone bootstrap [] rest h = h
  create_topics_then-Undone bootstrap (stream ∷ streams) rest h = Every-call Undone _ _ tt λ client.
      Every-bind Undone (Steps.create_with client _ _) _ (create_with-Undone client _ _) λ created.
        after_topic-Undone created _ _ (create_topics_then-Undone bootstrap streams rest h)

  new_adapter-Undone :
      (config : List (String × J)) (endpoint namespace : Option String)
      → Every Undone (Targets.new_adapter config endpoint namespace)
  unfolding Targets.new_adapter
  new_adapter-Undone config none n = Every-ret Undone _
  new_adapter-Undone config (some e) none = Every-ret Undone _
  new_adapter-Undone config (some e) (some n) = Every-call Undone _ _ tt λ x. Every-ret Undone _

  create_adapter-Undone :
      (name : String) (config : List (String × J))
      → Every Undone (Targets.create_adapter name config)
  unfolding Targets.create_adapter
  create_adapter-Undone name config = elim (Bool-cases (str_eq name "mach5")) [
    | inl e ↦ rw e (new_adapter-Undone config _ _)
    | inr e ↦ rw e (Every-ret Undone _)
  ]

  prepared-Undone :
      (scenario : Scenario F) (reply : Result String PrepareResult)
      → Every Undone (Preparation.prepared run scenario reply)
  unfolding Preparation.prepared ConfigMaps.build_prepare_result_configmap
  prepared-Undone scenario (err e) = failed-Undone _
  prepared-Undone scenario (ok result) =
      Every-call Undone _ _
        (inr (
          Deleted-Asks run _ _ (
            config_map-Deleted run _
              (Memᴰ.tail (Memᴰ.tail (Memᴰ.tail (Memᴰ.tail (Memᴰ.head refl))))))))
        λ _. Every-call Undone _ _ tt λ time. Every-call Undone _ _ tt λ x. Every-try Undone x

  prepare_target-Undone :
      (scenario : Scenario F) (adapter : Result String Adapter)
      → Every Undone (Preparation.prepare_target run scenario adapter)
  unfolding Preparation.prepare_target
  prepare_target-Undone scenario (err e) = failed-Undone _
  prepare_target-Undone scenario (ok adapter) =
      Every-call Undone _ _ tt λ reply. prepared-Undone scenario reply

  create_and_prepare-Undone :
      (scenario : Scenario F) → Every Undone (Preparation.create_and_prepare run scenario)
  unfolding Preparation.create_and_prepare
  create_and_prepare-Undone scenario =
      Every-bind Undone (Targets.create_adapter _ _) _ (create_adapter-Undone _ _)
        λ adapter. prepare_target-Undone scenario adapter

  apply_all-Undone :
      (objects : List (Object F J))
      → All (IsUndone run (Steps.namespace_of run)) objects
      → Every Undone (Deploying.apply_all (Steps.namespace_of run) objects)
  unfolding Deploying.apply_all
  apply_all-Undone [] h = Every-ret Undone _
  apply_all-Undone (o ∷ objects) (h, hs) = Every-call Undone _ _ h λ _. apply_all-Undone objects hs

  apply_sql-Undone :
      (files : List (String × String)) (b : Bool)
      → is_empty files ≡ b
      → Every Undone (
          Deploying.apply_sql
            (Steps.namespace_of run)
            (ConfigMaps.build_sql_files_configmap (Steps.run_name run) files run))
  unfolding Deploying.apply_sql ConfigMaps.build_sql_files_configmap
  apply_sql-Undone files true e = rw e (Every-ret Undone _)
  apply_sql-Undone files false e = rw e (
      Every-call Undone _ _
        (inr (
          Deleted-Asks run _ _ (
            config_map-Deleted run _
              (Memᴰ.tail (Memᴰ.tail (Memᴰ.tail (Memᴰ.tail (Memᴰ.tail (Memᴰ.head refl)))))))))
        λ _. Every-ret Undone _)

  sql_config_map-Undone : (dir : Option String) → Every Undone (Deploying.sql_config_map run dir)
  unfolding Deploying.sql_config_map
  sql_config_map-Undone none = Every-ret Undone _
  sql_config_map-Undone (some dir) = Every-call Undone _ _ tt λ files. apply_sql-Undone files _ refl

  deploy-Undone :
      (scenario : Scenario F)
      → run.spec.scenario ≡ some scenario
      → Every Undone (Deploying.deploy run (Health.scaled run scenario))
  unfolding Deploying.deploy Deploying.set_running Deploying.worker_objects
  deploy-Undone scenario e = Every-call Undone _ _ tt λ reply.
      Every-bind Undone (try reply) _ (Every-try Undone reply) λ files.
        Every-bind Undone (Deploying.apply_all _ _) _
          (apply_all-Undone _ (base_objects-Undone run scenario e _))
          λ _. Every-bind Undone (Deploying.sql_config_map run _) _ (sql_config_map-Undone _) λ sql.
            Every-bind Undone (Deploying.apply_all _ _) _
              (apply_all-Undone _ (
                All-append _ _ _ (ingest_objects-Undone run scenario e _)
                  (query_objects-Undone run scenario e _ sql refl)))
              λ _. Every-call Undone _ _ tt λ time. Every-call Undone _ _ tt λ x. Every-try Undone x

  -- For a run with an inline scenario, each object that the preparation and the deployment apply,
  -- on any path, is the results' claim or is deleted under its name on every path of the cleanup.
  pub handlers-Undone :
      (scenario : Scenario F)
      → run.spec.scenario ≡ some scenario
      → Every Undone (Preparation.handle_preparing run)
        × Every Undone (Deploying.handle_initializing run)
  unfolding Preparation.handle_preparing Preparation.preparing_with Deploying.handle_initializing
      Deploying.initializing_with
  handlers-Undone scenario e = (
    subst (λ r. Every Undone (Preparation.preparing_with run r))
        (sym (resolve_scenario-inline run scenario e))
        (create_topics_then-Undone _ _ _ (create_and_prepare-Undone _)),
    subst (λ r. Every Undone (Deploying.initializing_with run r))
        (sym (resolve_scenario-inline run scenario e)) (deploy-Undone scenario e),
  )
