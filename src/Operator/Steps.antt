-- ===== src/Operator/Steps.antt =====
-- What the handlers of crates/incidentbench-operator/src/controller.rs share: the scenario, the
-- patches of the status, and the Kafka topics.
use incident_bench.Base.{
  ℕ, String, ◌<>◌, Bool, true, false, Option, none, some, List, [], ◌∷◌, unwrap_or, is_some, as_i32,
}
use incident_bench.Crd.{IncidentBenchRun, IncidentBenchRunSpec, QueryGroupSpec}
use incident_bench.Crd.Status.{
  Failure, Message, phase, conditions, failed, failure, not_implemented, not_specified,
  ConditionPatch,
}
use incident_bench.Cluster.{
  Prog, ret, ◌>>=◌, ask, attempt, Result, ok, err, KafkaError, topic_already_exists, kafka_error,
  set_status, now, create_admin_client, create_topics, delete_topics,
}
use incident_bench.Scenario.{Scenario}

unfoldable pub unresolved : {F : Type 0} → Bool → Result (Failure F) (Scenario F)
unresolved true = err not_implemented
unresolved false = err not_specified

unfoldable pub resolve : {F : Type 0} → Option (Scenario F) → Bool → Result (Failure F) (Scenario F)
resolve (some scenario) has_ref = ok scenario
resolve none has_ref = unresolved has_ref

-- A condition with a time, and the status "True".
abbrev pub condition : {F : Type 0} → String → Message F → String → ConditionPatch F
condition kind message time = record {
  condition_type = kind;
  message = message;
  last_transition_time_key = time;
}

unfoldable pub topic_results :
    String → List (Result KafkaError (Unit {0})) → Result String (Unit {0})
topic_results topic [] = ok tt
topic_results topic (ok _ ∷ rest) = topic_results topic rest
topic_results topic (err topic_already_exists ∷ rest) = topic_results topic rest
topic_results topic (err (kafka_error e) ∷ rest) =
    err ("Failed to create topic '" <> topic <> "': " <> e)

unfoldable pub topics_created :
    String → Result String (List (Result KafkaError (Unit {0}))) → Result String (Unit {0})
unfolding topic_results
topics_created topic (err e) = err e
topics_created topic (ok results) = topic_results topic results

module _ {F J : Type 0} where
  -- `run.name_any()`: a stored object has a name.
  abbrev pub run_name : IncidentBenchRun F J → String
  run_name run = unwrap_or run.metadata.name ""

  abbrev pub namespace_of : IncidentBenchRun F J → String
  namespace_of run = unwrap_or run.metadata.namespace "default"

  abbrev pub groups_of : IncidentBenchRun F J → List QueryGroupSpec
  groups_of run = unwrap_or run.spec.workers.query_groups []

  abbrev pub bootstrap_of : IncidentBenchRunSpec F J → String
  bootstrap_of spec = unwrap_or spec.kafka.bootstrap_servers "kafka-bootstrap:9092"

  unfoldable pub resolve_scenario : IncidentBenchRun F J → Result (Failure F) (Scenario F)
  unfolding resolve unresolved
  resolve_scenario run = resolve run.spec.scenario (is_some run.spec.scenario_ref)

  unfoldable pub update_phase_failed : Failure F → Prog F J (Unit {0})
  update_phase_failed message = do
    time ← ask now
    set_status (phase failed ∷ conditions (condition "Failed" (failure message) time ∷ []) ∷ [])

  unfoldable pub create_with :
      Result String (Unit {0}) → String → ℕ → Prog F J (Result String (Unit {0}))
  unfolding topics_created
  create_with (err e) topic partitions = ret (err e)
  create_with (ok _) topic partitions = do
    reply ← ask (create_topics topic (as_i32 partitions) 1)
    ret (topics_created topic reply)

  unfoldable pub create_kafka_topic : String → String → ℕ → Prog F J (Result String (Unit {0}))
  unfolding create_with
  create_kafka_topic bootstrap topic partitions = do
    client ← ask (create_admin_client bootstrap)
    create_with client topic partitions

  -- The caller ignores the result.
  unfoldable pub delete_with : Result String (Unit {0}) → String → Prog F J (Unit {0})
  delete_with (err e) topic = ret tt
  delete_with (ok _) topic = attempt (delete_topics topic)

  unfoldable pub delete_kafka_topic : String → String → Prog F J (Unit {0})
  unfolding delete_with
  delete_kafka_topic bootstrap topic = do
    client ← ask (create_admin_client bootstrap)
    delete_with client topic
