-- ===== src/Operator/Lifecycle/Early.antt =====
-- The moves of the handlers from validation to deployment.
use incident_bench.Base.{String, ◌≡◌, refl, Bool, true, false, Option, List, [], ◌∷◌, F64, inl, inr}
use incident_bench.Crd.{IncidentBenchRun}
use incident_bench.Crd.Status.{
  IncidentBenchRunStatus, Failure, pending, preparing, failed, merge_patch, merge_entry,
  LifecyclePhase,
}
use incident_bench.Cluster.{Prog, Result, ok, err, Adapter, PrepareResult}
use incident_bench.Cluster.Objects.{Platform}
use incident_bench.Cluster.Paths.{IsQuiet, Ends-quiet, Ends-call, Ends-patch}
use incident_bench.Scenario.{Scenario, DataStream}
use incident_bench.Scenario.Validate.{ValidationError}
use incident_bench.Operator.{phase_of}
use incident_bench.Operator.Steps
use incident_bench.Operator.Preparation
use incident_bench.Operator.Targets
use incident_bench.Operator.Lifecycle.{
  Step, Moves, validated, dry_run, prepared, pending_failed, preparing_failed,
}
use incident_bench.Operator.Lifecycle.Quiet.{
  create_kafka_topic-IsQuiet, create_adapter-IsQuiet, try-IsQuiet,
}

module _ (F J : Type 0) where
  pub failed-Moves :
      (p : LifecyclePhase) (st : Option (IncidentBenchRunStatus F)) (e : Failure F)
      → phase_of st ≡ p
      → Step p failed
      → Moves p st (Steps.update_phase_failed {J = J} e)
  unfolding Steps.update_phase_failed merge_patch merge_entry phase_of
  failed-Moves p st e h step =
      Ends-call _ _ st _ _ λ time g. Ends-patch _ _ st _ (inr step) λ e' g'. inl h

  complete_dry_run-Moves :
      (st : Option (IncidentBenchRunStatus F)) (scenario : Scenario F)
      → phase_of st ≡ pending
      → Moves pending st (Preparation.complete_dry_run {J = J} scenario)
  unfolding Preparation.complete_dry_run merge_patch merge_entry phase_of
  complete_dry_run-Moves st scenario h =
      Ends-call _ _ st _ _ λ time g. Ends-patch _ _ st _ (inr dry_run) λ e g'. inl h

  pub add_finalizer-IsQuiet : (b : Bool) → IsQuiet (Preparation.add_finalizer {F = F} {J = J} b)
  unfolding Preparation.add_finalizer
  add_finalizer-IsQuiet true = tt
  add_finalizer-IsQuiet false = (λ x st. refl, λ x. try-IsQuiet F J x)

  start_run-Moves :
      (st : Option (IncidentBenchRunStatus F)) (run : IncidentBenchRun F J)
      → phase_of st ≡ pending
      → Moves pending st (Preparation.start_run run)
  unfolding Preparation.start_run merge_patch merge_entry phase_of
  start_run-Moves st run h = Ends-call _ _ st _ _ λ id g.
      Ends-quiet _ _ st (Preparation.add_finalizer _) _ (add_finalizer-IsQuiet _)
        (λ _. Ends-call _ _ st _ _ λ start g'.
          Ends-call _ _ st _ _ λ time g''. Ends-patch _ _ st _ (inr validated) λ e g3. inl h)
        (λ e. inl h)

  start_or_complete-Moves :
      (st : Option (IncidentBenchRunStatus F)) (b : Bool) (run : IncidentBenchRun F J)
      (scenario : Scenario F)
      → phase_of st ≡ pending
      → Moves pending st (Preparation.start_or_complete b run scenario)
  unfolding Preparation.start_or_complete
  start_or_complete-Moves st true run scenario h = complete_dry_run-Moves st scenario h
  start_or_complete-Moves st false run scenario h = start_run-Moves st run h

  module _ ⦃fl : F64 F⦄ where
    validated-Moves :
        (st : Option (IncidentBenchRunStatus F)) (run : IncidentBenchRun F J)
        (scenario : Scenario F) (errors : List (ValidationError F))
        → phase_of st ≡ pending
        → Moves pending st (Preparation.validated run scenario errors)
    unfolding Preparation.validated
    validated-Moves st run scenario [] h = start_or_complete-Moves st _ run scenario h
    validated-Moves st run scenario (e ∷ errors) h = failed-Moves pending st _ h pending_failed

    pending_with-Moves :
        (st : Option (IncidentBenchRunStatus F)) (run : IncidentBenchRun F J)
        (resolved : Result (Failure F) (Scenario F))
        → phase_of st ≡ pending
        → Moves pending st (Preparation.pending_with run resolved)
    unfolding Preparation.pending_with
    pending_with-Moves st run (err e) h = failed-Moves pending st e h pending_failed
    pending_with-Moves st run (ok scenario) h = validated-Moves st run scenario _ h

    pub handle_pending-Moves :
        (st : Option (IncidentBenchRunStatus F)) (run : IncidentBenchRun F J)
        → phase_of st ≡ pending
        → Moves pending st (Preparation.handle_pending run)
    unfolding Preparation.handle_pending
    handle_pending-Moves st run h = pending_with-Moves st run _ h

  after_topic-Moves :
      (st : Option (IncidentBenchRunStatus F)) (created : Result String (Unit {0})) (topic : String)
      (rest : Prog F J (Unit {0}))
      → phase_of st ≡ preparing
      → Moves preparing st rest
      → Moves preparing st (Preparation.after_topic created topic rest)
  unfolding Preparation.after_topic
  after_topic-Moves st (ok _) topic rest h k = k
  after_topic-Moves st (err e) topic rest h k = failed-Moves preparing st _ h preparing_failed

  create_topics_then-Moves :
      (st : Option (IncidentBenchRunStatus F)) (bootstrap : String) (streams : List DataStream)
      (rest : Prog F J (Unit {0}))
      → phase_of st ≡ preparing
      → Moves preparing st rest
      → Moves preparing st (Preparation.create_topics_then bootstrap streams rest)
  unfolding Preparation.create_topics_then
  create_topics_then-Moves st bootstrap [] rest h k = k
  create_topics_then-Moves st bootstrap (stream ∷ streams) rest h k =
      Ends-quiet _ _ st (Steps.create_kafka_topic _ _ _) _ (create_kafka_topic-IsQuiet F J _ _ _)
        (λ created.
          after_topic-Moves st created _ _ h
            (create_topics_then-Moves st bootstrap streams rest h k))
        (λ _. inl h)

  module _ ⦃fl : F64 F⦄ ⦃pf : Platform J⦄ where
    prepared-Moves :
        (st : Option (IncidentBenchRunStatus F)) (run : IncidentBenchRun F J)
        (scenario : Scenario F) (reply : Result String PrepareResult)
        → phase_of st ≡ preparing
        → Moves preparing st (Preparation.prepared run scenario reply)
    unfolding Preparation.prepared merge_patch merge_entry phase_of
    prepared-Moves st run scenario (err e) h = failed-Moves preparing st _ h preparing_failed
    prepared-Moves st run scenario (ok result) h = Ends-call _ _ st _ _ λ applied g.
        Ends-call _ _ st _ _ λ time g'. Ends-patch _ _ st _ (inr prepared) λ e g''. inl h

    prepare_target-Moves :
        (st : Option (IncidentBenchRunStatus F)) (run : IncidentBenchRun F J)
        (scenario : Scenario F) (adapter : Result String Adapter)
        → phase_of st ≡ preparing
        → Moves preparing st (Preparation.prepare_target run scenario adapter)
    unfolding Preparation.prepare_target
    prepare_target-Moves st run scenario (err e) h = failed-Moves preparing st _ h preparing_failed
    prepare_target-Moves st run scenario (ok adapter) h =
        Ends-call _ _ st _ _ λ reply g. prepared-Moves st run scenario reply h

    create_and_prepare-Moves :
        (st : Option (IncidentBenchRunStatus F)) (run : IncidentBenchRun F J)
        (scenario : Scenario F)
        → phase_of st ≡ preparing
        → Moves preparing st (Preparation.create_and_prepare run scenario)
    unfolding Preparation.create_and_prepare
    create_and_prepare-Moves st run scenario h =
        Ends-quiet _ _ st (Targets.create_adapter _ _) _ (create_adapter-IsQuiet F J _ _)
          (λ adapter. prepare_target-Moves st run scenario adapter h) (λ _. inl h)

    preparing_with-Moves :
        (st : Option (IncidentBenchRunStatus F)) (run : IncidentBenchRun F J)
        (resolved : Result (Failure F) (Scenario F))
        → phase_of st ≡ preparing
        → Moves preparing st (Preparation.preparing_with run resolved)
    unfolding Preparation.preparing_with
    preparing_with-Moves st run (err e) h = failed-Moves preparing st e h preparing_failed
    preparing_with-Moves st run (ok scenario) h =
        create_topics_then-Moves st _ _ _ h (create_and_prepare-Moves st run _ h)

    pub handle_preparing-Moves :
        (st : Option (IncidentBenchRunStatus F)) (run : IncidentBenchRun F J)
        → phase_of st ≡ preparing
        → Moves preparing st (Preparation.handle_preparing run)
    unfolding Preparation.handle_preparing
    handle_preparing-Moves st run h = preparing_with-Moves st run _ h
