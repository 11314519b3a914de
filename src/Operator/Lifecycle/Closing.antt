-- ===== src/Operator/Lifecycle/Closing.antt =====
-- The moves of the handlers that report and clean up.
use incident_bench.Base.{String, ◌≡◌, refl, Bool, true, false, Option, none, some, inl, inr, ◌∙◌}
use incident_bench.Crd.{IncidentBenchRun}
use incident_bench.Crd.Status.{
  IncidentBenchRunStatus, reporting, merge_patch, merge_entry, LifecyclePhase,
}
use incident_bench.Cluster.{
  Result, ok, err, KubeError, api, other, JobStatus, Adapter, attempt, delete, try,
}
use incident_bench.Cluster.Objects.{Platform, Kind}
use incident_bench.Cluster.Paths.{
  IsQuiet, bind-IsQuiet, for_each-IsQuiet, Ends-quiet, Ends-ret, Ends-call, Ends-patch, if-Ends,
}
use incident_bench.Scenario.{Scenario}
use incident_bench.Operator.{phase_of}
use incident_bench.Operator.Steps
use incident_bench.Operator.Targets
use incident_bench.Operator.Reporting
use incident_bench.Operator.Cleaning
use incident_bench.Operator.Lifecycle.{Moves, reported}
use incident_bench.Operator.Lifecycle.Quiet.{
  create_adapter-IsQuiet, delete_kafka_topic-IsQuiet, try-IsQuiet,
}
use incident_bench.Operator.Lifecycle.Late.{phase_kept}

module _ (F J : Type 0) where
  create_missing-IsQuiet :
      (namespace : String) (run : IncidentBenchRun F J) (b : Bool) (e : KubeError)
      → IsQuiet (Reporting.create_missing namespace run b e)
  unfolding Reporting.create_missing
  create_missing-IsQuiet namespace run true e = (λ x st. refl, λ x. try-IsQuiet F J x)
  create_missing-IsQuiet namespace run false e = tt

  pub ensure_job-IsQuiet :
      (namespace : String) (run : IncidentBenchRun F J)
      (found : Result KubeError (Option JobStatus))
      → IsQuiet (Reporting.ensure_job namespace run found)
  unfolding Reporting.ensure_job
  ensure_job-IsQuiet namespace run (ok _) = tt
  ensure_job-IsQuiet namespace run (err (other e)) = tt
  ensure_job-IsQuiet namespace run (err (api code)) = create_missing-IsQuiet namespace run _ _

  set_completed-Moves :
      (st : Option (IncidentBenchRunStatus F)) (message : String)
      → phase_of st ≡ reporting
      → Moves reporting st (Reporting.set_completed {J = J} message)
  unfolding Reporting.set_completed merge_patch merge_entry phase_of
  set_completed-Moves st message h =
      Ends-call _ _ st _ _ λ time g. Ends-patch _ _ st _ (inr reported) λ e g'. inl h

  job_done-Moves :
      (st : Option (IncidentBenchRunStatus F)) (job : Option JobStatus)
      → phase_of st ≡ reporting
      → Moves reporting st (Reporting.job_done {J = J} job)
  unfolding Reporting.job_done
  job_done-Moves st job h =
      if-Ends _ _ st (Reporting.job_succeeded job) _ _ (set_completed-Moves st _ h) (
        if-Ends _ _ st (Reporting.job_failed job) _ _ (set_completed-Moves st _ h)
          (Ends-ret _ _ st _ (inl h)))

  check_job-Moves :
      (st : Option (IncidentBenchRunStatus F)) (namespace : String) (run : IncidentBenchRun F J)
      → phase_of st ≡ reporting
      → Moves reporting st (Reporting.check_job namespace run)
  unfolding Reporting.check_job
  check_job-Moves st namespace run h = Ends-call _ _ st _ _ λ reply g'.
      Ends-quiet _ _ st (try reply) _ (try-IsQuiet F J reply) (λ job. job_done-Moves st job h)
        (λ e. inl h)

  pub handle_reporting-Moves :
      (st : Option (IncidentBenchRunStatus F)) (run : IncidentBenchRun F J)
      → phase_of st ≡ reporting
      → Moves reporting st (Reporting.handle_reporting run)
  unfolding Reporting.handle_reporting
  handle_reporting-Moves st run h = Ends-call _ _ st _ _ λ found g.
      Ends-quiet _ _ st (Reporting.ensure_job (Reporting.job_namespace run) run found) _
        (ensure_job-IsQuiet _ run found) (λ _. check_job-Moves st _ run h) (λ e. inl h)

  pub delete_topics_of-IsQuiet :
      (run : IncidentBenchRun F J) (scenario : Option (Scenario F))
      → IsQuiet (Cleaning.delete_topics_of run scenario)
  unfolding Cleaning.delete_topics_of
  delete_topics_of-IsQuiet run none = tt
  delete_topics_of-IsQuiet run (some scenario) =
      for_each-IsQuiet _ _ λ d. delete_kafka_topic-IsQuiet F J _ _

  pub delete_all-IsQuiet : (run : IncidentBenchRun F J) → IsQuiet (Cleaning.delete_all run)
  unfolding Cleaning.delete_all
  delete_all-IsQuiet run =
      for_each-IsQuiet (Cleaning.deletions run)
        (λ (d : Kind × String). attempt (delete d.0 (Steps.namespace_of run) d.1))
        λ d. (λ x st. refl, λ x. tt)

  mark_cleaned-Moves :
      (p : LifecyclePhase) (st : Option (IncidentBenchRunStatus F))
      → phase_of st ≡ p
      → Moves p st (Cleaning.mark_cleaned {J = J})
  unfolding Cleaning.mark_cleaned merge_patch merge_entry phase_of
  mark_cleaned-Moves p st h = Ends-call _ _ st _ _ λ reply g.
      Ends-quiet _ _ st (try reply) _ (try-IsQuiet F J reply)
        (λ _.
          Ends-call _ _ st _ _
            λ time g'. Ends-patch _ _ st _ (inl (phase_kept st ∙ h)) λ e g''. inl h)
        (λ e. inl h)

  module _ ⦃pf : Platform J⦄ where
    clean_with-IsQuiet :
        (run : IncidentBenchRun F J) (scenario : Scenario F) (adapter : Result String Adapter)
        → IsQuiet (Cleaning.clean_with run scenario adapter)
    unfolding Cleaning.clean_with
    clean_with-IsQuiet run scenario (err e) = tt
    clean_with-IsQuiet run scenario (ok adapter) = (λ x st. refl, λ x. tt)

    pub clean_target-IsQuiet :
        (run : IncidentBenchRun F J) (scenario : Option (Scenario F))
        → IsQuiet (Cleaning.clean_target run scenario)
    unfolding Cleaning.clean_target
    clean_target-IsQuiet run none = tt
    clean_target-IsQuiet run (some scenario) =
        bind-IsQuiet (Targets.create_adapter _ _) _ (create_adapter-IsQuiet F J _ _)
          λ adapter. clean_with-IsQuiet run scenario adapter

    pub handle_cleanup-Moves :
        (p : LifecyclePhase) (st : Option (IncidentBenchRunStatus F)) (run : IncidentBenchRun F J)
        → phase_of st ≡ p
        → Moves p st (Cleaning.handle_cleanup run)
    unfolding Cleaning.handle_cleanup
    handle_cleanup-Moves p st run h =
        Ends-quiet _ _ st (Cleaning.delete_all run) _ (delete_all-IsQuiet run)
          (λ _.
            Ends-quiet _ _ st (Cleaning.clean_target run run.spec.scenario) _
              (clean_target-IsQuiet run _)
              (λ _.
                Ends-quiet _ _ st (Cleaning.delete_topics_of run run.spec.scenario) _
                  (delete_topics_of-IsQuiet run _) (λ _. mark_cleaned-Moves p st h) (λ e. inl h))
              (λ e. inl h))
          (λ e. inl h)
