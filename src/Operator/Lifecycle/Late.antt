-- ===== src/Operator/Lifecycle/Late.antt =====
-- The moves of the handlers from deployment to aggregation.
use incident_bench.Base.{String, ◌≡◌, refl, Option, none, some, F64, inl, inr, unwrap_or, ◌∙◌}
use incident_bench.Crd.{IncidentBenchRun}
use incident_bench.Crd.Status.{
  IncidentBenchRunStatus, Failure, initializing, running, aggregating, merge_patch, merge_entry,
  default_status,
}
use incident_bench.Cluster.{Result, ok, err, try}
use incident_bench.Cluster.Objects.{Platform, ConfigMap}
use incident_bench.Cluster.Paths.{IsQuiet, Ends-quiet, Ends-ret, Ends-call, Ends-patch, if-Ends}
use incident_bench.Scenario.{Scenario}
use incident_bench.PhaseController.{StatusResponse}
use incident_bench.Aggregator.Service.{AggregationStatus}
use incident_bench.Operator.{phase_of}
use incident_bench.Operator.Health
use incident_bench.Operator.Deploying
use incident_bench.Operator.Watching
use incident_bench.Operator.Aggregation
use incident_bench.Operator.Lifecycle.{
  Moves, deployed, timeline_complete, collected, initializing_failed, running_failed,
}
use incident_bench.Operator.Lifecycle.Early.{failed-Moves}
use incident_bench.Operator.Lifecycle.Quiet.{
  apply_all-IsQuiet, try-IsQuiet, check_all-IsQuiet, scale_down-IsQuiet,
  poll_phase_controller-IsQuiet, poll_aggregator_snapshot-IsQuiet,
}

-- The phase that a patch without one keeps.
pub phase_kept :
    {F : Type 0} (st : Option (IncidentBenchRunStatus F))
    → (unwrap_or st default_status).phase ≡ phase_of st
unfolding phase_of
phase_kept none = refl
phase_kept (some s) = refl

module _ (F J : Type 0) where
  apply_sql-IsQuiet :
      (namespace : String) (cm : Option (ConfigMap F J))
      → IsQuiet (Deploying.apply_sql namespace cm)
  unfolding Deploying.apply_sql
  apply_sql-IsQuiet namespace none = tt
  apply_sql-IsQuiet namespace (some cm) = (λ x st. refl, λ x. tt)

  pub sql_config_map-IsQuiet :
      (run : IncidentBenchRun F J) (dir : Option String)
      → IsQuiet (Deploying.sql_config_map run dir)
  unfolding Deploying.sql_config_map
  sql_config_map-IsQuiet run none = tt
  sql_config_map-IsQuiet run (some dir) = (λ x st. refl, λ x. apply_sql-IsQuiet _ _)

  module _ ⦃fl : F64 F⦄ ⦃pf : Platform J⦄ where
    deploy-Moves :
        (st : Option (IncidentBenchRunStatus F)) (run : IncidentBenchRun F J)
        (scenario : Scenario F)
        → phase_of st ≡ initializing
        → Moves initializing st (Deploying.deploy run scenario)
    unfolding Deploying.deploy Deploying.set_running merge_patch merge_entry phase_of
    deploy-Moves st run scenario h = Ends-call _ _ st _ _ λ reply g.
        Ends-quiet _ _ st (try reply) _ (try-IsQuiet F J reply)
          (λ files.
            Ends-quiet _ _ st (Deploying.apply_all _ _) _ (apply_all-IsQuiet F J _ _)
              (λ _.
                Ends-quiet _ _ st (Deploying.sql_config_map run _) _ (sql_config_map-IsQuiet run _)
                  (λ sql.
                    Ends-quiet _ _ st (Deploying.apply_all _ _) _ (apply_all-IsQuiet F J _ _)
                      (λ _.
                        Ends-call _ _ st _ _
                          λ time g'. Ends-patch _ _ st _ (inr deployed) λ e g''. inl h)
                      (λ e. inl h))
                  (λ e. inl h))
              (λ e. inl h))
          (λ e. inl h)

    initializing_with-Moves :
        (st : Option (IncidentBenchRunStatus F)) (run : IncidentBenchRun F J)
        (resolved : Result (Failure F) (Scenario F))
        → phase_of st ≡ initializing
        → Moves initializing st (Deploying.initializing_with run resolved)
    unfolding Deploying.initializing_with
    initializing_with-Moves st run (err e) h =
        failed-Moves F J initializing st e h initializing_failed
    initializing_with-Moves st run (ok scenario) h = deploy-Moves st run _ h

    pub handle_initializing-Moves :
        (st : Option (IncidentBenchRunStatus F)) (run : IncidentBenchRun F J)
        → phase_of st ≡ initializing
        → Moves initializing st (Deploying.handle_initializing run)
    unfolding Deploying.handle_initializing
    handle_initializing-Moves st run h = initializing_with-Moves st run _ h

  set_aggregating-Moves :
      (st : Option (IncidentBenchRunStatus F))
      → phase_of st ≡ running
      → Moves running st (Watching.set_aggregating {J = J})
  unfolding Watching.set_aggregating merge_patch merge_entry phase_of
  set_aggregating-Moves st h = Ends-call _ _ st _ _ λ time g. Ends-call _ _ st _ _ λ reply g'.
      Ends-quiet _ _ st (try reply) _ (try-IsQuiet F J reply)
        (λ _. Ends-patch _ _ st _ (inr timeline_complete) λ e g''. inl h) (λ e. inl h)

  module _ ⦃fl : F64 F⦄ where
    finish_timeline-Moves :
        (st : Option (IncidentBenchRunStatus F)) (run : IncidentBenchRun F J)
        → phase_of st ≡ running
        → Moves running st (Watching.finish_timeline run)
    unfolding Watching.finish_timeline
    finish_timeline-Moves st run h =
        Ends-quiet _ _ st (Watching.scale_down _ _) _ (scale_down-IsQuiet F J _ _)
          (λ _.
            Ends-quiet _ _ st (Watching.scale_down _ _) _ (scale_down-IsQuiet F J _ _)
              (λ _.
                Ends-quiet _ _ st (Watching.scale_down _ _) _ (scale_down-IsQuiet F J _ _)
                  (λ _. set_aggregating-Moves st h) (λ e. inl h))
              (λ e. inl h))
          (λ e. inl h)

    report_progress-Moves :
        (st : Option (IncidentBenchRunStatus F)) (run : IncidentBenchRun F J) (s : StatusResponse)
        → phase_of st ≡ running
        → Moves running st (Watching.report_progress run s)
    unfolding Watching.report_progress merge_patch merge_entry phase_of
    report_progress-Moves st run s h =
        Ends-quiet _ _ st (Watching.poll_aggregator_snapshot _) _
          (poll_aggregator_snapshot-IsQuiet F J _)
          (λ snapshot. Ends-patch _ _ st _ (inl (phase_kept st ∙ h)) λ e g. inl h) (λ e. inl h)

    polled-Moves :
        (st : Option (IncidentBenchRunStatus F)) (run : IncidentBenchRun F J)
        (reply : Result String StatusResponse)
        → phase_of st ≡ running
        → Moves running st (Watching.polled run reply)
    unfolding Watching.polled
    polled-Moves st run (err e) h = Ends-ret _ _ st _ (inl h)
    polled-Moves st run (ok s) h =
        if-Ends _ _ st s.timeline_complete _ _ (finish_timeline-Moves st run h)
          (report_progress-Moves st run s h)

    checked-Moves :
        (st : Option (IncidentBenchRunStatus F)) (run : IncidentBenchRun F J)
        (health : Result (Failure F) (Unit {0}))
        → phase_of st ≡ running
        → Moves running st (Watching.checked run health)
    unfolding Watching.checked
    checked-Moves st run (err e) h = failed-Moves F J running st e h running_failed
    checked-Moves st run (ok _) h =
        Ends-quiet _ _ st (Watching.poll_phase_controller _) _ (poll_phase_controller-IsQuiet F J _)
          (λ reply. polled-Moves st run reply h) (λ e. inl h)

    pub handle_running-Moves :
        (st : Option (IncidentBenchRunStatus F)) (run : IncidentBenchRun F J)
        → phase_of st ≡ running
        → Moves running st (Watching.handle_running run)
    unfolding Watching.handle_running Health.check_worker_health
    handle_running-Moves st run h =
        Ends-quiet _ _ st (Health.check_all _ _) _ (check_all-IsQuiet F J _ _)
          (λ health. checked-Moves st run health h) (λ e. inl h)

    collect_results-Moves :
        (st : Option (IncidentBenchRunStatus F)) (run : IncidentBenchRun F J)
        → phase_of st ≡ aggregating
        → Moves aggregating st (Aggregation.collect_results run)
    unfolding Aggregation.collect_results merge_patch merge_entry phase_of
    collect_results-Moves st run h =
        Ends-call _ _ st _ _ λ reply g. Ends-patch _ _ st _ (inr collected) λ e g'. inl h

    seconds_since-IsQuiet :
        (time : Option String) → IsQuiet (Aggregation.seconds_since {F = F} {J = J} time)
    unfolding Aggregation.seconds_since
    seconds_since-IsQuiet none = tt
    seconds_since-IsQuiet (some time) = (λ x st. refl, λ x. tt)

    wait_or_force-Moves :
        (st : Option (IncidentBenchRunStatus F)) (run : IncidentBenchRun F J)
        → phase_of st ≡ aggregating
        → Moves aggregating st (Aggregation.wait_or_force run)
    unfolding Aggregation.wait_or_force
    wait_or_force-Moves st run h =
        Ends-quiet _ _ st (Aggregation.seconds_since (Aggregation.marked_since run)) _
          (seconds_since-IsQuiet _)
          (λ elapsed.
            if-Ends _ _ st (Aggregation.aggregating_too_long elapsed) _ _
              (collect_results-Moves st run h) (Ends-ret _ _ st _ (inl h)))
          (λ e. inl h)

    aggregation_status-Moves :
        (st : Option (IncidentBenchRunStatus F)) (run : IncidentBenchRun F J)
        (reply : Result String AggregationStatus)
        → phase_of st ≡ aggregating
        → Moves aggregating st (Aggregation.aggregation_status run reply)
    unfolding Aggregation.aggregation_status
    aggregation_status-Moves st run (err e) h = Ends-ret _ _ st _ (inl h)
    aggregation_status-Moves st run (ok s) h =
        if-Ends _ _ st _ _ _ (collect_results-Moves st run h) (wait_or_force-Moves st run h)

    connected-Moves :
        (st : Option (IncidentBenchRunStatus F)) (run : IncidentBenchRun F J)
        (channel : Result String (Unit {0}))
        → phase_of st ≡ aggregating
        → Moves aggregating st (Aggregation.connected run channel)
    unfolding Aggregation.connected
    connected-Moves st run (err e) h = Ends-ret _ _ st _ (inl h)
    connected-Moves st run (ok _) h =
        Ends-call _ _ st _ _ λ reply g. aggregation_status-Moves st run reply h

    pub handle_aggregating-Moves :
        (st : Option (IncidentBenchRunStatus F)) (run : IncidentBenchRun F J)
        → phase_of st ≡ aggregating
        → Moves aggregating st (Aggregation.handle_aggregating run)
    unfolding Aggregation.handle_aggregating
    handle_aggregating-Moves st run h =
        Ends-call _ _ st _ _ λ channel g. connected-Moves st run channel h
