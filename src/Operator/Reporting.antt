-- ===== src/Operator/Reporting.antt =====
-- `handle_reporting` of crates/incidentbench-operator/src/controller.rs.
use incident_bench.Base.{
  Bool, true, false, ◌==◌, ℤ, pos, leb_ℤ, String, Option, none, some, [], ◌∷◌, unwrap_or,
  if◌then◌else◌,
}
use incident_bench.Crd.{IncidentBenchRun}
use incident_bench.Crd.Status.{phase, conditions, completion_time, literal, completed}
use incident_bench.Cluster.{
  set_status, Prog, ret, fail, ◌>>=◌, ◌>>◌, ask, try, Result, ok, err, KubeError, api, other, now,
  get_job, create_job, JobStatus,
}
use incident_bench.Resources.{object_name}
use incident_bench.Resources.Services.{build_reporter_job}
use incident_bench.Operator.Steps.{run_name, condition}
use incident_bench.Operator.Health.{is_positive}

abbrev succeeded_of : Option JobStatus → ℤ
succeeded_of none = pos 0
succeeded_of (some s) = unwrap_or s.succeeded (pos 0)

abbrev failed_of : Option JobStatus → ℤ
failed_of none = pos 0
failed_of (some s) = unwrap_or s.failed (pos 0)

unfoldable pub job_succeeded : Option JobStatus → Bool
job_succeeded status = is_positive (succeeded_of status)

unfoldable pub job_failed : Option JobStatus → Bool
job_failed status = leb_ℤ (pos 3) (failed_of status)

module _ {F J : Type 0} where
  unfoldable pub create_missing :
      String → IncidentBenchRun F J → Bool → KubeError → Prog F J (Unit {0})
  create_missing namespace run true e = do
    reply ← ask (create_job namespace (build_reporter_job (run_name run) run))
    try reply
  create_missing namespace run false e = fail e

  -- The object is created where the server answers 404.
  unfoldable pub ensure_job :
      String → IncidentBenchRun F J → Result KubeError (Option JobStatus) → Prog F J (Unit {0})
  unfolding create_missing
  ensure_job namespace run (ok _) = ret tt
  ensure_job namespace run (err (other e)) = fail (other e)
  ensure_job namespace run (err (api code)) = create_missing namespace run (code == 404) (api code)

  unfoldable pub set_completed : String → Prog F J (Unit {0})
  set_completed message = do
    time ← ask now
    set_status (
        phase completed
        ∷ completion_time time
        ∷ conditions (condition "RunComplete" (literal message) time ∷ [])
        ∷ [])

  unfoldable pub job_done : Option JobStatus → Prog F J (Unit {0})
  unfolding set_completed
  job_done status =
      if job_succeeded status
      then set_completed
          "Reporter job finished — report.html, run.json, timeseries.csv written to results PVC"
      else if job_failed status
      then set_completed
          "Reporter job failed — raw metrics in PVC, re-run with: incidentbench report regenerate"
      else ret tt

  unfoldable pub check_job : String → IncidentBenchRun F J → Prog F J (Unit {0})
  unfolding job_done
  check_job namespace run = do
    reply ← ask (get_job namespace (object_name (run_name run) "reporter"))
    job ← try reply
    job_done job

  -- `run.namespace().unwrap_or_default()`.
  unfoldable pub job_namespace : IncidentBenchRun F J → String
  job_namespace run = unwrap_or run.metadata.namespace ""

  unfoldable pub handle_reporting : IncidentBenchRun F J → Prog F J (Unit {0})
  unfolding ensure_job check_job
  handle_reporting run = do
    found ← ask (get_job (job_namespace run) (object_name (run_name run) "reporter"))
    ensure_job (job_namespace run) run found
    check_job (job_namespace run) run
