-- ===== src/Operator.antt =====
-- The reconciler of crates/incidentbench-operator/src/controller.rs: one handler for each phase of a run's
-- life. Each handler is a program of requests (Cluster); logging is left out.
pub mod Steps
pub mod Targets
pub mod Health
pub mod Preparation
pub mod Deploying
pub mod Watching
pub mod Aggregation
pub mod Reporting
pub mod Cleaning
pub mod Lifecycle
use incident_bench.Base.{ℕ, String, Bool, true, false, Option, none, some, any, str_eq, ◌&&◌, F64}
use incident_bench.Crd.{IncidentBenchRun}
use incident_bench.Crd.Status.{
  LifecyclePhase, IncidentBenchRunStatus, Condition, pending, preparing, initializing, running,
  aggregating, reporting, completed, failed,
}
use incident_bench.Cluster.{Prog, ret, ◌>>=◌, ◌>>◌}
use incident_bench.Cluster.Objects.{Platform}
use incident_bench.Operator.Preparation.{handle_pending, handle_preparing}
use incident_bench.Operator.Deploying.{handle_initializing}
use incident_bench.Operator.Watching.{handle_running}
use incident_bench.Operator.Aggregation.{handle_aggregating}
use incident_bench.Operator.Reporting.{handle_reporting}
use incident_bench.Operator.Cleaning.{handle_cleanup}

-- When the controller looks at the run again: on a change only, or after some seconds too.
pub data Action : Type 0 where
  await_change : Action
  requeue_seconds : ℕ → Action

abbrev pub error_policy : Action
error_policy = requeue_seconds 30

unfoldable pub phase_of : {F : Type 0} → Option (IncidentBenchRunStatus F) → LifecyclePhase
phase_of none = pending
phase_of (some s) = s.phase

unfoldable pub is_cleaned : {F : Type 0} → Option (IncidentBenchRunStatus F) → Bool
is_cleaned none = false
is_cleaned (some s) =
    any (λ (c : Condition _). str_eq c.condition_type "Cleaned" && str_eq c.status "True")
      s.conditions

module _ {F J : Type 0} where
  abbrev pub current_phase : IncidentBenchRun F J → LifecyclePhase
  current_phase run = phase_of run.status

module _ {F J : Type 0} ⦃fl : F64 F⦄ ⦃pf : Platform J⦄ where
  unfoldable pub finish : Bool → IncidentBenchRun F J → Prog F J Action
  finish true run = ret await_change
  finish false run = do handle_cleanup run; ret await_change

  unfoldable pub reconcile_in : LifecyclePhase → IncidentBenchRun F J → Prog F J Action
  unfolding finish
  reconcile_in pending run = do handle_pending run; ret (requeue_seconds 5)
  reconcile_in preparing run = do handle_preparing run; ret (requeue_seconds 5)
  reconcile_in initializing run = do handle_initializing run; ret (requeue_seconds 5)
  reconcile_in running run = do handle_running run; ret (requeue_seconds 5)
  reconcile_in aggregating run = do handle_aggregating run; ret (requeue_seconds 5)
  reconcile_in reporting run = do handle_reporting run; ret (requeue_seconds 5)
  reconcile_in completed run = finish (is_cleaned run.status) run
  reconcile_in failed run = finish (is_cleaned run.status) run

  unfoldable pub reconcile : IncidentBenchRun F J → Prog F J Action
  unfolding reconcile_in
  reconcile run = reconcile_in (current_phase run) run
