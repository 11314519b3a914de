-- ===== src/Crd/Status.antt =====
-- The status of a run in crates/incidentbench-common/src/crd.rs, and the merge patches of it that the
-- operator sends: a key that a patch has takes the patch's value, the list of conditions as a whole,
-- and any other key is kept. A key that the status does not have is not read back.
use incident_bench.Base.{ℕ, ℤ, String, Bool, Option, none, some, List, [], ◌∷◌, map}
use incident_bench.Metrics.Derived.{Scorecard}
use incident_bench.Scenario.Validate.{ValidationError}

pub data LifecyclePhase : Type 0 where
  pending preparing initializing running aggregating reporting completed failed : LifecyclePhase

-- `Display` of a phase.
unfoldable pub display : LifecyclePhase → String
display pending = "Pending"
display preparing = "Preparing"
display initializing = "Initializing"
display running = "Running"
display aggregating = "Aggregating"
display reporting = "Reporting"
display completed = "Completed"
display failed = "Failed"

-- Why the operator fails a run: the formats of its messages.
pub data Failure (F : Type 0) : Type 0 where
  not_implemented not_specified : Failure F
  validation_failed : List (ValidationError F) → Failure F
  topic_failed : String → String → Failure F
  adapter_failed prepare_failed : String → Failure F
  deployment_stalled : String → ℤ → Failure F

pub data Message (F : Type 0) : Type 0 where
  literal : String → Message F
  failure : Failure F → Message F
  dry_run_summary : ℕ → ℕ → ℕ → Message F
  prepare_summary : List String → List (String × String) → List (String × String) → Message F
  workers_deployed : ℕ → ℕ → ℕ → Message F

pub record Condition (F : Type 0) : Type 0 where
  pub condition_type : String
  pub status : String
  pub message : Option (Message F)
  pub last_transition_time : Option String

pub record WorkerStatus : Type 0 where
  pub ingest_desired : ℕ
  pub ingest_ready : ℕ
  pub query_desired : ℕ
  pub query_ready : ℕ

-- The numbers are the ones of the patch, which takes them from signed messages.
pub record ProgressStatus (F : Type 0) : Type 0 where
  pub elapsed_seconds : ℤ
  pub total_seconds : ℤ
  pub achieved_ingest_eps : ℤ
  pub target_ingest_eps : ℤ
  pub achieved_query_qps : F
  pub target_query_qps : F
  pub kafka_consumer_lag : ℤ

pub record RunResults (F : Type 0) : Type 0 where
  pub valid : Bool
  pub validity_violations : List String
  pub warnings : List String
  pub harness_saturated : Bool
  pub scorecard : Option (Scorecard F)

pub record IncidentBenchRunStatus (F : Type 0) : Type 0 where
  pub phase : LifecyclePhase
  pub conditions : List (Condition F)
  pub current_benchmark_phase : Option String
  pub current_benchmark_phase_index : Option ℕ
  pub workers : Option WorkerStatus
  pub run_id : Option String
  pub start_time : Option String
  pub completion_time : Option String
  pub progress : Option (ProgressStatus F)
  pub results : Option (RunResults F)

-- A condition as a patch has it, with the key `lastTransitionTime`.
pub record ConditionPatch (F : Type 0) : Type 0 where
  pub condition_type : String
  pub message : Message F
  pub last_transition_time_key : String

-- One key of a patch with its value. `run_id_key` and `start_time_key` are `runId` and `startTime`.
pub data StatusEntry (F : Type 0) : Type 0 where
  phase : LifecyclePhase → StatusEntry F
  conditions : List (ConditionPatch F) → StatusEntry F
  current_benchmark_phase : String → StatusEntry F
  workers : WorkerStatus → StatusEntry F
  run_id_key start_time_key completion_time : String → StatusEntry F
  progress : ProgressStatus F → StatusEntry F
  results : RunResults F → StatusEntry F

module _ {F : Type 0} where
  -- The status with every field absent.
  abbrev pub default_status : IncidentBenchRunStatus F
  default_status = record {
    phase = pending;
    conditions = [];
    current_benchmark_phase = none;
    current_benchmark_phase_index = none;
    workers = none;
    run_id = none;
    start_time = none;
    completion_time = none;
    progress = none;
    results = none;
  }

  -- Every condition that the operator writes is "True".
  unfoldable pub read_condition : ConditionPatch F → Condition F
  read_condition c = record {
    condition_type = c.condition_type;
    status = "True";
    message = some c.message;
    last_transition_time = none;
  }

  unfoldable pub merge_entry : StatusEntry F → IncidentBenchRunStatus F → IncidentBenchRunStatus F
  merge_entry (phase p) s = record s { phase = p }
  merge_entry (conditions cs) s = record s { conditions = map read_condition cs }
  merge_entry (current_benchmark_phase p) s = record s { current_benchmark_phase = some p }
  merge_entry (workers w) s = record s { workers = some w }
  merge_entry (run_id_key v) s = s
  merge_entry (start_time_key v) s = s
  merge_entry (completion_time t) s = record s { completion_time = some t }
  merge_entry (progress p) s = record s { progress = some p }
  merge_entry (results r) s = record s { results = some r }

  unfoldable pub merge_patch :
      List (StatusEntry F) → IncidentBenchRunStatus F → IncidentBenchRunStatus F
  unfolding merge_entry
  merge_patch [] s = s
  merge_patch (e ∷ es) s = merge_patch es (merge_entry e s)
