-- ===== src/PhaseController/Timeline/Launch.antt =====
-- `run` of crates/incidentbench-worker/src/phase_controller.rs from its start: the checkpoint that it reads
-- and the wait for the workers. The start of the server and the parse of the configuration come before.
use incident_bench.Base.{
  ℕ, String, Bool, Option, none, some, List, [], ◌∷◌, unwrap_or, if◌then◌else◌,
}
use incident_bench.Cluster.{Result, ok, err}
use incident_bench.PhaseController.{PhaseControllerConfig}
use incident_bench.PhaseController.Timeline.{
  Action, checkpoint, enter, send, sleep_ms, complete, remove_checkpoint, Surroundings,
  run_timeline,
}

-- Timed out after so many seconds, with the numbers of ready and of expected workers.
pub data RunError : Type 0 where
  timed_out : ℕ → ℕ × ℕ → ℕ × ℕ → RunError

-- What the start meets: the text of the checkpoint, if it can be read; whether "all workers ready" comes
-- before the timeout; and the ready ingest and query workers at the timeout.
pub record Launch : Type 0 where
  pub contents : Option String
  pub all_ready : Bool
  pub ready_workers : ℕ × ℕ

-- `parse` is that of a `usize` from the trimmed text.
unfoldable pub resume_from : (String → Option ℕ) → Option String → Option String → ℕ
resume_from parse none contents = 0
resume_from parse (some path) none = 0
resume_from parse (some path) (some text) = unwrap_or (parse text) 0

unfoldable pub run_controller :
    (String → Option ℕ)
    → PhaseControllerConfig
    → Launch
    → Surroundings
    → Result RunError (List Action)
unfolding resume_from run_timeline
run_controller parse config launch around =
    if launch.all_ready
    then ok (
        run_timeline config.checkpoint_path around
          (resume_from parse config.checkpoint_path launch.contents) config.phases)
    else err (
        timed_out config.worker_connect_timeout_s launch.ready_workers
          (config.expected_ingest_workers, config.expected_query_workers))

-- The text in the checkpoint behind some actions, each of which succeeds; `show` is the format of a
-- number.
unfoldable pub file_after : (ℕ → String) → Option String → List Action → Option String
file_after show file [] = file
file_after show file (checkpoint path i ∷ rest) = file_after show (some (show i)) rest
file_after show file (remove_checkpoint path ∷ rest) = file_after show none rest
file_after show file (enter i ∷ rest) = file_after show file rest
file_after show file (send c m ∷ rest) = file_after show file rest
file_after show file (sleep_ms n ∷ rest) = file_after show file rest
file_after show file (complete ∷ rest) = file_after show file rest
