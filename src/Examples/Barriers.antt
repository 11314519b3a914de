-- ===== src/Examples/Barriers.antt =====
-- A run of two phases with an ingest worker and a query worker.
use Prim.Native.String as String
use Prim.Native.String.count
use incident_bench.Base.{
  ℕ, zero, suc, ◌+◌, ◌*◌, ◌≤◌, ◌<◌, ◌≡◌, refl, ◌↔◌, String, true, none, some, List, [], ◌∷◌, lookup,
  insert, remove, arith, Option, ap, ◌∙◌, take,
}
use incident_bench.PhaseController.{
  PhaseSpec, PhaseControllerConfig, Workers, ready, WorkerMessage, handle_message, handle, register,
  count_ready, disconnect, new,
}
use incident_bench.PhaseController.Counts.{
  Event, message, closed, start, step, steps, registered, steps_cover,
}
use incident_bench.PhaseController.Once.{signal_iff}
use incident_bench.PhaseController.Timeline.{
  Surroundings, run_timeline, run_phases, run_phase, write_checkpoint, send_prepare,
  send_transitions, broadcast,
}
use incident_bench.PhaseController.Timeline.Launch.{file_after, resume_from}
use incident_bench.PhaseController.Timeline.Recovery.{Resumes, conducted, restart-Resumes}
use incident_bench.PhaseController.Timeline.Duration.{total_sleep, total_sleep-run_timeline}
use incident_bench.Barrier.{Attempt, failed, connected, connected_after, connect}
use incident_bench.Barrier.Messages.{IsSteady}
use incident_bench.Barrier.Retry.{connect-connected}

abbrev spec : String → ℕ → PhaseSpec
spec name seconds = record {
  name = name;
  duration_seconds = seconds;
  per_worker_ingest_eps = 500;
  per_worker_query_mqps = 1250;
}

abbrev pub two_phases : List PhaseSpec
two_phases = spec "baseline" 60 ∷ spec "overlap" 120 ∷ []

abbrev config : PhaseControllerConfig
config = record {
  phases = two_phases;
  expected_ingest_workers = 1;
  expected_query_workers = 1;
  worker_connect_timeout_s = 300;
  checkpoint_path = some "/data/checkpoint.json";
}

abbrev ready_from : String → String → WorkerMessage
ready_from id mode = record { worker_id = id; worker_mode = mode; payload = some ready }

abbrev first_events : List Event
first_events =
    message 0 (ready_from "ingest-0" "ingest")
    ∷ closed 0
    ∷ message 1 (ready_from "ingest-1" "ingest")
    ∷ []

signal_iff_example :
    let v = steps first_events (start config) in
    let h = handle_message 2 (v.ids 2) (ready_from "query-0" "query") v.state in
    (h.signal ≡ true)
    ↔ ((1 ≤ registered "ingest" h.state.workers) × (1 ≤ registered "query" h.state.workers))
unfolding steps step new handle_message handle register count_ready disconnect insert lookup remove
signal_iff_example =
    signal_iff config first_events 2 (ready_from "query-0" "query") (omega arith) (refl, (refl, tt))
      refl refl

steps_cover_example :
    let s = (steps first_events (start config)).state in
    (registered "ingest" s.workers ≤ s.ready_ingest)
    × (registered "query" s.workers ≤ s.ready_query)
    × (s.ready_ingest ≤ 3)
    × (s.ready_query ≤ 3)
steps_cover_example = steps_cover config first_events (omega arith)

abbrev both_workers : Workers
both_workers = ("ingest-0", ("ingest", 7)) ∷ ("query-0", ("query", 8)) ∷ []

abbrev pub around : Surroundings
around = record {
  at_prepare = λ _. both_workers;
  at_transition = λ _. both_workers;
  at_end = both_workers;
  clock = λ i. i * 1_000_000_000;
}

abbrev pub steady_ingest : IsSteady 7 "ingest" around
steady_ingest = record { at_prepare = λ i. refl; at_transition = λ i. refl; at_end = refl }

abbrev pub steady : IsSteady 8 "query" around
steady = record { at_prepare = λ i. refl; at_transition = λ i. refl; at_end = refl }

total_sleep-run_timeline_example : total_sleep (run_timeline none around 0 two_phases) ≡ 190_100
total_sleep-run_timeline_example = total_sleep-run_timeline none around 0 two_phases

abbrev third_time : ℕ → Attempt
third_time (suc (suc (suc n))) = connected
third_time n = failed

connect-connected_example : connect third_time ≡ connected_after 3 3
connect-connected_example = connect-connected third_time 2 (omega arith) (λ i h. early i h) refl
  where
    early : (i : ℕ) → i < 2 → third_time (i + 1) ≡ failed
    early zero h = refl
    early (suc zero) h = refl
    early (suc (suc i)) h = absurd (omega arith)

-- Numbers as tallies: one stroke for each unit.
strokes : ℕ → String
strokes zero = ""
strokes (suc n) = String.◌∷◌ "I" (strokes n)

counted : String → Option ℕ
counted s = some (String.count s)

count-strokes : (n : ℕ) → String.count (strokes n) ≡ n
unfolding strokes
count-strokes zero = refl
count-strokes (suc n) = String.count.cons _ _ ∙ ap suc (count-strokes n)

counted-strokes : (n : ℕ) → counted (strokes n) ≡ some n
unfolding counted
counted-strokes n = ap some (count-strokes n)

-- The conductor is stopped in its second phase.
restart-Resumes_example :
    let whole = conducted counted config "/data/checkpoint.json" none around in
    let left = file_after strokes none (take 6 whole) in
    Resumes 0
      (resume_from counted (some "/data/checkpoint.json") left)
      (take 6 whole)
      (conducted counted config "/data/checkpoint.json" left around)
      whole
unfolding resume_from run_phases run_phase write_checkpoint send_prepare send_transitions broadcast
restart-Resumes_example =
    restart-Resumes counted strokes counted-strokes config "/data/checkpoint.json" around around
      none 6 (omega arith)
