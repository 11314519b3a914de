-- ===== src/PhaseController/Timeline.antt =====
-- The conductor of crates/incidentbench-worker/src/phase_controller.rs, `run` from the start of the
-- timeline on, as the list of what it does. The snapshots of the workers that it takes under the
-- lock and the readings of the clock are arguments; sends to closed channels are ignored by the
-- source and stand in the list all the same.

pub mod Duration
pub mod Launch
pub mod Entered
pub mod Recovery
use incident_bench.Base.{
  ℕ, zero, suc, ◌+◌, ◌-◌, ◌*◌, ℤ, pos, add_i64, as_i64, String, Bool, true, false, Option, none,
  some, List, [], ◌∷◌, ◌++◌, map, ltb, ◌==◌, if◌then◌else◌, str_eq,
}
use incident_bench.PhaseController.{PhaseSpec, Workers}

pub data ControllerMessage : Type 0 where
  prepare_transition : String → String → ControllerMessage
  phase_transition : String → String → ℤ → ℤ → ControllerMessage
  run_complete : ControllerMessage

-- `enter i` stands for the block that sets the phase index and start and clears the acks.
pub data Action : Type 0 where
  checkpoint : String → ℕ → Action
  enter : ℕ → Action
  send : ℕ → ControllerMessage → Action
  sleep_ms : ℕ → Action
  complete : Action
  remove_checkpoint : String → Action

-- What the conductor meets: for each phase the workers at the prepare and at the transition, and
-- the clock in nanoseconds since the epoch; and the workers at the end.
pub record Surroundings : Type 0 where
  pub at_prepare : ℕ → Workers
  pub at_transition : ℕ → Workers
  pub at_end : Workers
  pub clock : ℕ → ℕ

-- The same message to all workers.
unfoldable pub broadcast : ControllerMessage → Workers → List Action
broadcast msg [] = []
broadcast msg ((id, (mode, channel)) ∷ ws) = send channel msg ∷ broadcast msg ws

-- The rate that a worker of a mode is sent.
unfoldable pub rate_for : PhaseSpec → String → ℤ
rate_for phase mode =
    if str_eq mode "ingest"
    then as_i64 phase.per_worker_ingest_eps
    else if str_eq mode "query"
    then as_i64 phase.per_worker_query_mqps
    else pos 0

unfoldable pub send_transitions : String → PhaseSpec → ℤ → Workers → List Action
send_transitions from phase time [] = []
send_transitions from phase time ((id, (mode, channel)) ∷ ws) =
    send channel (phase_transition from phase.name time (rate_for phase mode))
    ∷ send_transitions from phase time ws

abbrev pub transition_time : ℕ → ℤ
transition_time now = add_i64 (as_i64 now) (pos 50_000_000)

unfoldable pub write_checkpoint : Option String → ℕ → List Action
write_checkpoint none i = []
write_checkpoint (some path) i = checkpoint path i ∷ []

-- The prepare messages, for all phases but the first; `previous` is the phase before, if any.
unfoldable pub send_prepare : Surroundings → ℕ → Option PhaseSpec → PhaseSpec → List Action
send_prepare around i none phase = []
send_prepare around i (some previous) phase =
    broadcast (prepare_transition previous.name phase.name) (around.at_prepare i)
    ++ sleep_ms 100 ∷ []

abbrev pub name_before : Option PhaseSpec → String
name_before none = ""
name_before (some p) = p.name

-- The body of the loop for a phase that is not skipped.
unfoldable pub run_phase :
    Option String → Surroundings → ℕ → Option PhaseSpec → PhaseSpec → List Action
run_phase path around i previous phase =
    write_checkpoint path i
    ++ (enter i
        ∷ (send_prepare around i previous phase
            ++ (send_transitions (name_before previous) phase (transition_time (around.clock i))
                  (around.at_transition i)
                ++ sleep_ms (phase.duration_seconds * 1000) ∷ [])))

-- The loop over the phases from `i` on, with the phase before it.
unfoldable pub run_phases :
    Option String → Surroundings → ℕ → ℕ → Option PhaseSpec → List PhaseSpec → List Action
run_phases path around resume i previous [] = []
run_phases path around resume i previous (phase ∷ rest) =
    let later = run_phases path around resume (i + 1) (some phase) rest in
    if ltb i resume then later else run_phase path around i previous phase ++ later

unfoldable pub clean_up : Option String → List Action
clean_up none = []
clean_up (some path) = remove_checkpoint path ∷ []

-- The timeline: the phases, the end of the run, the clean-up and the last ten seconds.
unfoldable pub run_timeline : Option String → Surroundings → ℕ → List PhaseSpec → List Action
run_timeline path around resume phases =
    run_phases path around resume 0 none phases
    ++ (complete
        ∷ (broadcast run_complete around.at_end ++ (clean_up path ++ sleep_ms 10_000 ∷ [])))
