-- ===== src/Worker/Ingest/Phases.antt =====
-- The phases of an ingest worker, against the timeline of the controller.
use incident_bench.Base.{
  ℕ, ◌≡◌, refl, ap, ◌∙◌, String, Bool, true, false, Option, none, some, List, ◌++◌, length,
  get_elem?, ℤ, F64,
}
use incident_bench.Scenario.Rates.{WorkerRateTable}
use incident_bench.RateLimiter.{acquire}
use incident_bench.PhaseController.{PhaseSpec}
use incident_bench.PhaseController.Timeline.{Surroundings}
use incident_bench.Barrier.{
  PhaseEvent, prepare_transition, transition, run_complete, Entered, wait_for_transition,
}
use incident_bench.Barrier.Messages.{IsSteady}
use incident_bench.Barrier.Transitions.{entered_in}
use incident_bench.Worker.{Poll, idle, received, Offer, run_turns}
use incident_bench.Worker.Ingest.{
  IngestWorker, IngestTurn, turn, after_poll, emit, produce, count_event, send_event, enter_phase,
  table_rate, is_incident, first_phase, reset,
}
use incident_bench.Worker.Phases.{
  latest, Moves, heard_by, EndsIn, run_turns-EndsIn, timeline_events, phases_ahead, in_order, units,
}

module _ {F : Type 0} ⦃fl : F64 F⦄ where
  -- An ingest worker in a phase: it has the rate that its own table gives for the phase, whatever rate
  -- came with the transition.
  pub record IsIngesting (table : WorkerRateTable) (a : String × ℤ) (w : IngestWorker F)
      : Type 0 where
    pub table_kept : w.rate_table ≡ table
    pub phase : w.current_phase ≡ a.0
    pub rate : w.current_rate ≡ table_rate table a.0
    pub incident : w.incident_mode ≡ is_incident a.0

  kept-IsIngesting :
      (table : WorkerRateTable) (a : String × ℤ) (w v : IngestWorker F)
      → v.rate_table ≡ w.rate_table
      → v.current_phase ≡ w.current_phase
      → v.current_rate ≡ w.current_rate
      → v.incident_mode ≡ w.incident_mode
      → IsIngesting table a w
      → IsIngesting table a v
  kept-IsIngesting table a w v t p r i h = record {
    table_kept = t ∙ h.table_kept;
    phase = p ∙ h.phase;
    rate = r ∙ h.rate;
    incident = i ∙ h.incident;
  }

  emit-IsIngesting :
      (table : WorkerRateTable) (a : String × ℤ) (due : Bool) (t : IngestTurn F)
      (w : IngestWorker F)
      → IsIngesting table a w
      → IsIngesting table a (emit due t w).1
  unfolding emit reset
  emit-IsIngesting table a false t w h = h
  emit-IsIngesting table a true t w h = kept-IsIngesting table a w _ refl refl refl refl h

  count_event-IsIngesting :
      (table : WorkerRateTable) (a : String × ℤ) (ok : Bool) (latency : F) (w : IngestWorker F)
      → IsIngesting table a w
      → IsIngesting table a (count_event ok latency w)
  unfolding count_event
  count_event-IsIngesting table a true latency w h =
      kept-IsIngesting table a w _ refl refl refl refl h
  count_event-IsIngesting table a false latency w h =
      kept-IsIngesting table a w _ refl refl refl refl h

  produce-IsIngesting :
      (table : WorkerRateTable) (a : String × ℤ) (t : IngestTurn F) (w : IngestWorker F)
      → IsIngesting table a w
      → IsIngesting table a (produce t w)
  unfolding produce
  produce-IsIngesting table a t w h =
      count_event-IsIngesting table a (send_event t.delivered).send_ok t.latency_ms
        (record w { rate_limiter = (acquire t.refill_at t.slept_until w.rate_limiter).limiter })
        (kept-IsIngesting table a w _ refl refl refl refl h)

  enter_phase-IsIngesting :
      (table : WorkerRateTable) (a : String × ℤ) (to : String) (rate : ℤ) (w : IngestWorker F)
      → IsIngesting table a w
      → IsIngesting table (to, rate) (enter_phase to w)
  unfolding enter_phase
  enter_phase-IsIngesting table a to rate w h = record {
    table_kept = h.table_kept;
    phase = refl;
    rate = ap (λ t. table_rate t to) h.table_kept;
    incident = refl;
  }

  after_poll-Moves :
      (table : WorkerRateTable) (a : String × ℤ) (poll : Poll) (t : IngestTurn F)
      (out : List (Offer F)) (w : IngestWorker F)
      → IsIngesting table a w
      → Moves (IsIngesting table) poll a (after_poll poll t out w)
  unfolding after_poll
  after_poll-Moves table a idle t out w h = (refl, produce-IsIngesting table a t w h)
  after_poll-Moves table a (received none) t out w h = (refl, h)
  after_poll-Moves table a (received (some run_complete)) t out w h = (refl, h)
  after_poll-Moves table a (received (some (prepare_transition _ _))) t out w h =
      (refl, produce-IsIngesting table a t w h)
  after_poll-Moves table a (received (some (transition _ to _ rate))) t out w h =
      (refl, produce-IsIngesting table (to, rate) t _ (enter_phase-IsIngesting table a to rate w h))

  turn-Moves :
      (table : WorkerRateTable) (a : String × ℤ) (t : IngestTurn F) (w : IngestWorker F)
      → IsIngesting table a w
      → Moves (IsIngesting table) t.poll a (turn t w)
  unfolding turn
  turn-Moves table a t w h =
      after_poll-Moves table a t.poll t _ _ (emit-IsIngesting table a t.second_over t w h)

pub ingest-run_timeline :
    {F : Type 0} ⦃fl : F64 F⦄ (channel : ℕ) (path : Option String) (around : Surroundings)
    (steady : IsSteady channel "ingest" around) (resume : ℕ) (phases : List PhaseSpec) (now : ℕ)
    (e : Entered) (rest after : List PhaseEvent) (worker_id : String) (index : ℕ)
    (table : WorkerRateTable) (start : ℕ) (ts : List (IngestTurn F))
    → wait_for_transition now (timeline_events channel "ingest" path around steady resume phases)
      ≡ (some e, rest)
    → heard_by (λ (t : IngestTurn F). t.poll) ts ++ after ≡ rest
    → let before = heard_by (λ (t : IngestTurn F). t.poll) ts in
      (a : String × ℤ) × (get_elem?
          (phases_ahead channel "ingest" path around steady resume phases)
          (length (entered_in before))
        ≡ some a)
      × EndsIn
          (IsIngesting table)
          a
          (run_turns turn ts (first_phase worker_id index table e.phase start))
unfolding first_phase
ingest-run_timeline channel path around steady resume phases now e rest after worker_id index table
      start ts h split =
    (
      latest (e.phase, e.rate) (entered_in (heard_by (λ (t : IngestTurn _). t.poll) ts)),
      in_order channel "ingest" path around steady resume phases now e rest _ after h split,
      run_turns-EndsIn turn (λ t. t.poll) (IsIngesting table) (λ _. Unit {0})
          (λ a t w i _. turn-Moves table a t w i) ts (e.phase, e.rate)
          (first_phase worker_id index table e.phase start)
          (record { table_kept = refl; phase = refl; rate = refl; incident = refl }) (units ts),
    )
