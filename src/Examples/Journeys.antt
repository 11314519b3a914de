-- ===== src/Examples/Journeys.antt =====
-- Two workers on their way through a timeline of two phases.
use incident_bench.Base.{
  ◌≡◌, refl, String, none, some, List, [], ◌∷◌, get_elem?, length, ℤ, pos, sub_i64, add_i64,
  sub_u64, add_u64,
}
use incident_bench.Barrier.{
  PhaseEvent, prepare_transition, transition, run_complete, Entered, inbound, wait_for_transition,
}
use incident_bench.Barrier.Transitions.{entered_in}
use incident_bench.PhaseController.Timeline.{
  run_timeline, run_phases, run_phase, send_prepare, send_transitions, write_checkpoint, clean_up,
  broadcast, rate_for,
}
use incident_bench.Worker.{received, run_turns}
use incident_bench.Worker.Ingest.{turn, first_phase, IngestTurn}
use incident_bench.Worker.Ingest.Phases.{IsIngesting, ingest-run_timeline}
use incident_bench.Worker.Rated.{rated_turn, start_rated, RatedTurn, result_of}
use incident_bench.Worker.Query.Errors.{truncate_error_message}
use incident_bench.Worker.Rated.Phases.{IsQuerying, query-run_timeline}
use incident_bench.Worker.Phases.{EndsIn, heard_by, phases_ahead}
use incident_bench.Examples.Barriers.{around, steady, steady_ingest, two_phases}
use incident_bench.Examples.Loads.{queries}
use incident_bench.Examples.Milli.{Milli, milli}
use incident_bench.Examples.Workers.{ingest_worker, ingest_turn, rated_query, first_query}

-- What the first wait leaves in a channel of a worker with a rate in the second phase.
abbrev rest_of : ℤ → List PhaseEvent
rest_of rate =
    prepare_transition "baseline" "overlap"
    ∷ transition "baseline" "overlap" (pos 1_050_000_000) rate
    ∷ run_complete
    ∷ []

abbrev first : ℤ → Entered
first rate = record { phase = "baseline"; rate = rate; slept = 50_000_000 }

abbrev ingest_journey : List (IngestTurn Milli)
ingest_journey =
    ingest_turn
    ∷ (record ingest_turn { poll = received (some (prepare_transition "baseline" "overlap")) })
    ∷ (record ingest_turn {
      poll = received (some (transition "baseline" "overlap" (pos 1_050_000_000) (pos 500)));
    })
    ∷ ingest_turn
    ∷ []

ingest-run_timeline_example :
    (a : String × ℤ) × (get_elem?
        (phases_ahead 7 "ingest" none around steady_ingest 0 two_phases)
        (length (entered_in (heard_by (λ (t : IngestTurn Milli). t.poll) ingest_journey)))
      ≡ some a)
    × EndsIn (IsIngesting ingest_worker.rate_table) a (
        run_turns turn ingest_journey
          (first_phase "ingest-a" 2 ingest_worker.rate_table "baseline" 5))
unfolding wait_for_transition inbound run_timeline run_phases run_phase send_prepare
    send_transitions write_checkpoint clean_up broadcast rate_for sub_i64 add_i64 sub_u64 add_u64
ingest-run_timeline_example =
    ingest-run_timeline 7 none around steady_ingest 0 two_phases 0 (first (pos 500))
      (rest_of (pos 500)) (run_complete ∷ []) "ingest-a" 2 ingest_worker.rate_table 5 ingest_journey
      refl refl

abbrev query_journey : List (RatedTurn Milli)
query_journey =
    rated_query
    ∷ (record rated_query { poll = received (some (prepare_transition "baseline" "overlap")) })
    ∷ (record rated_query {
      poll = received (some (transition "baseline" "overlap" (pos 1_050_000_000) (pos 1250)));
    })
    ∷ []

query-run_timeline_example :
    (a : String × ℤ) × (get_elem?
        (phases_ahead 8 "query" none around steady 0 two_phases)
        (length (entered_in (heard_by (λ (t : RatedTurn Milli). t.poll) query_journey)))
      ≡ some a)
    × EndsIn
        (IsQuerying queries)
        a
        (run_turns rated_turn query_journey (start_rated "query-a" 3 "" queries "baseline" 1250 5))
unfolding wait_for_transition inbound run_timeline run_phases run_phase send_prepare
    send_transitions write_checkpoint clean_up broadcast rate_for sub_i64 add_i64 sub_u64 add_u64
    result_of truncate_error_message
query-run_timeline_example =
    query-run_timeline 8 none around steady 0 two_phases 0 (first (pos 1250)) (rest_of (pos 1250))
      (run_complete ∷ []) "query-a" 3 "" queries 5 query_journey refl refl
      ((first_query, refl, refl), ((first_query, refl, refl), ((first_query, refl, refl), tt)))
