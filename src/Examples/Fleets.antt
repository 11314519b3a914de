-- ===== src/Examples/Fleets.antt =====
-- Three workers, one of each kind, and the aggregator that gets their snapshots.
use incident_bench.Base.{true, false, none, List, [], ◌∷◌, ◌≡◌, refl, arith}
use incident_bench.Scenario.Session.{from_query_category}
use incident_bench.Worker.{idle, received}
use mathlib.Core.List.{Perm}
use mathlib.Core.List.Perm
use incident_bench.Aggregator.{new}
use incident_bench.Aggregator.Snapshots.{WorkerMetricSnapshot}
use incident_bench.Aggregator.Runs
use incident_bench.Aggregator.Runs.{Event, opened, snapshot, closed, run}
use incident_bench.Worker.Sums.{taken, refused}
use incident_bench.Worker.Fleet.{
  WorkerRun, ingest_run, rated_run, session_run, MakesUp, add, in_timeline, reported, offers_by,
  all_of, in_hand, done_by,
}
use incident_bench.Worker.Delivery.{timeline-MakesUp}
use incident_bench.Examples.Milli.{Milli, milli}
use incident_bench.Examples.Workers.{
  ingest_worker, ingest_turns, ingest_worker-IsCounted, rated_worker, rated_turns,
  rated_turns-CanRun, empty-IsTallied, session_worker, ticks, quiet-IsFair,
}

abbrev fleet : List (WorkerRun Milli)
fleet =
    ingest_run ingest_worker ingest_turns
    ∷ rated_run rated_worker rated_turns
    ∷ session_run session_worker ticks
    ∷ []

-- The calls of one stream with these snapshots.
abbrev stream_of : List (WorkerMetricSnapshot Milli) → List (Event Milli)
stream_of [] = closed ∷ []
stream_of (s ∷ snaps) = snapshot s ∷ stream_of snaps

received-stream_of :
    (snaps : List (WorkerMetricSnapshot Milli)) → Perm (Runs.received (stream_of snaps)) snaps
received-stream_of [] = Perm.refl []
received-stream_of (s ∷ snaps) = Perm.cons s (received-stream_of snaps)

timeline-MakesUp_example :
    MakesUp
      (add
        (in_timeline (run (opened ∷ stream_of (taken (offers_by fleet))) (new "")).timeline)
        (reported (refused (offers_by fleet))))
      (all_of in_hand fleet)
      (all_of done_by fleet)
unfolding from_query_category
timeline-MakesUp_example =
    timeline-MakesUp fleet "" (opened ∷ stream_of (taken (offers_by fleet)))
      (
        (ingest_worker-IsCounted, omega arith),
        (
          (rated_turns-CanRun, empty-IsTallied, omega arith),
          (
            (
              (
                quiet-IsFair idle false,
                (quiet-IsFair idle true, (quiet-IsFair (received none) false, tt)),
              ),
              (omega arith, tt),
              empty-IsTallied,
              omega arith,
            ),
            tt,
          ),
        ),
      )
      (record {
        events = omega arith;
        lost = omega arith;
        queries = omega arith;
        errors = omega arith;
      })
      (received-stream_of (taken (offers_by fleet)))

-- Three events, one of them lost, and seven queries with four errors.
fleet_done : all_of done_by fleet ≡ record { events = 3; lost = 1; queries = 7; errors = 4 }
unfolding from_query_category
fleet_done = refl
