-- ===== src/Worker/Fleet.antt =====
-- Workers of any kind with what their loops meet, and what they do, report and hold, in figures.
use incident_bench.Base.{ℕ, ◌+◌, ◌<◌, ◌^◌, ◌≡◌, List, [], ◌∷◌, ◌++◌, length, map, u64_mod, All, F64}
use incident_bench.Metrics.{AggregatedMetricPoint}
use incident_bench.Aggregator.Snapshots.{WorkerMetricSnapshot}
use incident_bench.Aggregator.Totals.{points_total}
use incident_bench.Worker.{Offer, Turned, continued, ended, panicked, run_turns}
use incident_bench.Worker.Sums.{is_ingest, measured}
use incident_bench.Worker.Ingest.{IngestTurn, IngestWorker, turn}
use incident_bench.Worker.Ingest.Accounts as Ingest
use incident_bench.Worker.Query.Accounts.{is_query, IsTallied}
use incident_bench.Worker.Query.{Tally}
use incident_bench.Worker.Rated.{RatedTurn, RatedWorker, rated_turn}
use incident_bench.Worker.Rated.Counts as Rated
use incident_bench.Worker.Session.{SessionWorker, Tick, tick}
use incident_bench.Worker.Session.Counts.{sizes, HaveQueries}
use incident_bench.Worker.Session.Report as Sessions

-- A worker of any kind, and what its loop meets.
pub data WorkerRun (F : Type 0) : Type 0 where
  ingest_run : IngestWorker F → List (IngestTurn F) → WorkerRun F
  rated_run : RatedWorker F → List (RatedTurn F) → WorkerRun F
  session_run : SessionWorker F → List (Tick F) → WorkerRun F

-- Events and queries, each with its failures.
pub record Figures : Type 0 where
  pub events : ℕ
  pub lost : ℕ
  pub queries : ℕ
  pub errors : ℕ

abbrev pub add : Figures → Figures → Figures
add a b = record {
  events = a.events + b.events;
  lost = a.lost + b.lost;
  queries = a.queries + b.queries;
  errors = a.errors + b.errors;
}

abbrev pub nothing : Figures
nothing = record { events = 0; lost = 0; queries = 0; errors = 0 }

-- `a` and `b` make up `c`.
pub record MakesUp (a b c : Figures) : Type 0 where
  pub events : a.events + b.events ≡ c.events
  pub lost : a.lost + b.lost ≡ c.lost
  pub queries : a.queries + b.queries ≡ c.queries
  pub errors : a.errors + b.errors ≡ c.errors

-- Figures that fit a `u64`.
pub record IsSmall (a : Figures) : Type 0 where
  pub events : a.events < u64_mod
  pub lost : a.lost < u64_mod
  pub queries : a.queries < u64_mod
  pub errors : a.errors < u64_mod

-- What the points of a timeline add up to.
abbrev pub in_timeline : {F : Type 0} → List (AggregatedMetricPoint F) → Figures
in_timeline points = record {
  events = points_total (λ p. p.ingest_events_produced) points;
  lost = points_total (λ p. p.ingest_events_failed) points;
  queries = points_total (λ p. p.query_executed) points;
  errors = points_total (λ p. p.query_errors) points;
}

module _ {F S : Type 0} where
  abbrev pub offers_of : Turned F S → List (Offer F)
  offers_of (continued out s) = out
  offers_of (ended out s) = out
  offers_of panicked = []

  -- What is counted at the end, by the state there.
  abbrev pub at_end : (S → Figures) → (S → Figures) → Turned F S → Figures
  at_end going over (continued out s) = going s
  at_end going over (ended out s) = over s
  at_end going over panicked = nothing

module _ {F : Type 0} ⦃fl : F64 F⦄ where
  abbrev pub offers : WorkerRun F → List (Offer F)
  offers (ingest_run w ts) = offers_of (run_turns turn ts w)
  offers (rated_run w ts) = offers_of (run_turns rated_turn ts w)
  offers (session_run w ts) = offers_of (run_turns tick ts w)

  -- The counters of a second.
  abbrev pub events_in : IngestWorker F → Figures
  events_in w = record {
    events = w.events_produced;
    lost = w.events_failed;
    queries = 0;
    errors = 0;
  }

  abbrev pub queries_in : Tally F → Figures
  queries_in t = record {
    events = 0;
    lost = 0;
    queries = t.queries_executed;
    errors = t.query_errors;
  }

  -- All that the worker does, with what its counters hold at the start.
  abbrev pub done_by : WorkerRun F → Figures
  done_by (ingest_run w ts) = record {
    events = w.events_produced + Ingest.events ts;
    lost = w.events_failed + Ingest.lost ts;
    queries = 0;
    errors = 0;
  }
  done_by (rated_run w ts) = record {
    events = 0;
    lost = 0;
    queries = w.tally.queries_executed + Rated.run_by ts;
    errors = w.tally.query_errors + Rated.failed_by ts;
  }
  done_by (session_run w ts) = record {
    events = 0;
    lost = 0;
    queries = w.tally.queries_executed + Sessions.run_by (sizes w.categories) ts;
    errors = w.tally.query_errors + Sessions.failed_by (sizes w.categories) ts;
  }

  -- What is in no snapshot at the end: the counters of the last second, but for a session that has
  -- ended.
  abbrev pub in_hand : WorkerRun F → Figures
  in_hand (ingest_run w ts) = at_end events_in events_in (run_turns turn ts w)
  in_hand (rated_run w ts) =
      at_end (λ v. queries_in v.tally) (λ v. queries_in v.tally) (run_turns rated_turn ts w)
  in_hand (session_run w ts) = at_end (λ v. queries_in v.tally) (λ v. nothing) (run_turns tick ts w)

  -- What the theorems on the loops ask of a worker.
  abbrev pub IsSound : WorkerRun F → Type 0
  IsSound (ingest_run w ts) = Ingest.IsCounted w × (w.events_produced + length ts < 2 ^ 63)
  IsSound (rated_run w ts) =
      All (Rated.CanRun w.queries) ts
      × IsTallied w.tally
      × (w.tally.queries_executed + length ts < 2 ^ 63)
  IsSound (session_run w ts) =
      All Sessions.IsFair ts
      × HaveQueries w.categories
      × IsTallied w.tally
      × (w.tally.queries_executed + Sessions.run_by (sizes w.categories) ts < 2 ^ 63)

  -- The snapshots of a list, of the mode, in figures.
  abbrev pub reported : List (WorkerMetricSnapshot F) → Figures
  reported snaps = record {
    events = measured is_ingest (λ s. s.events_produced) snaps;
    lost = measured is_ingest (λ s. s.events_failed) snaps;
    queries = measured is_query (λ s. s.queries_executed) snaps;
    errors = measured is_query (λ s. s.query_errors) snaps;
  }

  abbrev pub snapshots : List (Offer F) → List (WorkerMetricSnapshot F)
  snapshots out = map (λ (o : Offer F). o.snapshot) out

  -- All workers together.
  abbrev pub offers_by : List (WorkerRun F) → List (Offer F)
  offers_by [] = []
  offers_by (r ∷ rs) = offers r ++ offers_by rs

  abbrev pub all_of : (WorkerRun F → Figures) → List (WorkerRun F) → Figures
  all_of f [] = nothing
  all_of f (r ∷ rs) = add (f r) (all_of f rs)
