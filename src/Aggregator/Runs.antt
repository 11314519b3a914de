-- ===== src/Aggregator/Runs.antt =====
-- Sequences of calls on the aggregator, and what they bring in.
use incident_bench.Base.{ℕ, String, ◌||◌, List, [], ◌∷◌, ◌++◌, filter, ◌==◌, str_eq, F64}
use incident_bench.Metrics.{AggregatedMetricPoint}
use incident_bench.Aggregator.Snapshots.{WorkerMetricSnapshot, SecondBucket}
use incident_bench.Aggregator.{
  AggregatorState, seconds, open_stream, receive, close_stream, record_lag,
}
use incident_bench.Aggregator.Service.{get_results}

-- A worker opens its stream, sends a snapshot or closes the stream; the lag of a stream is polled;
-- the results are asked for.
pub data Event {ℓ} (F : Type ℓ) : Type ℓ where
  opened : Event F
  snapshot : WorkerMetricSnapshot F → Event F
  closed : Event F
  polled : String → ℕ → Event F
  asked : Event F

module _ {ℓ} {F : Type ℓ} ⦃fl : F64 F⦄ where
  unfoldable pub apply : Event F → AggregatorState F → AggregatorState F
  apply opened s = open_stream s
  apply (snapshot snap) s = (receive snap s).state
  apply closed s = (close_stream s).0
  apply (polled stream lag) s = record_lag stream lag s
  apply asked s = (get_results s).state

  unfoldable pub run : List (Event F) → AggregatorState F → AggregatorState F
  run [] s = s
  run (e ∷ es) s = run es (apply e s)

module _ {ℓ} {F : Type ℓ} where
  abbrev pub sent_by : Event F → List (WorkerMetricSnapshot F)
  sent_by (snapshot snap) = snap ∷ []
  sent_by opened = []
  sent_by closed = []
  sent_by (polled stream lag) = []
  sent_by asked = []

  abbrev pub received : List (Event F) → List (WorkerMetricSnapshot F)
  received [] = []
  received (e ∷ es) = sent_by e ++ received es

  -- The snapshots of a second, and those of the ingest and of the query workers among them.
  abbrev pub at_second : ℕ → List (WorkerMetricSnapshot F) → List (WorkerMetricSnapshot F)
  at_second t snaps = filter (λ (s : WorkerMetricSnapshot F). seconds s.timestamp_ns == t) snaps

  abbrev pub by_mode : List (WorkerMetricSnapshot F) → SecondBucket F
  by_mode snaps = record {
    ingest_snapshots = filter (λ (s : WorkerMetricSnapshot F). str_eq s.worker_mode "ingest") snaps;
    query_snapshots =
        filter
          (λ (s : WorkerMetricSnapshot F).
            str_eq s.worker_mode "query" || str_eq s.worker_mode "query-session")
          snaps;
  }

  abbrev pub points_at : ℕ → List (AggregatedMetricPoint F) → List (AggregatedMetricPoint F)
  points_at t points = filter (λ (p : AggregatedMetricPoint F). p.timestamp_s == t) points
