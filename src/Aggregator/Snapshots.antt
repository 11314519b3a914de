-- ===== src/Aggregator/Snapshots.antt =====
-- What the workers report, from proto/worker.proto, and the one-second buckets that the aggregator
-- of crates/incidentbench-worker/src/aggregator.rs files it in.
use incident_bench.Base.{
  ℕ, ℤ, String, Bool, Option, none, some, List, [], ◌∷◌, ◌++◌, ◌==◌, if◌then◌else◌, str_eq, ◌||◌,
}
use incident_bench.Metrics.{LatencyDistribution}

pub record QueryTypeLatency {ℓ} (F : Type ℓ) : Type ℓ where
  pub query_name : String
  pub latency : Option (LatencyDistribution F)
  pub executed : ℤ
  pub errors : ℤ

pub record TimedOutQueryRecord {ℓ} (F : Type ℓ) : Type ℓ where
  pub query_name : String
  pub category : String
  pub phase : String
  pub timestamp_ms : ℤ
  pub duration_ms : F
  pub timeout_ms : ℤ

pub record QueryErrorRecord {ℓ} (F : Type ℓ) : Type ℓ where
  pub query_name : String
  pub category : String
  pub phase : String
  pub worker_id : String
  pub worker_index : ℤ
  pub timestamp_ms : ℤ
  pub duration_ms : F
  pub timed_out : Bool
  pub error_class : String
  pub message : String

pub record WorkerMetricSnapshot {ℓ} (F : Type ℓ) : Type ℓ where
  pub worker_id : String
  pub worker_mode : String
  pub worker_index : ℤ
  pub timestamp_ns : ℤ
  pub phase : String
  pub events_produced : ℤ
  pub events_acknowledged : ℤ
  pub events_failed : ℤ
  pub kafka_produce_latency : Option (LatencyDistribution F)
  pub queries_executed : ℤ
  pub query_errors : ℤ
  pub query_latency : Option (LatencyDistribution F)
  pub query_latency_by_type : List (QueryTypeLatency F)
  pub query_group : String
  pub cpu_utilization : F
  pub memory_bytes : ℤ
  pub target_rate : ℤ
  pub concurrent_sessions : ℤ
  pub timed_out_queries : List (TimedOutQueryRecord F)
  pub query_error_records : List (QueryErrorRecord F)

pub record SecondBucket {ℓ} (F : Type ℓ) : Type ℓ where
  pub ingest_snapshots : List (WorkerMetricSnapshot F)
  pub query_snapshots : List (WorkerMetricSnapshot F)

module _ {ℓ} {F : Type ℓ} where
  abbrev pub empty_bucket : SecondBucket F
  empty_bucket = record { ingest_snapshots = []; query_snapshots = [] }

  unfoldable pub bucket_at : ℕ → List (ℕ × SecondBucket F) → Option (SecondBucket F)
  bucket_at t [] = none
  bucket_at t ((u, b) ∷ rest) = let later = bucket_at t rest in if u == t then some b else later

  -- `match snapshot.worker_mode`.
  unfoldable pub push_snapshot : WorkerMetricSnapshot F → SecondBucket F → SecondBucket F
  push_snapshot snap b =
      if str_eq snap.worker_mode "ingest"
      then record b { ingest_snapshots = b.ingest_snapshots ++ snap ∷ [] }
      else if str_eq snap.worker_mode "query" || str_eq snap.worker_mode "query-session"
      then record b { query_snapshots = b.query_snapshots ++ snap ∷ [] }
      else b

  -- `entry(t).or_insert_with(empty)`, and the push.
  unfoldable pub file_snapshot :
      ℕ → WorkerMetricSnapshot F → List (ℕ × SecondBucket F) → List (ℕ × SecondBucket F)
  unfolding push_snapshot
  file_snapshot t snap [] = (t, push_snapshot snap empty_bucket) ∷ []
  file_snapshot t snap ((u, b) ∷ rest) =
      let later = file_snapshot t snap rest in
      if u == t then (u, push_snapshot snap b) ∷ rest else (u, b) ∷ later
