-- ===== src/Worker/Query.antt =====
-- What crates/incidentbench-worker/src/query.rs counts of the queries that it runs, in the rate-controlled
-- loop and in the session loop, and the snapshots that it makes of them. A panic is `none`.
pub mod Errors
pub mod Moves
pub mod Counts
pub mod Accounts
use incident_bench.Base.{
  ℕ, zero, suc, ◌+◌, ◌/◌, ◌%◌, ◌*◌, max, String, ◌<>◌, Bool, true, false, ◌||◌, Option, none, some,
  List, [], ◌∷◌, ◌++◌, map, lookup, insert, unwrap_or, is_some, as_i64, as_i32, add_u64, ℤ, pos,
  F64, zero_f, ltb, if◌then◌else◌, get_elem?,
}
use incident_bench.Cluster.{Result, ok, err}
use incident_bench.Scenario.{QueryDef}
use incident_bench.Metrics.{latency_distribution_from_values}
use incident_bench.Aggregator.Snapshots.{
  WorkerMetricSnapshot, QueryTypeLatency, QueryErrorRecord, TimedOutQueryRecord,
}
use incident_bench.Worker.{Reading}
use incident_bench.Worker.Query.Errors.{Origin, query_error_record_parts, is_timeout_error}

-- `QueryResult` of crates/incidentbench-common/src/adapter.rs, without the count of rows.
pub record QueryResult (F : Type 0) : Type 0 where
  pub hit_count : ℕ
  pub error : Option String
  pub duration_ms : F
  pub timed_out : Bool

-- The counters of a second. In the rate-controlled loop there are no timeouts, and in the session
-- loop no plain list of latencies.
pub record Tally (F : Type 0) : Type 0 where
  pub queries_executed : ℕ
  pub query_errors : ℕ
  pub query_latencies : List F
  pub per_query_latencies : List (String × List F)
  pub per_query_executed : List (String × ℕ)
  pub per_query_errors : List (String × ℕ)
  pub pending_timeouts : List (TimedOutQueryRecord F)
  pub pending_error_records : List (QueryErrorRecord F)

-- `*entry(name).or_default() += 1`.
unfoldable pub count_at : String → List (String × ℕ) → List (String × ℕ)
count_at name m = insert name (add_u64 (unwrap_or (lookup name m) 0) 1) m

module _ {F : Type 0} where
  -- `entry(name).or_default().push(x)`.
  unfoldable pub push_at : String → F → List (String × List F) → List (String × List F)
  push_at name x m = insert name (unwrap_or (lookup name m) [] ++ x ∷ []) m

  abbrev pub empty_tally : Tally F
  empty_tally = record {
    queries_executed = 0;
    query_errors = 0;
    query_latencies = [];
    per_query_latencies = [];
    per_query_executed = [];
    per_query_errors = [];
    pending_timeouts = [];
    pending_error_records = [];
  }

  unfoldable pub count_executed : String → Tally F → Tally F
  unfolding count_at
  count_executed name t = record t {
    queries_executed = add_u64 t.queries_executed 1;
    per_query_executed = count_at name t.per_query_executed;
  }

  unfoldable pub push_latency : String → F → Tally F → Tally F
  unfolding push_at
  push_latency name x t = record t { per_query_latencies = push_at name x t.per_query_latencies }

  -- The rate-controlled loop keeps the latencies in one list too.
  unfoldable pub push_both : String → F → Tally F → Tally F
  unfolding push_latency
  push_both name x t = record (push_latency name x t) {
    query_latencies = t.query_latencies ++ x ∷ [];
  }

  unfoldable pub push_timeout : TimedOutQueryRecord F → Tally F → Tally F
  push_timeout r t = record t { pending_timeouts = t.pending_timeouts ++ r ∷ [] }

  unfoldable pub count_error : String → Option (QueryErrorRecord F) → Tally F → Option (Tally F)
  unfolding count_at
  count_error name none t = none
  count_error name (some r) t = some (record t {
    query_errors = add_u64 t.query_errors 1;
    per_query_errors = count_at name t.per_query_errors;
    pending_error_records = t.pending_error_records ++ r ∷ [];
  })

  -- `qr.error.as_deref().unwrap_or(...)`.
  abbrev message_of : QueryResult F → String
  message_of qr = unwrap_or qr.error (if qr.timed_out then "query timed out" else "query failed")

  -- The match on a result in the rate-controlled loop; `elapsed` is the time since the query was
  -- started, in milliseconds.
  unfoldable pub record_query :
      Origin → QueryDef → F → Result String (QueryResult F) → Tally F → Option (Tally F)
  unfolding count_executed push_both count_error query_error_record_parts
  record_query o q elapsed (ok qr) t =
      let counted = push_both q.name qr.duration_ms (count_executed q.name t) in
      if is_some qr.error || qr.timed_out
      then count_error q.name
          (query_error_record_parts q.name (unwrap_or q.category "") o qr.duration_ms qr.timed_out
            (message_of qr))
          counted
      else some counted
  record_query o q elapsed (err message) t =
      count_error q.name
        (query_error_record_parts q.name (unwrap_or q.category "") o elapsed
          (is_timeout_error message) message)
        (count_executed q.name t)

module _ {F : Type 0} ⦃fl : F64 F⦄ where
  -- The match on a result in the session loop.
  unfoldable pub record_session :
      Origin → String → QueryDef → ℕ → Result String (QueryResult F) → Tally F → Option (Tally F)
  unfolding count_executed push_latency push_timeout count_error query_error_record_parts
  record_session o category q timeout_ms (ok qr) t =
      let counted = push_latency q.name qr.duration_ms (count_executed q.name t) in
      if qr.timed_out
      then count_error q.name
          (query_error_record_parts q.name category o qr.duration_ms true
            (unwrap_or qr.error "query timed out"))
          (push_timeout
            record {
              query_name = q.name;
              category = category;
              phase = o.phase;
              timestamp_ms = o.timestamp_ms;
              duration_ms = qr.duration_ms;
              timeout_ms = as_i64 timeout_ms;
            }
            counted)
      else if is_some qr.error
      then count_error q.name
          (query_error_record_parts q.name category o qr.duration_ms false
            (unwrap_or qr.error "query failed"))
          counted
      else some counted
  record_session o category q timeout_ms (err message) t =
      count_error q.name
        (query_error_record_parts q.name category o zero_f (is_timeout_error message) message)
        (count_executed q.name t)

  type_latency : Tally F → String × List F → QueryTypeLatency F
  type_latency t (name, lats) = record {
    query_name = name;
    latency = some (latency_distribution_from_values lats);
    executed = as_i64 (unwrap_or (lookup name t.per_query_executed) 0);
    errors = as_i64 (unwrap_or (lookup name t.per_query_errors) 0);
  }

  -- `query_latency_by_type`: the queries that have a latency.
  unfoldable pub by_type : Tally F → List (QueryTypeLatency F)
  unfolding type_latency
  by_type t = map (type_latency t) t.per_query_latencies

  flatten : List (String × List F) → List F
  flatten [] = []
  flatten ((_, lats) ∷ m) = lats ++ flatten m

  -- `per_query_latencies.values().flatten()`.
  unfoldable pub all_latencies : Tally F → List F
  unfolding flatten
  all_latencies t = flatten t.per_query_latencies

  -- The snapshots of both loops. `latencies`, `target_rate` and `sessions` are what differs.
  unfoldable pub query_snapshot :
      String
      → String
      → ℕ
      → String
      → String
      → Reading F
      → List F
      → ℤ
      → ℤ
      → Tally F
      → WorkerMetricSnapshot F
  unfolding by_type
  query_snapshot mode id index group phase r latencies target_rate sessions t = record {
    worker_id = id;
    worker_mode = mode;
    worker_index = as_i32 index;
    timestamp_ns = as_i64 r.now_ns;
    phase = phase;
    events_produced = pos 0;
    events_acknowledged = pos 0;
    events_failed = pos 0;
    kafka_produce_latency = none;
    queries_executed = as_i64 t.queries_executed;
    query_errors = as_i64 t.query_errors;
    query_latency = some (latency_distribution_from_values latencies);
    query_latency_by_type = by_type t;
    query_group = group;
    cpu_utilization = r.cpu;
    memory_bytes = as_i64 r.memory_bytes;
    target_rate = target_rate;
    concurrent_sessions = sessions;
    timed_out_queries = t.pending_timeouts;
    query_error_records = t.pending_error_records;
  }
