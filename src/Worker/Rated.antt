-- ===== src/Worker/Rated.antt =====
-- The rate-controlled loop of crates/incidentbench-worker/src/query.rs, behind the first transition. The
-- clock, the load of the process, the events of the barrier, the query that is drawn and the answer
-- of the adapter come in with each turn.
pub mod Counts
pub mod Phases
use incident_bench.Base.{
  ℕ, zero, suc, ◌+◌, ◌/◌, ◌%◌, ◌*◌, max, String, ◌<>◌, Bool, true, false, Option, none, some, List,
  [], ◌∷◌, ◌++◌, as_i64, as_u64, F64, ltb, if◌then◌else◌, get_elem?, unwrap_or, pos,
}
use incident_bench.Cluster.{Result, ok, err}
use incident_bench.RateLimiter
use incident_bench.RateLimiter.{TokenBucketRateLimiter, acquire, set_rate}
use incident_bench.Scenario.{QueryDef}
use incident_bench.Aggregator.Snapshots.{WorkerMetricSnapshot}
use incident_bench.Barrier.{PhaseEvent, prepare_transition, transition, run_complete}
use incident_bench.Worker.{Reading, Poll, idle, received, Offer, Turned, continued, ended, panicked}
use incident_bench.Worker.Query.{QueryResult, Tally, empty_tally, record_query, query_snapshot}
use incident_bench.Worker.Query.Errors.{Origin}

-- The variables of the loop, with what it reads of the configuration.
pub record RatedWorker (F : Type 0) : Type 0 where
  pub worker_id : String
  pub worker_index : ℕ
  pub query_group : String
  pub queries : List QueryDef
  pub current_phase : String
  pub current_rate_mqps : ℕ
  pub rate_limiter : TokenBucketRateLimiter F
  pub tally : Tally F

-- What a turn meets. `answer` is none where the timer of the worker runs out before the adapter
-- answers; `elapsed_ms` and `timestamp_ms` are read when a query has failed.
pub record RatedTurn (F : Type 0) : Type 0 where
  pub second_over : Bool
  pub reading : Reading F
  pub room : Bool
  pub poll : Poll
  pub refill_at : ℕ
  pub slept_until : ℕ
  pub drawn : ℕ
  pub answer : Option (Result String (QueryResult F))
  pub elapsed_ms : F
  pub timestamp_ms : ℕ

-- A number in a message: at most 20 digits of a `u64`.
digit : ℕ → String
digit n =
    unwrap_or (get_elem? ("0" ∷ "1" ∷ "2" ∷ "3" ∷ "4" ∷ "5" ∷ "6" ∷ "7" ∷ "8" ∷ "9" ∷ []) (n % 10))
      ""

digits : ℕ → ℕ → String → String
unfolding digit
digits zero n rest = rest
digits (suc fuel) n rest =
    let more = digits fuel (n / 10) (digit n <> rest) in if ltb n 10 then digit n <> rest else more

unfoldable pub timeout_message : ℕ → String
unfolding digits
timeout_message ms = "Query timed out after " <> digits 20 ms "" <> "ms"

-- `match timeout(...).await`.
unfoldable pub result_of :
    {F : Type 0} → QueryDef → Option (Result String (QueryResult F)) → Result String (QueryResult F)
unfolding timeout_message
result_of q (some r) = r
result_of q none = err (timeout_message (max q.timeout_ms 5000))

module _ {F : Type 0} ⦃fl : F64 F⦄ where
  -- The worker as it enters its first phase.
  unfoldable pub start_rated : String → ℕ → String → List QueryDef → String → ℕ → ℕ → RatedWorker F
  start_rated worker_id index group queries phase rate now = record {
    worker_id = worker_id;
    worker_index = index;
    query_group = group;
    queries = queries;
    current_phase = phase;
    current_rate_mqps = rate;
    rate_limiter = RateLimiter.new (fl.div (fl.of_nat rate) (fl.lit 1000 0)) now;
    tally = empty_tally;
  }

  unfoldable pub rated_snapshot : Reading F → RatedWorker F → WorkerMetricSnapshot F
  unfolding query_snapshot
  rated_snapshot r w =
      record (query_snapshot "query" w.worker_id w.worker_index w.query_group w.current_phase r
        w.tally.query_latencies (as_i64 w.current_rate_mqps) (pos 0) w.tally) {
          timed_out_queries = [];
        }

  unfoldable pub emit_rated : Bool → RatedTurn F → RatedWorker F → List (Offer F) × RatedWorker F
  unfolding rated_snapshot
  emit_rated false t w = ([], w)
  emit_rated true t w = (
    record { taken = t.room; snapshot = rated_snapshot t.reading w } ∷ [],
    record w { tally = empty_tally },
  )

  -- `new_target_rate as u64`, and the limiter at a thousandth of it.
  unfoldable pub change_rate : String → ℕ → RatedWorker F → RatedWorker F
  change_rate to rate w = record w {
    current_phase = to;
    current_rate_mqps = rate;
    rate_limiter = set_rate (fl.div (fl.of_nat rate) (fl.lit 1000 0)) w.rate_limiter;
  }

  abbrev pub rated_origin : RatedTurn F → RatedWorker F → Origin
  rated_origin t w = record {
    phase = w.current_phase;
    worker_id = w.worker_id;
    worker_index = w.worker_index;
    timestamp_ms = as_i64 t.timestamp_ms;
  }

  -- The next turn begins with the new counters; a panic ends the worker.
  unfoldable pub with_tally :
      List (Offer F) → RatedWorker F → Option (Tally F) → Turned F (RatedWorker F)
  with_tally out w none = panicked
  with_tally out w (some t) = continued out (record w { tally = t })

  unfoldable pub execute_drawn :
      Option QueryDef → RatedTurn F → List (Offer F) → RatedWorker F → Turned F (RatedWorker F)
  unfolding with_tally record_query result_of
  execute_drawn none t out w = panicked
  execute_drawn (some q) t out w =
      with_tally out w
        (record_query (rated_origin t w) q t.elapsed_ms (result_of q t.answer) w.tally)

  unfoldable pub execute : RatedTurn F → List (Offer F) → RatedWorker F → Turned F (RatedWorker F)
  unfolding execute_drawn
  execute t out w =
      execute_drawn (get_elem? w.queries t.drawn) t out
        (record w { rate_limiter = (acquire t.refill_at t.slept_until w.rate_limiter).limiter })

  unfoldable pub rated_poll :
      Poll → RatedTurn F → List (Offer F) → RatedWorker F → Turned F (RatedWorker F)
  unfolding execute change_rate
  rated_poll (received none) t out w = ended out w
  rated_poll (received (some run_complete)) t out w = ended out w
  rated_poll (received (some (transition _ to _ rate))) t out w =
      execute t out (change_rate to (as_u64 rate) w)
  rated_poll (received (some (prepare_transition _ _))) t out w = execute t out w
  rated_poll idle t out w = execute t out w

  unfoldable pub rated_turn : RatedTurn F → RatedWorker F → Turned F (RatedWorker F)
  unfolding emit_rated rated_poll
  rated_turn t w =
      rated_poll t.poll t (emit_rated t.second_over t w).0 (emit_rated t.second_over t w).1
