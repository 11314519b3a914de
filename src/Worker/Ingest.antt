-- ===== src/Worker/Ingest.antt =====
-- The loop of crates/incidentbench-worker/src/ingest.rs, behind the first transition. The clock, the load
-- of the process, the events of the barrier and the outcomes of Kafka come in with each turn. The
-- payload of an event is made by the generator and is not looked at here.
pub mod Accounts
pub mod Counts
pub mod Phases
use incident_bench.Base.{
  ℕ, zero, suc, ◌+◌, ◌*◌, String, Bool, true, false, Option, none, some, List, [], ◌∷◌, ◌++◌, find,
  contains, str_eq, unwrap_or, as_i64, as_i32, add_u64, pos, F64, if◌then◌else◌,
}
use incident_bench.RateLimiter
use incident_bench.RateLimiter.{TokenBucketRateLimiter, acquire, set_rate}
use incident_bench.Scenario.Rates.{WorkerRateTable, WorkerPhaseRate}
use incident_bench.Metrics.{latency_distribution_from_values}
use incident_bench.Aggregator.Snapshots.{WorkerMetricSnapshot}
use incident_bench.Barrier.{PhaseEvent, prepare_transition, transition, run_complete}
use incident_bench.Worker.{Reading, Poll, idle, received, Offer, Turned, continued, ended, panicked}

-- The variables of the loop; `worker_index` and `rate_table` are those of the configuration.
pub record IngestWorker (F : Type 0) : Type 0 where
  pub worker_id : String
  pub worker_index : ℕ
  pub rate_table : WorkerRateTable
  pub current_phase : String
  pub current_rate : ℕ
  pub rate_limiter : TokenBucketRateLimiter F
  pub incident_mode : Bool
  pub events_produced : ℕ
  pub events_acked : ℕ
  pub events_failed : ℕ
  pub produce_latencies : List F

-- What a turn meets: whether a second is over, what its snapshot reads, room in the channel, the poll, the
-- clock at the rate limiter, the outcome of each attempt to send, and how long the sends took.
pub record IngestTurn (F : Type 0) : Type 0 where
  pub second_over : Bool
  pub reading : Reading F
  pub room : Bool
  pub poll : Poll
  pub refill_at : ℕ
  pub slept_until : ℕ
  pub delivered : ℕ → Bool
  pub latency_ms : F

-- How the attempts at one event went: whether one was taken, how many were made, and the
-- milliseconds slept between them.
pub record Produced : Type 0 where
  pub send_ok : Bool
  pub attempts : ℕ
  pub slept_ms : ℕ

-- `for attempt in 0..3`, with `left` attempts to go from `attempt` on.
unfoldable pub send_from : (ℕ → Bool) → ℕ → ℕ → ℕ → Produced
send_from delivered zero attempt slept = record {
  send_ok = false;
  attempts = attempt;
  slept_ms = slept;
}
send_from delivered (suc left) attempt slept =
    let again =
      send_from delivered left (attempt + 1)
        (slept + (elim left [ zero ↦ 0 | suc _ ↦ 50 * (attempt + 1) ])) in
    if delivered attempt
    then record { send_ok = true; attempts = attempt + 1; slept_ms = slept }
    else again

unfoldable pub send_event : (ℕ → Bool) → Produced
unfolding send_from
send_event delivered = send_from delivered 3 0 0

rate_or_zero : Option WorkerPhaseRate → ℕ
rate_or_zero none = 0
rate_or_zero (some p) = p.ingest_eps

-- The worker's own rate for a phase; 0 where its table has no such phase.
unfoldable pub table_rate : WorkerRateTable → String → ℕ
unfolding rate_or_zero
table_rate table phase =
    rate_or_zero (find (λ (p : WorkerPhaseRate). str_eq p.phase_name phase) table.phases)

abbrev incident_phases : List String
incident_phases = "incident_trigger" ∷ "ingestion_surge" ∷ "overlap" ∷ []

unfoldable pub is_incident : String → Bool
is_incident phase = contains incident_phases phase

module _ {F : Type 0} ⦃fl : F64 F⦄ where
  -- The worker as it enters its first phase.
  unfoldable pub first_phase : String → ℕ → WorkerRateTable → String → ℕ → IngestWorker F
  first_phase worker_id index table phase now = record {
    worker_id = worker_id;
    worker_index = index;
    rate_table = table;
    current_phase = phase;
    current_rate = table_rate table phase;
    rate_limiter = RateLimiter.new (fl.of_nat (table_rate table phase)) now;
    incident_mode = is_incident phase;
    events_produced = 0;
    events_acked = 0;
    events_failed = 0;
    produce_latencies = [];
  }

  unfoldable pub ingest_snapshot : Reading F → IngestWorker F → WorkerMetricSnapshot F
  ingest_snapshot r w = record {
    worker_id = w.worker_id;
    worker_mode = "ingest";
    worker_index = as_i32 w.worker_index;
    timestamp_ns = as_i64 r.now_ns;
    phase = w.current_phase;
    events_produced = as_i64 w.events_produced;
    events_acknowledged = as_i64 w.events_acked;
    events_failed = as_i64 w.events_failed;
    kafka_produce_latency = some (latency_distribution_from_values w.produce_latencies);
    queries_executed = pos 0;
    query_errors = pos 0;
    query_latency = none;
    query_latency_by_type = [];
    query_group = "";
    cpu_utilization = r.cpu;
    memory_bytes = as_i64 r.memory_bytes;
    target_rate = as_i64 w.current_rate;
    concurrent_sessions = pos 0;
    timed_out_queries = [];
    query_error_records = [];
  }

  unfoldable pub reset : IngestWorker F → IngestWorker F
  reset w = record w {
    events_produced = 0;
    events_acked = 0;
    events_failed = 0;
    produce_latencies = [];
  }

  -- `if second_start.elapsed() >= 1s`.
  unfoldable pub emit : Bool → IngestTurn F → IngestWorker F → List (Offer F) × IngestWorker F
  unfolding ingest_snapshot reset
  emit false t w = ([], w)
  emit true t w = (record { taken = t.room; snapshot = ingest_snapshot t.reading w } ∷ [], reset w)

  unfoldable pub enter_phase : String → IngestWorker F → IngestWorker F
  enter_phase to w = record w {
    current_phase = to;
    current_rate = table_rate w.rate_table to;
    rate_limiter = set_rate (fl.of_nat (table_rate w.rate_table to)) w.rate_limiter;
    incident_mode = is_incident to;
  }

  -- The count of one event.
  unfoldable pub count_event : Bool → F → IngestWorker F → IngestWorker F
  count_event true latency w = record w {
    events_produced = add_u64 w.events_produced 1;
    events_acked = add_u64 w.events_acked 1;
    produce_latencies = w.produce_latencies ++ latency ∷ [];
  }
  count_event false latency w = record w {
    events_produced = add_u64 w.events_produced 1;
    events_failed = add_u64 w.events_failed 1;
  }

  unfoldable pub produce : IngestTurn F → IngestWorker F → IngestWorker F
  unfolding count_event send_event
  produce t w =
      count_event (send_event t.delivered).send_ok t.latency_ms
        (record w { rate_limiter = (acquire t.refill_at t.slept_until w.rate_limiter).limiter })

  -- A turn behind the snapshot.
  unfoldable pub after_poll :
      Poll → IngestTurn F → List (Offer F) → IngestWorker F → Turned F (IngestWorker F)
  unfolding produce enter_phase
  after_poll (received none) t out w = ended out w
  after_poll (received (some run_complete)) t out w = ended out w
  after_poll (received (some (transition _ to _ _))) t out w =
      continued out (produce t (enter_phase to w))
  after_poll (received (some (prepare_transition _ _))) t out w = continued out (produce t w)
  after_poll idle t out w = continued out (produce t w)

  unfoldable pub turn : IngestTurn F → IngestWorker F → Turned F (IngestWorker F)
  unfolding emit after_poll
  turn t w = after_poll t.poll t (emit t.second_over t w).0 (emit t.second_over t w).1
