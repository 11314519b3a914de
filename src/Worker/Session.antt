-- ===== src/Worker/Session.antt =====
-- The session loop of crates/incidentbench-worker/src/query.rs: a batch of each category on every tick.
-- The clock, the load, the events of the barrier, the random draws and the answers of the adapter
-- come in with each tick.
pub mod Counts
pub mod Report
use incident_bench.Base.{
  ℕ, zero, suc, ◌+◌, String, Bool, true, false, ◌||◌, not, Option, none, some, List, [], ◌∷◌, ◌++◌,
  map, as_i64, as_i32, as_u32, sum_u32, ℤ, pos, F64, ltb, if◌then◌else◌, get_elem?, is_empty,
}
use incident_bench.Cluster.{Result, ok, err}
use incident_bench.Scenario.{QueryDef, QueryCategory, QuerySession}
use incident_bench.Scenario.Session.{
  SessionCategory, Batch, fired, next_batch_indices, from_query_category,
}
use incident_bench.Scenario.Session
use incident_bench.Aggregator.Snapshots.{WorkerMetricSnapshot}
use incident_bench.Barrier.{PhaseEvent, prepare_transition, transition, run_complete}
use incident_bench.Worker.{Reading, Poll, idle, received, Offer, Turned, continued, ended, panicked}
use incident_bench.Worker.Query.{
  QueryResult, Tally, empty_tally, record_session, query_snapshot, all_latencies,
}
use incident_bench.Worker.Query.Errors.{Origin}

-- The variables of the loop, with what it reads of the configuration. `configured_sessions` is the sum
-- of the categories' parallelism.
pub record SessionWorker (F : Type 0) : Type 0 where
  pub worker_id : String
  pub worker_index : ℕ
  pub query_group : String
  pub default_timeout_ms : ℕ
  pub configured_sessions : ℤ
  pub current_phase : String
  pub categories : List SessionCategory
  pub tally : Tally F

-- What a tick meets. `sample` draws for the category at a place; `answer i` is the adapter's for the
-- i-th query of the tick; `last_reading` and `last_room` are for the flush, should the run end here.
pub record Tick (F : Type 0) : Type 0 where
  pub second_over : Bool
  pub reading : Reading F
  pub room : Bool
  pub last_reading : Reading F
  pub last_room : Bool
  pub poll : Poll
  pub now_ms : ℕ
  pub sample : ℕ → ℕ → ℕ → ℕ
  pub answer : ℕ → Result String (QueryResult F)

-- The queries of a tick with the names of their categories, and the categories with their cursors
-- moved on.
pub record Work : Type 0 where
  pub items : List (String × QueryDef)
  pub categories : List SessionCategory

picked :
    String → Option QueryDef → Option (List (String × QueryDef)) → Option (List (String × QueryDef))
picked name none rest = none
picked name (some q) none = none
picked name (some q) (some rest) = some ((name, q) ∷ rest)

-- `cat.queries[idx]` of each index; `none` is the panic.
unfoldable pub pick : String → List QueryDef → List ℕ → Option (List (String × QueryDef))
unfolding picked
pick name queries [] = some []
pick name queries (i ∷ is) = picked name (get_elem? queries i) (pick name queries is)

add_batch : SessionCategory → Option (List (String × QueryDef)) → Option Work → Option Work
add_batch cat none rest = none
add_batch cat (some items) none = none
add_batch cat (some items) (some w) =
    some record { items = items ++ w.items; categories = cat ∷ w.categories }

work_batch : Batch → Option Work → Option Work
unfolding pick add_batch
work_batch (fired is cat) rest = add_batch cat (pick cat.name cat.queries is) rest
work_batch Session.panicked rest = none

-- `for cat in &mut categories`.
unfoldable pub work_of : (ℕ → ℕ → ℕ → ℕ) → ℕ → List SessionCategory → Option Work
unfolding work_batch next_batch_indices
work_of sample place [] = some record { items = []; categories = [] }
work_of sample place (cat ∷ cats) =
    work_batch (next_batch_indices (sample place) cat) (work_of sample (place + 1) cats)

-- The parallelism of the categories, each cast and all added up as an `i32`.
unfoldable pub parallel_sessions : List QueryCategory → ℤ
parallel_sessions cats =
    as_i32 (sum_u32 (map (λ (c : QueryCategory). as_u32 (as_i32 c.parallelism)) cats))

-- `if q.timeout_ms > 0 { q.timeout_ms } else { config.default_timeout_ms }`.
abbrev pub timeout_of : ℕ → QueryDef → ℕ
timeout_of default q = if ltb 0 q.timeout_ms then q.timeout_ms else default

module _ {F : Type 0} ⦃fl : F64 F⦄ where
  record_next :
      Origin
      → ℕ
      → (ℕ → Result String (QueryResult F))
      → ℕ
      → List (String × QueryDef)
      → Option (Tally F)
      → Option (Tally F)
  unfolding record_session
  record_next o default answer i [] t = t
  record_next o default answer i ((category, q) ∷ items) none = none
  record_next o default answer i ((category, q) ∷ items) (some t) =
      record_next o default answer (i + 1) items
        (record_session o category q (timeout_of default q) (answer i) t)

  -- The loop over the results, from the i-th on.
  unfoldable pub record_batch :
      Origin
      → ℕ
      → (ℕ → Result String (QueryResult F))
      → ℕ
      → List (String × QueryDef)
      → Tally F
      → Option (Tally F)
  unfolding record_next
  record_batch o default answer i items t = record_next o default answer i items (some t)

  -- The worker before its first tick.
  unfoldable pub start_session : String → ℕ → String → ℕ → String → QuerySession → SessionWorker F
  unfolding parallel_sessions from_query_category
  start_session worker_id index group default phase session = record {
    worker_id = worker_id;
    worker_index = index;
    query_group = group;
    default_timeout_ms = default;
    configured_sessions = parallel_sessions session.categories;
    current_phase = phase;
    categories = map from_query_category session.categories;
    tally = empty_tally;
  }

  unfoldable pub session_snapshot : ℤ → Reading F → SessionWorker F → WorkerMetricSnapshot F
  unfolding query_snapshot
  session_snapshot sessions r w =
      query_snapshot "query-session" w.worker_id w.worker_index w.query_group w.current_phase r
        (all_latencies w.tally) (pos 1) sessions w.tally

  unfoldable pub emit_session : Bool → Tick F → SessionWorker F → List (Offer F) × SessionWorker F
  unfolding session_snapshot
  emit_session false t w = ([], w)
  emit_session true t w = (
    record { taken = t.room; snapshot = session_snapshot (pos 1) t.reading w } ∷ [],
    record w { tally = empty_tally },
  )

  -- Whether the last, partial second has anything to flush.
  unfoldable pub has_rest : Tally F → Bool
  has_rest t =
      ltb 0 t.queries_executed
      || ltb 0 t.query_errors
      || not (is_empty t.per_query_latencies)
      || not (is_empty t.pending_timeouts)

  unfoldable pub flush : Tick F → SessionWorker F → List (Offer F)
  unfolding session_snapshot has_rest
  flush t w =
      if has_rest w.tally
      then record {
        taken = t.last_room;
        snapshot = session_snapshot w.configured_sessions t.last_reading w;
      }
        ∷ []
      else []

  abbrev pub session_origin : Tick F → SessionWorker F → Origin
  session_origin t w = record {
    phase = w.current_phase;
    worker_id = w.worker_id;
    worker_index = w.worker_index;
    timestamp_ms = as_i64 t.now_ms;
  }

  unfoldable pub with_batch :
      List (Offer F)
      → SessionWorker F
      → List SessionCategory
      → Option (Tally F)
      → Turned F (SessionWorker F)
  with_batch out w cats none = panicked
  with_batch out w cats (some t) = continued out (record w { tally = t; categories = cats })

  unfoldable pub run_work :
      Option Work → Tick F → List (Offer F) → SessionWorker F → Turned F (SessionWorker F)
  unfolding with_batch record_batch
  run_work none t out w = panicked
  run_work (some work) t out w =
      with_batch out w work.categories
        (record_batch (session_origin t w) w.default_timeout_ms t.answer 0 work.items w.tally)

  unfoldable pub fire : Tick F → List (Offer F) → SessionWorker F → Turned F (SessionWorker F)
  unfolding run_work work_of
  fire t out w = run_work (work_of t.sample 0 w.categories) t out w

  unfoldable pub session_poll :
      Poll → Tick F → List (Offer F) → SessionWorker F → Turned F (SessionWorker F)
  unfolding fire flush
  session_poll (received none) t out w = ended (out ++ flush t w) w
  session_poll (received (some run_complete)) t out w = ended (out ++ flush t w) w
  session_poll (received (some (transition _ to _ _))) t out w =
      fire t out (record w { current_phase = to })
  session_poll (received (some (prepare_transition _ _))) t out w = fire t out w
  session_poll idle t out w = fire t out w

  unfoldable pub tick : Tick F → SessionWorker F → Turned F (SessionWorker F)
  unfolding emit_session session_poll
  tick t w =
      session_poll t.poll t (emit_session t.second_over t w).0 (emit_session t.second_over t w).1
