-- ===== src/PhaseController.antt =====
-- The phase controller of crates/incidentbench-worker/src/phase_controller.rs: its state, the
-- handler of the workers' streams, and the status request. A worker's channel is the number of its
-- stream; a handler that holds the lock is one step on the state. Logging is left out.
pub mod Counts
pub mod Once
pub mod Restart
pub mod Timeline
use incident_bench.Base.{
  ℕ, ◌+◌, ◌-◌, ◌/◌, ℤ, String, Bool, true, false, not, ◌&&◌, Option, none, some, List, [], ◌∷◌, map,
  leb, if◌then◌else◌, add_u32, sum_u64, as_i64, as_i32, insert, remove, lookup, get_elem?, str_eq,
  is_some,
}

pub record PhaseSpec : Type 0 where
  pub name : String
  pub duration_seconds : ℕ
  pub per_worker_ingest_eps : ℕ
  pub per_worker_query_mqps : ℕ

pub record PhaseControllerConfig : Type 0 where
  pub phases : List PhaseSpec
  pub expected_ingest_workers : ℕ
  pub expected_query_workers : ℕ
  pub worker_connect_timeout_s : ℕ
  pub checkpoint_path : Option String

-- worker id to its mode and channel
abbrev pub Workers : Type 0
Workers = List (String × (String × ℕ))

-- Instants are nanoseconds of the monotonic clock.
pub record PhaseControllerState : Type 0 where
  pub config : PhaseControllerConfig
  pub workers : Workers
  pub ready_ingest : ℕ
  pub ready_query : ℕ
  pub current_phase_index : ℕ
  pub phase_start : Option ℕ
  pub run_start : Option ℕ
  pub timeline_complete : Bool
  pub prepare_acks : ℕ

unfoldable pub new : PhaseControllerConfig → PhaseControllerState
new config = record {
  config = config;
  workers = [];
  ready_ingest = 0;
  ready_query = 0;
  current_phase_index = 0;
  phase_start = none;
  run_start = none;
  timeline_complete = false;
  prepare_acks = 0;
}

pub data Payload : Type 0 where
  ready : Payload
  prepare_ack : String → Payload
  done : Payload

pub record WorkerMessage : Type 0 where
  pub worker_id : String
  pub worker_mode : String
  pub payload : Option Payload

-- `"ingest" => ready_ingest += 1, "query" => ready_query += 1, _ => {}`.
unfoldable pub count_ready : String → PhaseControllerState → PhaseControllerState
count_ready mode s =
    if str_eq mode "ingest"
    then record s { ready_ingest = add_u32 s.ready_ingest 1 }
    else if str_eq mode "query"
    then record s { ready_query = add_u32 s.ready_query 1 }
    else s

-- The same with `saturating_sub(1)`.
unfoldable pub uncount_ready : String → PhaseControllerState → PhaseControllerState
uncount_ready mode s =
    if str_eq mode "ingest"
    then record s { ready_ingest = s.ready_ingest - 1 }
    else if str_eq mode "query"
    then record s { ready_query = s.ready_query - 1 }
    else s

unfoldable pub all_ready : PhaseControllerState → Bool
all_ready s =
    leb s.config.expected_ingest_workers s.ready_ingest
    && leb s.config.expected_query_workers s.ready_query

-- What one message leaves: the state, the stream's worker id, and whether "all workers ready" is
-- sent.
pub record Handled : Type 0 where
  pub state : PhaseControllerState
  pub id : String
  pub signal : Bool

unfoldable pub register : ℕ → WorkerMessage → PhaseControllerState → PhaseControllerState
unfolding count_ready
register channel msg s =
    count_ready msg.worker_mode
      (record s { workers = insert msg.worker_id (msg.worker_mode, channel) s.workers })

unfoldable pub handle : Option Payload → ℕ → String → WorkerMessage → PhaseControllerState → Handled
handle (some ready) channel id msg s =
    let s' = register channel msg s in
    record { state = s'; id = msg.worker_id; signal = all_ready s' }
handle (some (prepare_ack phase)) channel id msg s = record {
  state = record s { prepare_acks = add_u32 s.prepare_acks 1 };
  id = id;
  signal = false;
}
handle (some done) channel id msg s = record {
  state = record s { workers = remove msg.worker_id s.workers };
  id = id;
  signal = false;
}
handle none channel id msg s = record { state = s; id = id; signal = false }

-- The body of the inbound loop of `phase_stream`; `id` is the task's `worker_id`.
unfoldable pub handle_message : ℕ → String → WorkerMessage → PhaseControllerState → Handled
unfolding handle
handle_message channel id msg s = handle msg.payload channel id msg s

drop_worker : Option (String × ℕ) → String → PhaseControllerState → PhaseControllerState
unfolding uncount_ready
drop_worker none id s = s
drop_worker (some (mode, _)) id s = uncount_ready mode (record s { workers = remove id s.workers })

-- The end of the inbound task: the stream has closed.
unfoldable pub disconnect : String → PhaseControllerState → PhaseControllerState
unfolding drop_worker
disconnect id s = if str_eq id "" then s else drop_worker (lookup id s.workers) id s

pub record StatusResponse : Type 0 where
  pub state : String
  pub current_phase : String
  pub phase_elapsed_seconds : ℤ
  pub total_elapsed_seconds : ℤ
  pub total_duration_seconds : ℤ
  pub connected_ingest_workers : ℤ
  pub connected_query_workers : ℤ
  pub timeline_complete : Bool

abbrev elapsed : ℕ → Option ℕ → ℤ
elapsed now none = ℤ.pos 0
elapsed now (some start) = as_i64 ((now - start) / 1_000_000_000)

abbrev name_or_complete : Option PhaseSpec → String
name_or_complete none = "complete"
name_or_complete (some p) = p.name

-- `get_status`.
unfoldable pub get_status : ℕ → PhaseControllerState → StatusResponse
get_status now s = record {
  state =
      if s.timeline_complete
      then "complete"
      else if is_some s.run_start
      then "running"
      else "waiting";
  current_phase = name_or_complete (get_elem? s.config.phases s.current_phase_index);
  phase_elapsed_seconds = elapsed now s.phase_start;
  total_elapsed_seconds = elapsed now s.run_start;
  total_duration_seconds =
      as_i64 (sum_u64 (map (λ (p : PhaseSpec). p.duration_seconds) s.config.phases));
  connected_ingest_workers = as_i32 s.ready_ingest;
  connected_query_workers = as_i32 s.ready_query;
  timeline_complete = s.timeline_complete;
}
