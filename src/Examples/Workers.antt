-- ===== src/Examples/Workers.antt =====
-- The loops of the workers over a few turns, and the theorems on what they report.
use incident_bench.Base.{
  ℕ, zero, suc, pos, Bool, true, false, none, some, List, [], ◌∷◌, ◌≡◌, refl, arith, All,
}
use incident_bench.Cluster.{ok, err}
use incident_bench.Scenario.{QueryDef, sequential}
use incident_bench.Scenario.Session.{from_query_category}
use incident_bench.Barrier.{transition, run_complete}
use incident_bench.Worker.{Reading, Poll, idle, received, run_turns}
use incident_bench.Worker.Ingest.{IngestTurn, IngestWorker, turn}
use incident_bench.Worker.Ingest.Accounts as Ingest
use incident_bench.Worker.Ingest.Counts as Ingested
use incident_bench.Worker.Ingest.Accounts.{IsCounted}
use incident_bench.Worker.Query.{QueryResult, empty_tally}
use incident_bench.Worker.Query.Errors.{truncate_error_message}
use incident_bench.Worker.Query.Counts.{CanCut}
use incident_bench.Worker.Query.Accounts.{IsTallied}
use incident_bench.Worker.Rated.{RatedTurn, RatedWorker, rated_turn, result_of}
use incident_bench.Worker.Rated.Counts as Rated
use incident_bench.Worker.Rated.Counts.{CanRun}
use incident_bench.Worker.Session.{SessionWorker, Tick, tick}
use incident_bench.Worker.Session.Report as Sessions
use incident_bench.Worker.Session.Report.{IsFair}
use incident_bench.Examples.Milli.{Milli, milli}
use incident_bench.Examples.Loads.{queries, query_of}

abbrev ms : ℕ → Milli
ms n = record { thousandths = n }

abbrev reading : Reading Milli
reading = record { now_ns = 7; cpu = ms 10; memory_bytes = 4096 }

abbrev pub ingest_worker : IngestWorker Milli
ingest_worker = record {
  worker_id = "ingest-a";
  worker_index = 2;
  rate_table = record {
    worker_index = 0;
    total_workers = 1;
    phases =
        record { phase_name = "baseline"; duration_seconds = 60; ingest_eps = 5; query_mqps = 0 }
        ∷ [];
  };
  current_phase = "baseline";
  current_rate = 5;
  rate_limiter = record {
    rate = ms 5000;
    tokens = ms 5000;
    max_tokens = ms 5000;
    last_refill = 0;
    missed_ops = 0;
  };
  incident_mode = false;
  events_produced = 0;
  events_acked = 0;
  events_failed = 0;
  produce_latencies = [];
}

abbrev pub ingest_turn : IngestTurn Milli
ingest_turn = record {
  second_over = true;
  reading = reading;
  room = true;
  poll = idle;
  refill_at = 1000;
  slept_until = 2000;
  delivered = λ attempt. elim attempt [ zero ↦ false | suc _ ↦ true ];
  latency_ms = ms 3000;
}

abbrev pub ingest_turns : List (IngestTurn Milli)
ingest_turns =
    ingest_turn
    ∷ (record ingest_turn { delivered = λ _. false; second_over = false })
    ∷ (record ingest_turn {
      poll = received (some (transition "baseline" "surge" (pos 1) (pos 9)));
    })
    ∷ (record ingest_turn { poll = received (some run_complete) })
    ∷ []

pub ingest_worker-IsCounted : IsCounted ingest_worker
ingest_worker-IsCounted = record { produced = refl; timed = refl; small = omega arith }

events-Conserves_example :
    Ingest.Conserves
      (Ingest.events ingest_turns)
      (Ingest.lost ingest_turns)
      ingest_worker
      (run_turns turn ingest_turns ingest_worker)
events-Conserves_example =
    Ingested.events-Conserves ingest_turns ingest_worker ingest_worker-IsCounted (omega arith)

-- One of the three events is lost.
lost_one : Ingest.lost ingest_turns ≡ 1
lost_one = refl

abbrev pub rated_worker : RatedWorker Milli
rated_worker = record {
  worker_id = "query-a";
  worker_index = 3;
  query_group = "";
  queries = queries;
  current_phase = "baseline";
  current_rate_mqps = 2000;
  rate_limiter = ingest_worker.rate_limiter;
  tally = empty_tally;
}

abbrev answered : QueryResult Milli
answered = record { hit_count = 4; error = none; duration_ms = ms 12_000; timed_out = false }

abbrev slow : QueryResult Milli
slow = record { hit_count = 0; error = none; duration_ms = ms 9_000_000; timed_out = true }

abbrev pub rated_query : RatedTurn Milli
rated_query = record {
  second_over = true;
  reading = reading;
  room = false;
  poll = idle;
  refill_at = 1000;
  slept_until = 2000;
  drawn = 0;
  answer = some (ok answered);
  elapsed_ms = ms 12_000;
  timestamp_ms = 5;
}

abbrev pub rated_turns : List (RatedTurn Milli)
rated_turns =
    rated_query
    ∷ (record rated_query { answer = none; second_over = false })
    ∷ (record rated_query { answer = some (err "HTTP 503: out of memory") })
    ∷ (record rated_query { poll = received none })
    ∷ []

abbrev pub first_query : QueryDef
first_query = query_of "errors" "triage"

pub rated_turns-CanRun : All (CanRun queries) rated_turns
unfolding truncate_error_message result_of
rated_turns-CanRun = (
  (first_query, refl, refl),
  ((first_query, refl, refl), ((first_query, refl, refl), ((first_query, refl, refl), tt))),
)

pub empty-IsTallied : IsTallied {F = Milli} empty_tally
empty-IsTallied = record { recorded = refl; errors_le = omega arith; small = omega arith }

queries-Conserves_example :
    Rated.Conserves
      (Rated.run_by rated_turns)
      (Rated.failed_by rated_turns)
      rated_worker
      (run_turns rated_turn rated_turns rated_worker)
queries-Conserves_example =
    Rated.queries-Conserves rated_turns rated_worker rated_turns-CanRun empty-IsTallied
      (omega arith)

abbrev pub session_worker : SessionWorker Milli
session_worker = record {
  worker_id = "query-b";
  worker_index = 4;
  query_group = "dashboards";
  default_timeout_ms = 10_000;
  configured_sessions = pos 2;
  current_phase = "baseline";
  categories =
      from_query_category
        record { name = "overview"; queries = queries; iteration = sequential; parallelism = 2 }
      ∷ [];
  tally = empty_tally;
}

abbrev pub quiet : Tick Milli
quiet = record {
  second_over = false;
  reading = reading;
  room = true;
  last_reading = reading;
  last_room = true;
  poll = idle;
  now_ms = 3;
  sample = λ place len i. 0;
  answer = λ i. elim i [ zero ↦ ok answered | suc _ ↦ ok slow ];
}

abbrev pub ticks : List (Tick Milli)
ticks = quiet ∷ (record quiet { second_over = true }) ∷ (record quiet { poll = received none }) ∷ []

pub quiet-IsFair :
    (poll : Poll) (due : Bool) → IsFair (record quiet { poll = poll; second_over = due })
unfolding truncate_error_message
quiet-IsFair poll due = record {
  sampler = λ place len i h. h;
  cut = λ k. elim k as (λ k. CanCut ((record quiet { poll = poll }).answer k)) [
    | zero ↦ refl
    | suc _ ↦ refl
  ];
}

ticks-Conserves_example :
    Sessions.Conserves
      (Sessions.run_by 2 ticks)
      (Sessions.failed_by 2 ticks)
      session_worker
      (run_turns tick ticks session_worker)
unfolding from_query_category
ticks-Conserves_example =
    Sessions.ticks-Conserves ticks session_worker
      (quiet-IsFair idle false, (quiet-IsFair idle true, (quiet-IsFair (received none) false, tt)))
      (omega arith, tt) empty-IsTallied (omega arith)
