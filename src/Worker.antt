-- ===== src/Worker.antt =====
-- What the loops of the two workers of crates/incidentbench-worker/src share: the poll for an event of
-- the barrier, and the offer of a snapshot to the channel of the metrics.
pub mod Ingest
pub mod Query
pub mod Rated
pub mod Session
pub mod Phases
pub mod Sums
pub mod Fleet
pub mod Delivery
use incident_bench.Base.{
  Bool, true, false, Option, none, some, List, [], ◌∷◌, ◌++◌, sum, map, ◌≡◌, ℕ, ◌+◌, ℤ, max_zero,
  arith,
}
use incident_bench.Barrier.{
  PhaseEvent, Attempt, bad_address, connected, Outcome, connect, prepare_transition, transition,
  run_complete,
}
use incident_bench.Aggregator.Snapshots.{WorkerMetricSnapshot}

-- `timeout(0, next_event())`: nothing is there, or the channel gives an event, or `None` once it is
-- closed.
pub data Poll : Type 0 where
  idle : Poll
  received : Option PhaseEvent → Poll

-- What a snapshot reads besides the counters: the clock, and the load and the memory of the process,
-- which crates/incidentbench-worker/src/health.rs samples.
pub record Reading (F : Type 0) : Type 0 where
  pub now_ns : ℕ
  pub cpu : F
  pub memory_bytes : ℕ

-- `try_send`: the channel takes a snapshot, or it is full and the snapshot is dropped.
pub record Offer (F : Type 0) : Type 0 where
  pub taken : Bool
  pub snapshot : WorkerMetricSnapshot F

-- Where a turn of a loop ends: at its end, at the `break`, or in a panic.
pub data Turned (F S : Type 0) : Type 0 where
  continued : List (Offer F) → S → Turned F S
  ended : List (Offer F) → S → Turned F S
  panicked : Turned F S

-- A field of the snapshots, summed.
abbrev pub total_of : {F : Type 0} → (WorkerMetricSnapshot F → ℤ) → List (Offer F) → ℕ
total_of field offers = sum (map (λ (o : Offer _). max_zero (field o.snapshot)) offers)

module _ {F S : Type 0} where
  unfoldable pub with_offers : List (Offer F) → Turned F S → Turned F S
  with_offers out (continued more s) = continued (out ++ more) s
  with_offers out (ended more s) = ended (out ++ more) s
  with_offers out panicked = panicked

module _ {F T S : Type 0} where
  -- The loop over the turns that there are, up to the end of the run.
  unfoldable pub run_turns : (T → S → Turned F S) → List T → S → Turned F S
  unfolding with_offers
  run_turns step [] s = continued [] s
  run_turns step (t ∷ ts) s = elim (step t s) [
    | continued out s' ↦ with_offers out (run_turns step ts s')
    | ended out s' ↦ ended out s'
    | panicked ↦ panicked
  ]

-- Whether a poll ends the loop: the run is complete, or the channel is closed.
abbrev pub is_end : Poll → Bool
is_end idle = false
is_end (received none) = true
is_end (received (some run_complete)) = true
is_end (received (some (transition _ _ _ _))) = false
is_end (received (some (prepare_transition _ _))) = false

pub total_of-append :
    {F : Type 0} (field : WorkerMetricSnapshot F → ℤ) (xs ys : List (Offer F))
    → total_of field (xs ++ ys) ≡ total_of field xs + total_of field ys
total_of-append field [] ys = omega arith
total_of-append field (x ∷ xs) ys = omega (arith, total_of-append field xs ys)

-- An attempt of `stream_metrics_to_aggregator`: as one of `connect`, but a stream that stands may
-- break before the worker is done.
pub data StreamAttempt : Type 0 where
  no_address refused broken reported : StreamAttempt

as_attempt : StreamAttempt → Attempt
as_attempt no_address = bad_address
as_attempt refused = Attempt.failed
as_attempt broken = Attempt.failed
as_attempt reported = connected

-- Both workers have it. Its loop is that of `connect`, with the same number of attempts and the same
-- pauses: a broken stream is tried again as a failed connection is.
unfoldable pub stream_metrics : (ℕ → StreamAttempt) → Outcome
unfolding as_attempt
stream_metrics outcome = connect (λ attempt. as_attempt (outcome attempt))
