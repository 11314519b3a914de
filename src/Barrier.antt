-- ===== src/Barrier.antt =====
-- The worker's side of the barrier, crates/incidentbench-worker/src/barrier.rs: the task that turns
-- the controller's messages into events and acknowledgements, the wait for the next transition, and
-- the retries of `connect`.

pub mod Messages
pub mod Transitions
pub mod Retry
use incident_bench.Base.{
  ℕ, zero, suc, ◌+◌, ◌*◌, ◌-◌, min, ℤ, pos, negsuc, sub_i64, as_i64, String, Bool, Option, none,
  some, List, [], ◌∷◌, if◌then◌else◌, ◌==◌,
}
use incident_bench.PhaseController.Timeline.{ControllerMessage}

pub data PhaseEvent : Type 0 where
  prepare_transition : String → String → PhaseEvent
  transition : String → String → ℤ → ℤ → PhaseEvent
  run_complete : PhaseEvent

-- What the inbound task delivers: the events for the worker loop, and the phases of the
-- `PrepareAck`s that it sends.
pub record Inbound : Type 0 where
  pub events : List PhaseEvent
  pub acks : List String

-- The loop of the task over the payloads of the stream, up to the end of the run.
unfoldable pub inbound : List (Option ControllerMessage) → Inbound
inbound [] = record { events = []; acks = [] }
inbound (none ∷ rest) = inbound rest
inbound (some (ControllerMessage.prepare_transition from to) ∷ rest) =
    let r = inbound rest in
    record { events = prepare_transition from to ∷ r.events; acks = from ∷ r.acks }
inbound (some (ControllerMessage.phase_transition from to time rate) ∷ rest) =
    let r = inbound rest in record r { events = transition from to time rate ∷ r.events }
inbound (some ControllerMessage.run_complete ∷ rest) = record {
  events = run_complete ∷ [];
  acks = [];
}

-- The result of `wait_for_transition`: the new phase, its rate, and the nanoseconds slept.
pub record Entered : Type 0 where
  pub phase : String
  pub rate : ℤ
  pub slept : ℕ

-- `if wait_ns > 0 { sleep(wait_ns as u64) }`.
abbrev pub wait_ns : ℤ → ℕ
wait_ns (pos n) = n
wait_ns (negsuc n) = 0

-- `now` is the clock when a transition is received. The events that are left come second; a closed
-- channel and the end of the run both give `None`.
unfoldable pub wait_for_transition : ℕ → List PhaseEvent → Option Entered × List PhaseEvent
wait_for_transition now [] = (none, [])
wait_for_transition now (prepare_transition from to ∷ rest) = wait_for_transition now rest
wait_for_transition now (transition from to time rate ∷ rest) =
    (some (record { phase = to; rate = rate; slept = wait_ns (sub_i64 time (as_i64 now)) }), rest)
wait_for_transition now (run_complete ∷ rest) = (none, rest)

-- An attempt of `connect`: the address does not parse, the connection fails, or it stands.
pub data Attempt : Type 0 where
  bad_address failed connected : Attempt

-- How the loop of `connect` ends, with the seconds that it has slept.
pub data Outcome : Type 0 where
  bad_uri : ℕ → Outcome
  gave_up : ℕ → Outcome
  connected_after : ℕ → ℕ → Outcome

abbrev pub max_retries : ℕ
max_retries = 30

abbrev pub max_backoff : ℕ
max_backoff = 10

-- `for attempt in 1..=max_retries`, with `left` attempts to go behind this one.
unfoldable pub try_connect : (ℕ → Attempt) → ℕ → ℕ → ℕ → ℕ → Outcome
try_connect outcome zero attempt backoff slept = elim (outcome attempt) [
  | bad_address ↦ bad_uri slept
  | failed ↦ gave_up slept
  | connected ↦ connected_after attempt slept
]
try_connect outcome (suc left) attempt backoff slept = elim (outcome attempt) [
  | bad_address ↦ bad_uri slept
  | failed ↦
      try_connect outcome left (attempt + 1) (min (backoff * 2) max_backoff) (slept + backoff)
  | connected ↦ connected_after attempt slept
]

unfoldable pub connect : (ℕ → Attempt) → Outcome
unfolding try_connect
connect outcome = try_connect outcome (max_retries - 1) 1 1 0
