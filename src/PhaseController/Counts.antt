-- ===== src/PhaseController/Counts.antt =====
-- The counts of ready workers against the workers that are registered, over every interleaving of
-- the workers' streams.
use incident_bench.Base.{
  ℕ, suc, ◌+◌, ◌≤◌, ◌<◌, ◌≡◌, sym, ◌∙◌, inl, inr, String, true, Option, none, some, List, [], ◌∷◌,
  arith, ◌==◌, if◌then◌else◌, length, lookup, insert, remove, str_eq, eq_iff, add_u32, u32_mod,
  Option-cases,
}
use incident_bench.PhaseController.{
  PhaseControllerConfig, PhaseControllerState, Workers, Payload, ready, prepare_ack, done,
  WorkerMessage, new, register, handle, handle_message, disconnect,
}

-- A message on a stream, or the end of a stream.
pub data Event : Type 0 where
  message : ℕ → WorkerMessage → Event
  closed : ℕ → Event

-- The service with the `worker_id` of each stream's task.
pub record Service : Type 0 where
  pub state : PhaseControllerState
  pub ids : ℕ → String

abbrev pub start : PhaseControllerConfig → Service
start config = record { state = new config; ids = λ _. "" }

unfoldable pub step : Event → Service → Service
step (message channel msg) v =
    let h = handle_message channel (v.ids channel) msg v.state in
    record { state = h.state; ids = λ c. if c == channel then h.id else v.ids c }
step (closed channel) v = record v { state = disconnect (v.ids channel) v.state }

unfoldable pub steps : List Event → Service → Service
steps [] v = v
steps (e ∷ es) v = steps es (step e v)

-- How many registered workers have a mode.
abbrev pub registered : String → Workers → ℕ
registered mode [] = 0
registered mode ((id, (m, c)) ∷ ws) = (if str_eq m mode then 1 else 0) + registered mode ws

registered-insert :
    (mode id m : String) (c : ℕ) (ws : Workers)
    → registered mode (insert id (m, c) ws) ≤ (if str_eq m mode then 1 else 0) + registered mode ws
unfolding insert
registered-insert mode id m c [] = omega arith
registered-insert mode id m c ((j, (n, d)) ∷ ws) = ground (arith, registered-insert mode id m c ws)

pub registered-insert_new :
    (mode id m : String) (c : ℕ) (ws : Workers)
    → lookup id ws ≡ none
    → registered mode (insert id (m, c) ws) ≡ (if str_eq m mode then 1 else 0) + registered mode ws
unfolding insert lookup
registered-insert_new mode id m c [] h = omega arith
registered-insert_new mode id m c ((j, (n, d)) ∷ ws) h =
    ground (arith, registered-insert_new mode id m c ws)

registered-remove :
    (mode id : String) (ws : Workers) → registered mode (remove id ws) ≤ registered mode ws
unfolding remove
registered-remove mode id [] = omega arith
registered-remove mode id ((j, (n, d)) ∷ ws) = ground (arith, registered-remove mode id ws)

registered-remove-some :
    (mode id m : String) (c : ℕ) (ws : Workers)
    → lookup id ws ≡ some (m, c)
    → registered mode (remove id ws) + (if str_eq m mode then 1 else 0) ≤ registered mode ws
unfolding remove lookup
registered-remove-some mode id m c [] h = cc
registered-remove-some mode id m c ((j, (n, d)) ∷ ws) h =
    ground (arith, registered-remove-some mode id m c ws, registered-remove mode id ws)

pub mode_clash : (m : String) → str_eq m "ingest" ≡ true → ¬ (str_eq m "query" ≡ true)
mode_clash m p q =
    let e : ◌≡◌ {A = String} "ingest" "query" =
      sym ((eq_iff m "ingest").0 p) ∙ (eq_iff m "query").0 q in
    let f = (eq_iff "ingest" "query").1 e in cc

-- After `n` events the counts cover the registered workers, and are at most `n`.
pub record IsCovered (n : ℕ) (s : PhaseControllerState) : Type 0 where
  pub ingest : registered "ingest" s.workers ≤ s.ready_ingest
  pub query : registered "query" s.workers ≤ s.ready_query
  pub ingest_le : s.ready_ingest ≤ n
  pub query_le : s.ready_query ≤ n

register-IsCovered :
    (n channel : ℕ) (msg : WorkerMessage) (s : PhaseControllerState)
    → suc n < u32_mod
    → IsCovered n s
    → IsCovered (suc n) (register channel msg s)
unfolding register add_u32
register-IsCovered n channel msg s h c = ground (
  arith,
  mode_clash msg.worker_mode,
  registered-insert "ingest" msg.worker_id msg.worker_mode channel s.workers,
  registered-insert "query" msg.worker_id msg.worker_mode channel s.workers,
)

pub disconnect-IsCovered :
    (n : ℕ) (id : String) (s : PhaseControllerState)
    → IsCovered n s
    → IsCovered (suc n) (disconnect id s)
unfolding disconnect
disconnect-IsCovered n id s c = elim (Option-cases (lookup id s.workers)) [
  | inl e ↦ ground arith
  | inr (w, e) ↦ ground (
    arith,
    mode_clash w.0,
    registered-remove-some "ingest" id w.0 w.1 s.workers,
    registered-remove-some "query" id w.0 w.1 s.workers,
  )
]

pub handle-IsCovered :
    (p : Option Payload) (n channel : ℕ) (id : String) (msg : WorkerMessage)
    (s : PhaseControllerState)
    → suc n < u32_mod
    → IsCovered n s
    → IsCovered (suc n) (handle p channel id msg s).state
unfolding handle
handle-IsCovered none n channel id msg s h c = ground arith
handle-IsCovered (some ready) n channel id msg s h c = register-IsCovered n channel msg s h c
handle-IsCovered (some (prepare_ack phase)) n channel id msg s h c = ground arith
handle-IsCovered (some done) n channel id msg s h c = ground (
  arith,
  registered-remove "ingest" msg.worker_id s.workers,
  registered-remove "query" msg.worker_id s.workers,
)

pub steps-IsCovered :
    (es : List Event) (n : ℕ) (v : Service)
    → n + length es < u32_mod
    → IsCovered n v.state
    → IsCovered (n + length es) (steps es v).state
unfolding steps step handle_message
steps-IsCovered [] n v h c = let e : n + 0 ≡ n = omega arith in rw e c
steps-IsCovered (message channel msg ∷ es) n v h c =
    let e : n + suc (length es) ≡ suc n + length es = omega arith in
    rw e (
      steps-IsCovered es (suc n) (step (message channel msg) v) (omega arith)
        (handle-IsCovered msg.payload n channel (v.ids channel) msg v.state (omega arith) c))
steps-IsCovered (closed channel ∷ es) n v h c =
    let e : n + suc (length es) ≡ suc n + length es = omega arith in
    rw e (
      steps-IsCovered es (suc n) (step (closed channel) v) (omega arith)
        (disconnect-IsCovered n (v.ids channel) v.state c))

-- Over every interleaving of fewer than 2^32 messages and ends of streams, the counts of ready ingest
-- and query workers are never below the numbers of such workers that are registered, and at most
-- the number of events.
pub steps_cover :
    (config : PhaseControllerConfig) (es : List Event)
    → length es < u32_mod
    → let s = (steps es (start config)).state in
      (registered "ingest" s.workers ≤ s.ready_ingest)
      × (registered "query" s.workers ≤ s.ready_query)
      × (s.ready_ingest ≤ length es)
      × (s.ready_query ≤ length es)
unfolding new
steps_cover config es h =
    let c = steps-IsCovered es 0 (start config) (omega arith) (omega arith) in omega (arith, c)
