-- ===== src/PhaseController/Once.antt =====
-- Workers that report ready once each: the counts are then exact, and "all workers ready" is sent
-- just when enough workers are registered.
use mathlib.Core.Path.{subst}
use incident_bench.Base.{
  sym, ℕ, suc, ◌+◌, ◌≤◌, ◌<◌, ◌≡◌, refl, ◌∙◌, ◌↔◌, String, true, Option, none, some, List, [], ◌∷◌,
  arith, if◌then◌else◌, length, lookup, insert, remove, str_eq, eq_iff, add_u32, u32_mod,
  lookup-insert, lookup-remove, Option-cases, inl, inr,
}
use incident_bench.PhaseController.{
  PhaseControllerConfig, PhaseControllerState, Workers, Payload, ready, prepare_ack, done,
  WorkerMessage, Handled, new, all_ready, register, handle, handle_message, disconnect,
}
use incident_bench.PhaseController.Counts.{
  Event, message, closed, Service, start, step, steps, registered, registered-insert_new,
  mode_clash, IsCovered, handle-IsCovered, disconnect-IsCovered, steps-IsCovered,
}

abbrev Unique : Workers → Type 0
Unique [] = Unit
Unique ((id, w) ∷ ws) = (lookup id ws ≡ none) × Unique ws

insert-Unique : (id : String) (w : String × ℕ) (ws : Workers) → Unique ws → Unique (insert id w ws)
unfolding insert lookup
insert-Unique id w [] u = (refl, tt)
insert-Unique id w ((j, v) ∷ ws) u =
    ground (arith, eq_iff j id, eq_iff id j, lookup-insert id j w ws, insert-Unique id w ws)

remove-Unique : (id : String) (ws : Workers) → Unique ws → Unique (remove id ws)
unfolding remove
remove-Unique id [] u = tt
remove-Unique id ((j, v) ∷ ws) u = ground (arith, lookup-remove id j ws, remove-Unique id ws)

remove_absent : (id : String) (ws : Workers) → lookup id ws ≡ none → remove id ws ≡ ws
unfolding remove lookup
remove_absent id [] h = refl
remove_absent id ((j, v) ∷ ws) h = ground (arith, remove_absent id ws)

registered-remove-Unique :
    (mode id m : String) (c : ℕ) (ws : Workers)
    → lookup id ws ≡ some (m, c)
    → Unique ws
    → registered mode (remove id ws) + (if str_eq m mode then 1 else 0) ≡ registered mode ws
unfolding remove lookup
registered-remove-Unique mode id m c [] h u = cc
registered-remove-Unique mode id m c ((j, (n, d)) ∷ ws) h u =
    ground (arith, eq_iff j id, registered-remove-Unique mode id m c ws, remove_absent id ws)

record IsExact (s : PhaseControllerState) : Type 0 where
  unique : Unique s.workers
  ingest : s.ready_ingest ≡ registered "ingest" s.workers
  query : s.ready_query ≡ registered "query" s.workers

register-IsExact :
    (n channel : ℕ) (msg : WorkerMessage) (s : PhaseControllerState)
    → s.ready_ingest + 1 < u32_mod
    → s.ready_query + 1 < u32_mod
    → lookup msg.worker_id s.workers ≡ none
    → IsExact s
    → IsExact (register channel msg s)
unfolding register add_u32
register-IsExact n channel msg s h k a x = ground (
  arith,
  mode_clash msg.worker_mode,
  insert-Unique msg.worker_id (msg.worker_mode, channel) s.workers,
  registered-insert_new "ingest" msg.worker_id msg.worker_mode channel s.workers,
  registered-insert_new "query" msg.worker_id msg.worker_mode channel s.workers,
)

disconnect-IsExact :
    (id : String) (s : PhaseControllerState) → IsExact s → IsExact (disconnect id s)
unfolding disconnect
disconnect-IsExact id s x = elim (Option-cases (lookup id s.workers)) [
  | inl e ↦ ground arith
  | inr (w, e) ↦ ground (
    arith,
    mode_clash w.0,
    remove-Unique id s.workers,
    registered-remove-Unique "ingest" id w.0 w.1 s.workers,
    registered-remove-Unique "query" id w.0 w.1 s.workers,
  )
]

-- A worker reports ready only while its id is not registered, and none says that it is done.
abbrev Polite : Option Payload → WorkerMessage → PhaseControllerState → Type 0
Polite none msg s = Unit
Polite (some ready) msg s = lookup msg.worker_id s.workers ≡ none
Polite (some (prepare_ack phase)) msg s = Unit
Polite (some done) msg s = ⊥

abbrev pub AllPolite : List Event → Service → Type 0
AllPolite [] v = Unit
AllPolite (message channel msg ∷ es) v =
    Polite msg.payload msg v.state × AllPolite es (step (message channel msg) v)
AllPolite (closed channel ∷ es) v = AllPolite es (step (closed channel) v)

handle-IsExact :
    (p : Option Payload) (n channel : ℕ) (id : String) (msg : WorkerMessage)
    (s : PhaseControllerState)
    → s.ready_ingest + 1 < u32_mod
    → s.ready_query + 1 < u32_mod
    → Polite p msg s
    → IsExact s
    → IsExact (handle p channel id msg s).state
unfolding handle
handle-IsExact none n channel id msg s h k a x = ground arith
handle-IsExact (some ready) n channel id msg s h k a x = register-IsExact n channel msg s h k a x
handle-IsExact (some (prepare_ack phase)) n channel id msg s h k a x = ground arith
handle-IsExact (some done) n channel id msg s h k a x = absurd a

steps-IsExact :
    (es : List Event) (n : ℕ) (v : Service)
    → n + length es < u32_mod
    → IsCovered n v.state
    → AllPolite es v
    → IsExact v.state
    → IsExact (steps es v).state
unfolding steps step handle_message
steps-IsExact [] n v h c a x = x
steps-IsExact (message channel msg ∷ es) n v h c a x =
    steps-IsExact es (suc n) (step (message channel msg) v) (omega arith)
      (handle-IsCovered msg.payload n channel (v.ids channel) msg v.state (omega arith) c) a.1
      (handle-IsExact msg.payload n channel (v.ids channel) msg v.state (omega (arith, c.ingest_le))
        (omega (arith, c.query_le)) a.0 x)
steps-IsExact (closed channel ∷ es) n v h c a x =
    steps-IsExact es (suc n) (step (closed channel) v) (omega arith)
      (disconnect-IsCovered n (v.ids channel) v.state c) a
      (disconnect-IsExact (v.ids channel) v.state x)

handle-config :
    (p : Option Payload) (channel : ℕ) (id : String) (msg : WorkerMessage)
    (s : PhaseControllerState)
    → (handle p channel id msg s).state.config ≡ s.config
unfolding handle register
handle-config none channel id msg s = refl
handle-config (some ready) channel id msg s = ground arith
handle-config (some (prepare_ack phase)) channel id msg s = refl
handle-config (some done) channel id msg s = refl

disconnect-config : (id : String) (s : PhaseControllerState) → (disconnect id s).config ≡ s.config
unfolding disconnect
disconnect-config id s = ground arith

steps-config : (es : List Event) (v : Service) → (steps es v).state.config ≡ v.state.config
unfolding steps step handle_message
steps-config [] v = refl
steps-config (message channel msg ∷ es) v =
    steps-config es (step (message channel msg) v)
    ∙ handle-config msg.payload channel (v.ids channel) msg v.state
steps-config (closed channel ∷ es) v =
    steps-config es (step (closed channel) v) ∙ disconnect-config (v.ids channel) v.state

abbrev Signals : PhaseControllerConfig → Handled → Type 0
Signals config h = (h.signal ≡ true) ↔ (
    (config.expected_ingest_workers ≤ registered "ingest" h.state.workers)
    × (config.expected_query_workers ≤ registered "query" h.state.workers))

handle-Signals :
    (config : PhaseControllerConfig) (channel : ℕ) (id : String) (msg : WorkerMessage)
    (s : PhaseControllerState)
    → (register channel msg s).config ≡ config
    → IsExact (register channel msg s)
    → Signals config (handle (some ready) channel id msg s)
unfolding handle all_ready
handle-Signals config channel id msg s e x = rw (e, ← x.ingest, ← x.query) (ground arith)

-- Over every interleaving in which no id reports ready while it is registered and no worker is done
-- (fewer than 2^32 - 1 events), a report of a new id signals "all workers ready" exactly when, with
-- it, at least the expected numbers of ingest and of query workers are registered.
pub signal_iff :
    (config : PhaseControllerConfig) (es : List Event) (channel : ℕ) (msg : WorkerMessage)
    → length es + 1 < u32_mod
    → AllPolite (es) (start config)
    → msg.payload ≡ some ready
    → lookup msg.worker_id (steps es (start config)).state.workers ≡ none
    → let h =
        handle_message channel
          ((steps es (start config)).ids channel)
          msg
          (steps es (start config)).state in
      (h.signal ≡ true) ↔ (
        (config.expected_ingest_workers ≤ registered "ingest" h.state.workers)
        × (config.expected_query_workers ≤ registered "query" h.state.workers))
unfolding handle_message
signal_iff config es channel msg h a p l =
    let v = steps es (start config) in
    let c : IsCovered (0 + length es) v.state =
      steps-IsCovered es 0 (start config) (omega arith) (unfold new in omega arith) in
    let x : IsExact v.state =
      steps-IsExact es 0 (start config) (omega arith) (unfold new in omega arith) a
        (unfold new in record { unique = tt; ingest = refl; query = refl }) in
    subst (λ q. Signals config (handle q channel (v.ids channel) msg v.state)) (sym p)
      (handle-Signals config channel (v.ids channel) msg v.state
        (unfold handle in
          handle-config (some ready) channel (v.ids channel) msg v.state
          ∙ steps-config es (start config)
          ∙ (unfold new in refl))
        (register-IsExact 0 channel msg v.state (omega (arith, c.ingest_le))
          (omega (arith, c.query_le)) l x))
