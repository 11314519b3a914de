-- ===== src/PhaseController/Restart.antt =====
-- A worker that comes back on a second stream before its first stream has closed.
use mathlib.Core.Path.{subst}
use incident_bench.Base.{
  ℕ, ◌≡◌, ◌≢◌, String, Option, none, some, [], ◌∷◌, arith, lookup, eq_iff, lookup-insert,
  lookup-remove, sym,
}
use incident_bench.PhaseController.{
  PhaseControllerState, Payload, ready, WorkerMessage, handle, register, handle_message, disconnect,
}
use incident_bench.PhaseController.Counts.{message, closed, Service, step, steps}

disconnect-absent :
    (id : String) (s : PhaseControllerState) → id ≢ "" → lookup id (disconnect id s).workers ≡ none
unfolding disconnect
disconnect-absent id s h = ground (arith, eq_iff id "", eq_iff id id, lookup-remove id id s.workers)

closed-absent :
    (v : Service) (channel : ℕ) (id : String)
    → v.ids channel ≡ id
    → id ≢ ""
    → lookup id (step (closed channel) v).state.workers ≡ none
unfolding step
closed-absent v channel id e n =
    subst (λ x. lookup id (disconnect x v.state).workers ≡ none) (sym e)
      (disconnect-absent id v.state n)

ready-registered :
    (v : Service) (channel : ℕ) (msg : WorkerMessage) (p : Option Payload)
    → p ≡ some ready
    → (lookup msg.worker_id (handle p channel (v.ids channel) msg v.state).state.workers
        ≡ some (msg.worker_mode, channel))
      × ((handle p channel (v.ids channel) msg v.state).id ≡ msg.worker_id)
unfolding handle register
ready-registered v channel msg p h = ground (
  arith,
  lookup-insert msg.worker_id msg.worker_id (msg.worker_mode, channel) v.state.workers,
  eq_iff msg.worker_id msg.worker_id,
)

-- A worker with an id that reports ready on a stream, and then again on another one, is registered
-- with the second; when the first stream closes after that, the worker is no longer registered,
-- although its second stream is open.
pub stale_close :
    (v : Service) (old new : ℕ) (before after : WorkerMessage)
    → old ≢ new
    → before.payload ≡ some ready
    → after.payload ≡ some ready
    → after.worker_id ≡ before.worker_id
    → before.worker_id ≢ ""
    → let both = message old before ∷ message new after ∷ [] in
      (lookup before.worker_id (steps both v).state.workers ≡ some (after.worker_mode, new))
      × (lookup before.worker_id (step (closed old) (steps both v)).state.workers ≡ none)
unfolding steps
stale_close v old new before after h p q e n =
    let v1 = step (message old before) v in
    let v2 = step (message new after) v1 in
    let r1 = ready-registered v old before before.payload p in
    let r2 = ready-registered v1 new after after.payload q in
    (
      unfold step handle_message in
          subst (λ k. lookup k v2.state.workers ≡ some (after.worker_mode, new)) e r2.0,
      closed-absent v2 old before.worker_id (unfold step handle_message in ground (arith, r1.1)) n,
    )
