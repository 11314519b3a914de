-- ===== src/Worker/Rated/Phases.antt =====
-- The phases of a rate-controlled query worker, against the timeline of the controller.
use incident_bench.Base.{
  ℕ, ◌≡◌, refl, ap, ◌∙◌, String, Bool, true, false, Option, none, some, List, ◌++◌, length,
  get_elem?, All, ℤ, as_u64, F64,
}
use mathlib.Core.Path.{subst}
use incident_bench.Scenario.{QueryDef}
use incident_bench.RateLimiter.{acquire}
use incident_bench.PhaseController.{PhaseSpec}
use incident_bench.PhaseController.Timeline.{Surroundings}
use incident_bench.Barrier.{
  PhaseEvent, prepare_transition, transition, run_complete, Entered, wait_for_transition,
}
use incident_bench.Barrier.Messages.{IsSteady}
use incident_bench.Barrier.Transitions.{entered_in}
use incident_bench.Worker.{
  Poll, idle, received, Offer, Turned, continued, ended, panicked, run_turns, is_end,
}
use incident_bench.Worker.Query.{record_query}
use incident_bench.Worker.Query.Counts.{CanCut, Steps, record_query-Steps, is_failure, durations}
use incident_bench.Worker.Query.Moves.{bit}
use incident_bench.Worker.Rated.{
  RatedWorker, RatedTurn, result_of, emit_rated, change_rate, rated_origin, with_tally,
  execute_drawn, execute, rated_poll, rated_turn, start_rated,
}
use incident_bench.Worker.Rated.Counts.{CanRun}
use incident_bench.Worker.Phases.{
  heard, latest, Moves, heard_by, EndsIn, run_turns-EndsIn, timeline_events, phases_ahead, in_order,
}

module _ {F : Type 0} ⦃fl : F64 F⦄ where
  -- A rate-controlled worker in a phase: it has the rate that came with the transition.
  pub record IsQuerying (queries : List QueryDef) (a : String × ℤ) (w : RatedWorker F)
      : Type 0 where
    pub queries_kept : w.queries ≡ queries
    pub phase : w.current_phase ≡ a.0
    pub rate : w.current_rate_mqps ≡ as_u64 a.1

  kept-IsQuerying :
      (queries : List QueryDef) (a : String × ℤ) (w v : RatedWorker F)
      → v.queries ≡ w.queries
      → v.current_phase ≡ w.current_phase
      → v.current_rate_mqps ≡ w.current_rate_mqps
      → IsQuerying queries a w
      → IsQuerying queries a v
  kept-IsQuerying queries a w v q p r h = record {
    queries_kept = q ∙ h.queries_kept;
    phase = p ∙ h.phase;
    rate = r ∙ h.rate;
  }

  emit-IsQuerying :
      (queries : List QueryDef) (a : String × ℤ) (due : Bool) (t : RatedTurn F) (w : RatedWorker F)
      → IsQuerying queries a w
      → IsQuerying queries a (emit_rated due t w).1
  unfolding emit_rated
  emit-IsQuerying queries a false t w h = h
  emit-IsQuerying queries a true t w h = kept-IsQuerying queries a w _ refl refl refl h

  -- A query that can be run ends the turn in the same phase.
  abbrev Stays : List QueryDef → String × ℤ → Turned F (RatedWorker F) → Type 0
  Stays queries a (continued out v) = IsQuerying queries a v
  Stays queries a (ended out v) = ⊥
  Stays queries a panicked = ⊥

  execute_drawn-Stays :
      (queries : List QueryDef) (a : String × ℤ) (drawn : Option QueryDef) (q : QueryDef)
      (t : RatedTurn F) (out : List (Offer F)) (w : RatedWorker F)
      → IsQuerying queries a w
      → drawn ≡ some q
      → CanCut (result_of q t.answer)
      → Stays queries a (execute_drawn drawn t out w)
  unfolding execute_drawn
  execute_drawn-Stays queries a none q t out w h e cut = cc
  execute_drawn-Stays queries a (some d) q t out w h e cut =
      let cut' : CanCut (result_of d t.answer) =
        let same : q ≡ d = cc in subst (λ x. CanCut (result_of x t.answer)) same cut in
      elim (record_query (rated_origin t w) d t.elapsed_ms (result_of d t.answer) w.tally)
          as (λ r.
            Steps d.name 1 (bit (is_failure (result_of d t.answer)))
              (durations (result_of d t.answer)) w.tally r
            → Stays queries a (with_tally out w r)) [
              | none ↦ λ k. absurd k
              | some u ↦ λ k. unfold with_tally in kept-IsQuerying queries a w _ refl refl refl h
            ]
        (record_query-Steps (rated_origin t w) d t.elapsed_ms (result_of d t.answer) w.tally cut')

  execute-Moves :
      (queries : List QueryDef) (a : String × ℤ) (t : RatedTurn F) (out : List (Offer F))
      (w : RatedWorker F)
      → IsQuerying queries a w
      → CanRun queries t
      → Stays queries a (execute t out w)
  unfolding execute
  execute-Moves queries a t out w h (q, e, cut) =
      execute_drawn-Stays queries a _ q t out
        (record w { rate_limiter = (acquire t.refill_at t.slept_until w.rate_limiter).limiter })
        (kept-IsQuerying queries a w _ refl refl refl h)
        (ap (λ qs. get_elem? qs t.drawn) h.queries_kept ∙ e) cut

  Stays-Moves :
      (queries : List QueryDef) (a : String × ℤ) (p : Poll) (r : Turned F (RatedWorker F))
      → is_end p ≡ false
      → Stays queries (latest a (entered_in (heard p))) r
      → Moves (IsQuerying queries) p a r
  Stays-Moves queries a p (continued out v) going h = (going, h)
  Stays-Moves queries a p (ended out v) going h = absurd h
  Stays-Moves queries a p panicked going h = h

  rated_poll-Moves :
      (queries : List QueryDef) (a : String × ℤ) (p : Poll) (t : RatedTurn F) (out : List (Offer F))
      (w : RatedWorker F)
      → IsQuerying queries a w
      → CanRun queries t
      → Moves (IsQuerying queries) p a (rated_poll p t out w)
  unfolding rated_poll change_rate
  rated_poll-Moves queries a idle t out w h c =
      Stays-Moves queries a idle _ refl (execute-Moves queries a t out w h c)
  rated_poll-Moves queries a (received none) t out w h c = (refl, h)
  rated_poll-Moves queries a (received (some run_complete)) t out w h c = (refl, h)
  rated_poll-Moves queries a (received (some (prepare_transition x y))) t out w h c =
      Stays-Moves queries a (received (some (prepare_transition x y))) _ refl
        (execute-Moves queries a t out w h c)
  rated_poll-Moves queries a (received (some (transition x to y rate))) t out w h c =
      Stays-Moves queries a (received (some (transition x to y rate))) _ refl (
        execute-Moves queries (to, rate) t out _
          (record { queries_kept = h.queries_kept; phase = refl; rate = refl }) c)

  rated_turn-Moves :
      (queries : List QueryDef) (a : String × ℤ) (t : RatedTurn F) (w : RatedWorker F)
      → IsQuerying queries a w
      → CanRun queries t
      → Moves (IsQuerying queries) t.poll a (rated_turn t w)
  unfolding rated_turn
  rated_turn-Moves queries a t w h c =
      rated_poll-Moves queries a t.poll t _ _ (emit-IsQuerying queries a t.second_over t w h) c

pub query-run_timeline :
    {F : Type 0} ⦃fl : F64 F⦄ (channel : ℕ) (path : Option String) (around : Surroundings)
    (steady : IsSteady channel "query" around) (resume : ℕ) (phases : List PhaseSpec) (now : ℕ)
    (e : Entered) (rest after : List PhaseEvent) (worker_id : String) (index : ℕ) (group : String)
    (queries : List QueryDef) (start : ℕ) (ts : List (RatedTurn F))
    → wait_for_transition now (timeline_events channel "query" path around steady resume phases)
      ≡ (some e, rest)
    → heard_by (λ (t : RatedTurn F). t.poll) ts ++ after ≡ rest
    → All (CanRun queries) ts
    → let before = heard_by (λ (t : RatedTurn F). t.poll) ts in
      (a : String × ℤ) × (get_elem?
          (phases_ahead channel "query" path around steady resume phases)
          (length (entered_in before))
        ≡ some a)
      × EndsIn (IsQuerying queries) a (
          run_turns rated_turn ts
            (start_rated worker_id index group queries e.phase (as_u64 e.rate) start))
unfolding start_rated
query-run_timeline channel path around steady resume phases now e rest after worker_id index group
      queries start ts h split can =
    (
      latest (e.phase, e.rate) (entered_in (heard_by (λ (t : RatedTurn _). t.poll) ts)),
      in_order channel "query" path around steady resume phases now e rest _ after h split,
      run_turns-EndsIn rated_turn (λ t. t.poll) (IsQuerying queries) (CanRun queries)
          (λ a t w i c. rated_turn-Moves queries a t w i c) ts (e.phase, e.rate)
          (start_rated worker_id index group queries e.phase (as_u64 e.rate) start)
          (record { queries_kept = refl; phase = refl; rate = refl }) can,
    )
