-- ===== src/Worker/Rated/Counts.antt =====
-- What a rate-controlled query worker reports of its queries.
use incident_bench.Base.{
  ℕ, suc, ◌+◌, ◌<◌, ◌^◌, String, Bool, true, false, Option, none, some, List, [], ◌∷◌, length, All,
  get_elem?, if◌then◌else◌, ◌≡◌, refl, ◌∙◌, arith, F64,
}
use mathlib.Core.Path.{subst}
use incident_bench.Cluster.{Result}
use incident_bench.Scenario.{QueryDef}
use incident_bench.Barrier.{prepare_transition, transition, run_complete}
use incident_bench.Worker.{
  Poll, idle, received, Offer, Turned, continued, ended, panicked, run_turns, is_end, with_offers,
}
use incident_bench.Worker.Query.{QueryResult, record_query}
use incident_bench.Worker.Query.Moves.{bit, bit-le}
use incident_bench.Worker.Query.Counts.{CanCut, is_failure, durations, Steps, record_query-Steps}
use incident_bench.Worker.Query.Accounts.{
  Accounts, Accounts-refl, Accounts-trans, Accounts-then, offered-Accounts, Moves-Accounts,
  IsTallied,
}
use incident_bench.Worker.Rated.{
  RatedWorker, RatedTurn, result_of, emit_rated, change_rate, rated_origin, with_tally,
  execute_drawn, execute, rated_poll, rated_turn,
}

module _ {F : Type 0} where
  -- The query that is drawn is in the mix, and the message of its error can be cut.
  abbrev pub CanRun : List QueryDef → RatedTurn F → Type 0
  CanRun queries t =
      (q : QueryDef) × (get_elem? queries t.drawn ≡ some q) × CanCut (result_of q t.answer)

  -- 1 where the query fails, or the worker's timer runs out.
  abbrev pub failed : Option (Result String (QueryResult F)) → ℕ
  failed none = 1
  failed (some r) = bit (is_failure r)

  failed-result_of :
      (q : QueryDef) (answer : Option (Result String (QueryResult F)))
      → bit (is_failure (result_of q answer)) ≡ failed answer
  unfolding result_of
  failed-result_of q none = refl
  failed-result_of q (some r) = refl

  -- Behind `n` queries, `m` of them errors, the snapshots and the counters have them all.
  abbrev pub Conserves : ℕ → ℕ → RatedWorker F → Turned F (RatedWorker F) → Type 0
  Conserves n m w (continued out v) = Accounts n m w.tally out v.tally × (v.queries ≡ w.queries)
  Conserves n m w (ended out v) = Accounts n m w.tally out v.tally × (v.queries ≡ w.queries)
  Conserves n m w panicked = ⊥

  -- A turn that does not end the loop runs one query.
  abbrev Turns : RatedTurn F → Bool → RatedWorker F → Turned F (RatedWorker F) → Type 0
  Turns t over w (continued out v) =
      (over ≡ false) × Accounts 1 (failed t.answer) w.tally out v.tally × (v.queries ≡ w.queries)
  Turns t over w (ended out v) =
      (over ≡ true) × Accounts 0 0 w.tally out v.tally × (v.queries ≡ w.queries)
  Turns t over w panicked = ⊥

module _ {F : Type 0} ⦃fl : F64 F⦄ where
  emit-Accounts :
      (due : Bool) (t : RatedTurn F) (w : RatedWorker F)
      → IsTallied w.tally
      → Accounts 0 0 w.tally (emit_rated due t w).0 (emit_rated due t w).1.tally
        × ((emit_rated due t w).1.queries ≡ w.queries)
  unfolding emit_rated
  emit-Accounts false t w c = (Accounts-refl w.tally c, refl)
  emit-Accounts true t w c = (offered-Accounts w.tally _ refl refl refl refl c, refl)

  execute_drawn-Turns :
      (drawn : Option QueryDef) (q : QueryDef) (t : RatedTurn F) (w : RatedWorker F)
      (out : List (Offer F)) (v : RatedWorker F)
      → drawn ≡ some q
      → CanCut (result_of q t.answer)
      → Accounts 0 0 w.tally out v.tally
      → v.queries ≡ w.queries
      → suc v.tally.queries_executed < 2 ^ 63
      → Turns t false w (execute_drawn drawn t out v)
  unfolding execute_drawn
  execute_drawn-Turns none q t w out v e cut a z h = cc
  execute_drawn-Turns (some d) q t w out v e cut a z h =
      let f = bit (is_failure (result_of d t.answer)) in
      let cut' : CanCut (result_of d t.answer) =
        let same : q ≡ d = cc in subst (λ x. CanCut (result_of x t.answer)) same cut in
      elim (record_query (rated_origin t v) d t.elapsed_ms (result_of d t.answer) v.tally)
          as (λ r.
            Steps d.name 1 f (durations (result_of d t.answer)) v.tally r
            → Turns t false w (with_tally out v r)) [
              | none ↦ λ h. absurd h
              | some u ↦ λ m.
                  unfold with_tally in
                  (
                    refl,
                    Accounts-then 1 (failed t.answer) w.tally out v.tally u a (
                        rw (failed-result_of d t.answer) at
                          (Moves-Accounts d.name f _ v.tally u (bit-le _) a.tallied h m)),
                    z,
                  )
            ]
        (record_query-Steps (rated_origin t v) d t.elapsed_ms (result_of d t.answer) v.tally cut')

  execute-Turns :
      (t : RatedTurn F) (w : RatedWorker F) (out : List (Offer F)) (v : RatedWorker F)
      → CanRun v.queries t
      → Accounts 0 0 w.tally out v.tally
      → v.queries ≡ w.queries
      → suc v.tally.queries_executed < 2 ^ 63
      → Turns t false w (execute t out v)
  unfolding execute
  execute-Turns t w out v (q, e, cut) a z h = execute_drawn-Turns _ q t w out _ e cut a z h

  rated_poll-Turns :
      (poll : Poll) (t : RatedTurn F) (w : RatedWorker F) (out : List (Offer F)) (v : RatedWorker F)
      → CanRun v.queries t
      → Accounts 0 0 w.tally out v.tally
      → v.queries ≡ w.queries
      → suc v.tally.queries_executed < 2 ^ 63
      → Turns t (is_end poll) w (rated_poll poll t out v)
  unfolding rated_poll change_rate
  rated_poll-Turns idle t w out v r a z h = execute-Turns t w out v r a z h
  rated_poll-Turns (received none) t w out v r a z h = (refl, a, z)
  rated_poll-Turns (received (some run_complete)) t w out v r a z h = (refl, a, z)
  rated_poll-Turns (received (some (prepare_transition _ _))) t w out v r a z h =
      execute-Turns t w out v r a z h
  rated_poll-Turns (received (some (transition _ to _ rate))) t w out v r a z h =
      execute-Turns t w out _ r a z h

  rated_turn-Turns :
      (t : RatedTurn F) (w : RatedWorker F)
      → CanRun w.queries t
      → IsTallied w.tally
      → suc w.tally.queries_executed < 2 ^ 63
      → Turns t (is_end t.poll) w (rated_turn t w)
  unfolding rated_turn
  rated_turn-Turns t w r c h =
      let (a, z) = emit-Accounts t.second_over t w c in
      rated_poll-Turns t.poll t w _ _ (rw z r) a z (omega (arith, a.executed, h))

  -- The queries that the turns run up to the end, and the errors among them.
  abbrev pub run_by : List (RatedTurn F) → ℕ
  run_by [] = 0
  run_by (t ∷ ts) = let more = run_by ts in if is_end t.poll then 0 else 1 + more

  abbrev pub failed_by : List (RatedTurn F) → ℕ
  failed_by [] = 0
  failed_by (t ∷ ts) =
      let more = failed_by ts in if is_end t.poll then 0 else failed t.answer + more

  with_offers-Conserves :
      (n m k j : ℕ) (w : RatedWorker F) (out : List (Offer F)) (v : RatedWorker F)
      (r : Turned F (RatedWorker F))
      → Accounts n m w.tally out v.tally
      → v.queries ≡ w.queries
      → Conserves k j v r
      → Conserves (n + k) (m + j) w (with_offers out r)
  unfolding with_offers
  with_offers-Conserves n m k j w out v (continued more u) a z (b, y) =
      (Accounts-trans n m k j w.tally out v.tally more u.tally a b, y ∙ z)
  with_offers-Conserves n m k j w out v (ended more u) a z (b, y) =
      (Accounts-trans n m k j w.tally out v.tally more u.tally a b, y ∙ z)
  with_offers-Conserves n m k j w out v panicked a z b = b

  -- A rate-controlled worker counts every query once. Over any turns whose queries are drawn from the
  -- mix, from counters that add up, with fewer than 2^63 queries in all, and where the message of
  -- each error can be cut to its length: the loop does not panic; each turn before the end runs one
  -- query; the snapshots offered and the counters together have every query and every error, a
  -- query that the worker's timer ends among the errors; and each snapshot has a record for each of
  -- its errors. What the counters hold when the loop ends is in no snapshot.
  pub queries-Conserves :
      (ts : List (RatedTurn F)) (w : RatedWorker F)
      → All (CanRun w.queries) ts
      → IsTallied w.tally
      → w.tally.queries_executed + length ts < 2 ^ 63
      → Conserves (run_by ts) (failed_by ts) w (run_turns rated_turn ts w)
  unfolding run_turns
  queries-Conserves [] w r c h = (Accounts-refl w.tally c, refl)
  queries-Conserves (t ∷ ts) w (r, rs) c h =
      elim (rated_turn t w)
          as (λ x.
            Turns t (is_end t.poll) w x
            → Conserves (run_by (t ∷ ts)) (failed_by (t ∷ ts)) w (elim x [
              | continued out s' ↦ with_offers out (run_turns rated_turn ts s')
              | ended out s' ↦ ended out s'
              | panicked ↦ panicked
            ])) [
              | continued out v ↦ λ (going, a, z). rw going (
                  with_offers-Conserves 1 (failed t.answer) (run_by ts) (failed_by ts) w out v _ a z
                    (queries-Conserves ts v (rw z rs) a.tallied (omega (arith, a.executed, h))))
              | ended out v ↦ λ (over, a, z). rw over (a, z)
              | panicked ↦ λ h. h
            ]
        (rated_turn-Turns t w r c (omega arith))
