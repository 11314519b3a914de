-- ===== src/Worker/Session/Report.antt =====
-- What a session worker reports of its queries over a run.
use incident_bench.Base.{
  ℕ, ◌+◌, ◌<◌, ◌^◌, Bool, true, false, Bool-cases, Option, none, some, List, [], ◌∷◌, ◌++◌, length,
  All, All-append, if◌then◌else◌, ◌≡◌, refl, inl, inr, arith, F64,
}
use incident_bench.Scenario.Session.Batches.{IsSampler}
use incident_bench.Barrier.{prepare_transition, transition, run_complete}
use incident_bench.Worker.{
  Poll, idle, received, Offer, Turned, continued, ended, panicked, total_of, total_of-append,
  run_turns, is_end, with_offers,
}
use incident_bench.Worker.Query.{Tally}
use incident_bench.Worker.Query.Counts.{CanCut}
use incident_bench.Worker.Query.Accounts.{
  Accounts, Accounts-refl, Accounts-trans, Accounts-then, offered-Accounts, IsTallied, IsRecorded,
}
use incident_bench.Worker.Session.{
  SessionWorker, Tick, Work, work_of, record_batch, has_rest, flush, session_snapshot, emit_session,
  with_batch, run_work, fire, session_origin, session_poll, tick,
}
use incident_bench.Worker.Session.Counts.{
  sizes, HaveQueries, Works, work_of-Works, fails, Runs, record_batch-Runs,
}

module _ {F : Type 0} ⦃fl : F64 F⦄ where
  -- The end of a run: all is in the snapshots.
  pub record Reported (n m : ℕ) (t : Tally F) (out : List (Offer F)) : Type 0 where
    pub executed : total_of (λ s. s.queries_executed) out ≡ t.queries_executed + n
    pub errors : total_of (λ s. s.query_errors) out ≡ t.query_errors + m
    pub balanced : All IsRecorded out

  -- Behind `n` queries, `m` of them errors: while the loop goes on, the snapshots and the counters
  -- have them all, and every category has its queries; when it has ended, the snapshots alone.
  abbrev pub Conserves : ℕ → ℕ → SessionWorker F → Turned F (SessionWorker F) → Type 0
  Conserves n m w (continued out w') =
      Accounts n m w.tally out w'.tally
      × HaveQueries w'.categories
      × (sizes w'.categories ≡ sizes w.categories)
  Conserves n m w (ended out w') = Reported n m w.tally out
  Conserves n m w panicked = ⊥

  has_rest-false :
      (t : Tally F) → has_rest t ≡ false → (t.queries_executed ≡ 0) × (t.query_errors ≡ 0)
  unfolding has_rest
  has_rest-false t h = (ground arith, ground arith)

  flush-Accounts :
      (t : Tick F) (w : SessionWorker F) → IsTallied w.tally → Reported 0 0 w.tally (flush t w)
  unfolding flush
  flush-Accounts t w c = elim (Bool-cases (has_rest w.tally)) [
    | inl e ↦
        let a =
          offered-Accounts w.tally
            (record {
              taken = t.last_room;
              snapshot = session_snapshot w.configured_sessions t.last_reading w;
            })
            refl refl refl refl c in
        rw e (record {
          executed = omega (arith, a.executed);
          errors = omega (arith, a.errors);
          balanced = a.balanced;
        })
    | inr e ↦
        let (x, y) = has_rest-false w.tally e in
        rw e (record { executed = omega (arith, x); errors = omega (arith, y); balanced = tt })
  ]

  emit-Accounts :
      (due : Bool) (t : Tick F) (w : SessionWorker F)
      → IsTallied w.tally
      → Accounts 0 0 w.tally (emit_session due t w).0 (emit_session due t w).1.tally
  unfolding emit_session
  emit-Accounts false t w c = Accounts-refl w.tally c
  emit-Accounts true t w c = offered-Accounts w.tally _ refl refl refl refl c

  -- A tick that does not end the loop runs its queries.
  abbrev Ticks : Tick F → Bool → SessionWorker F → Turned F (SessionWorker F) → Type 0
  Ticks t over w (continued out v) =
      (over ≡ false)
      × Conserves (sizes w.categories) (fails t.answer 0 (sizes w.categories)) w (continued out v)
  Ticks t over w (ended out v) = (over ≡ true) × Reported 0 0 w.tally out
  Ticks t over w panicked = ⊥

  -- The samples of a tick are in range, and the messages of its errors can be cut.
  pub record IsFair (t : Tick F) : Type 0 where
    pub sampler : (place : ℕ) → IsSampler (t.sample place)
    pub cut : (k : ℕ) → CanCut (t.answer k)

  run_work-Ticks :
      (work : Option Work) (t : Tick F) (w : SessionWorker F) (out : List (Offer F))
      (v : SessionWorker F)
      → ((k : ℕ) → CanCut (t.answer k))
      → Works v.categories work
      → sizes v.categories ≡ sizes w.categories
      → Accounts 0 0 w.tally out v.tally
      → v.tally.queries_executed + sizes w.categories < 2 ^ 63
      → Ticks t false w (run_work work t out v)
  unfolding run_work
  run_work-Ticks none t w out v cut k z a h = k
  run_work-Ticks (some work) t w out v cut (l, z', q) z a h =
      let n = sizes w.categories in
      let same : length work.items ≡ n = omega (arith, l, z) in
      elim (record_batch (session_origin t v) v.default_timeout_ms t.answer 0 work.items v.tally)
          as (λ r.
            Runs (length work.items) (fails t.answer 0 (length work.items)) v.tally r
            → Ticks t false w (with_batch out v work.categories r)) [
              | none ↦ λ h. absurd h
              | some u ↦ λ b.
                  unfold with_batch in
                  (
                    refl,
                    (
                      Accounts-then n (fails t.answer 0 n) w.tally out v.tally u a (rw same at b),
                      q,
                      omega (arith, z', z),
                    ),
                  )
            ]
        (record_batch-Runs (session_origin t v) v.default_timeout_ms t.answer 0 work.items v.tally
          cut a.tallied (omega (arith, same, h)))

  fire-Ticks :
      (t : Tick F) (w : SessionWorker F) (out : List (Offer F)) (v : SessionWorker F)
      → IsFair t
      → HaveQueries v.categories
      → sizes v.categories ≡ sizes w.categories
      → Accounts 0 0 w.tally out v.tally
      → v.tally.queries_executed + sizes w.categories < 2 ^ 63
      → Ticks t false w (fire t out v)
  unfolding fire
  fire-Ticks t w out v fair q z a h =
      run_work-Ticks (work_of t.sample 0 v.categories) t w out v fair.cut
        (work_of-Works t.sample 0 v.categories fair.sampler q) z a h

  ended-Reported :
      (t : Tick F) (w : SessionWorker F) (out : List (Offer F)) (v : SessionWorker F)
      → Accounts 0 0 w.tally out v.tally
      → Reported 0 0 w.tally (out ++ flush t v)
  ended-Reported t w out v a =
      let r = flush-Accounts t v a.tallied in
      record {
        executed = omega (
          arith,
          a.executed,
          r.executed,
          total_of-append (λ s. s.queries_executed) out (flush t v),
        );
        errors =
            omega
              (arith, a.errors, r.errors, total_of-append (λ s. s.query_errors) out (flush t v));
        balanced = All-append IsRecorded out (flush t v) a.balanced r.balanced;
      }

  session_poll-Ticks :
      (poll : Poll) (t : Tick F) (w : SessionWorker F) (out : List (Offer F)) (v : SessionWorker F)
      → IsFair t
      → HaveQueries v.categories
      → sizes v.categories ≡ sizes w.categories
      → Accounts 0 0 w.tally out v.tally
      → (is_end poll ≡ false → v.tally.queries_executed + sizes w.categories < 2 ^ 63)
      → Ticks t (is_end poll) w (session_poll poll t out v)
  unfolding session_poll
  session_poll-Ticks idle t w out v fair q z a h = fire-Ticks t w out v fair q z a (h refl)
  session_poll-Ticks (received none) t w out v fair q z a h = (refl, ended-Reported t w out v a)
  session_poll-Ticks (received (some run_complete)) t w out v fair q z a h =
      (refl, ended-Reported t w out v a)
  session_poll-Ticks (received (some (prepare_transition _ _))) t w out v fair q z a h =
      fire-Ticks t w out v fair q z a (h refl)
  session_poll-Ticks (received (some (transition _ to _ _))) t w out v fair q z a h =
      fire-Ticks t w out (record v { current_phase = to }) fair q z a (h refl)

  emit-keeps :
      (due : Bool) (t : Tick F) (w : SessionWorker F)
      → (emit_session due t w).1.categories ≡ w.categories
  unfolding emit_session
  emit-keeps false t w = refl
  emit-keeps true t w = refl

  tick-Ticks :
      (t : Tick F) (w : SessionWorker F)
      → IsFair t
      → HaveQueries w.categories
      → IsTallied w.tally
      → (is_end t.poll ≡ false → w.tally.queries_executed + sizes w.categories < 2 ^ 63)
      → Ticks t (is_end t.poll) w (tick t w)
  unfolding tick
  tick-Ticks t w fair q c h =
      let a = emit-Accounts t.second_over t w c in
      let e = emit-keeps t.second_over t w in
      session_poll-Ticks t.poll t w _ _ fair (rw e q) (rw e) a λ e'. omega (arith, a.executed, h e')

  -- The queries that the ticks run up to the end, `n` for each, and the errors among them.
  abbrev pub run_by : ℕ → List (Tick F) → ℕ
  run_by n [] = 0
  run_by n (t ∷ ts) = let more = run_by n ts in if is_end t.poll then 0 else n + more

  abbrev pub failed_by : ℕ → List (Tick F) → ℕ
  failed_by n [] = 0
  failed_by n (t ∷ ts) =
      let more = failed_by n ts in if is_end t.poll then 0 else fails t.answer 0 n + more

  with_offers-Conserves :
      (n m k j : ℕ) (w : SessionWorker F) (out : List (Offer F)) (v : SessionWorker F)
      (r : Turned F (SessionWorker F))
      → Accounts n m w.tally out v.tally
      → sizes v.categories ≡ sizes w.categories
      → Conserves k j v r
      → Conserves (n + k) (m + j) w (with_offers out r)
  unfolding with_offers
  with_offers-Conserves n m k j w out v (continued more u) a z (b, q, y) =
      (Accounts-trans n m k j w.tally out v.tally more u.tally a b, q, omega (arith, y, z))
  with_offers-Conserves n m k j w out v (ended more u) a z b = record {
    executed =
        omega (arith, a.executed, b.executed, total_of-append (λ s. s.queries_executed) out more);
    errors = omega (arith, a.errors, b.errors, total_of-append (λ s. s.query_errors) out more);
    balanced = All-append IsRecorded out more a.balanced b.balanced;
  }
  with_offers-Conserves n m k j w out v panicked a z b = b

  -- A session worker offers all that it does in its snapshots. Over any ticks with fair samples, from
  -- categories that have queries and counters that add up, with fewer than 2^63 queries in all, and
  -- where the message of each error can be cut to its length: the loop does not panic; each tick
  -- before the end runs as many queries as the parallelism of the categories, each of which keeps its
  -- queries; while the loop goes on, the snapshots offered and the counters together have every
  -- query and every error; once it has ended, the snapshots alone have them all, the rest of the
  -- last second included; and each snapshot has a record for each of its errors.
  pub ticks-Conserves :
      (ts : List (Tick F)) (w : SessionWorker F)
      → All IsFair ts
      → HaveQueries w.categories
      → IsTallied w.tally
      → w.tally.queries_executed + run_by (sizes w.categories) ts < 2 ^ 63
      → Conserves
          (run_by (sizes w.categories) ts)
          (failed_by (sizes w.categories) ts)
          w
          (run_turns tick ts w)
  unfolding run_turns
  ticks-Conserves [] w fair q c h = (Accounts-refl w.tally c, q, refl)
  ticks-Conserves (t ∷ ts) w (f, fs) q c h =
      let n = sizes w.categories in
      let room : is_end t.poll ≡ false → w.tally.queries_executed + n < 2 ^ 63 =
        λ e. let g = h in omega (arith, rw e at g) in
      elim (tick t w)
          as (λ r.
            Ticks t (is_end t.poll) w r
            → Conserves (run_by n (t ∷ ts)) (failed_by n (t ∷ ts)) w (elim r [
              | continued out s' ↦ with_offers out (run_turns tick ts s')
              | ended out s' ↦ ended out s'
              | panicked ↦ panicked
            ])) [
              | continued out v ↦ λ (going, (a, q', z)).
                  let h' : w.tally.queries_executed + (n + run_by n ts) < 2 ^ 63 = rw going at h in
                  rw going (
                    with_offers-Conserves n (fails t.answer 0 n) (run_by n ts) (failed_by n ts) w
                      out v _ a z
                      (rw (← z) (
                        ticks-Conserves ts v fs q' a.tallied
                          (rw z (omega (arith, a.executed, h'))))))
              | ended out v ↦ λ (over, a). rw over a
              | panicked ↦ λ h. h
            ]
        (tick-Ticks t w f q c room)
