-- ===== src/Worker/Delivery.antt =====
-- From the loops of the workers to the timeline of the aggregator: what becomes of each event and of
-- each query.
use mathlib.Core.List.{Perm, map-append}
use incident_bench.Base.{
  ℕ, ◌+◌, ◌<◌, ◌≡◌, refl, arith, String, Bool, true, false, List, [], ◌∷◌, ◌++◌, filter, ℤ, u64_mod,
  All, F64,
}
use incident_bench.Aggregator.Snapshots.{WorkerMetricSnapshot}
use incident_bench.Aggregator.{new}
use incident_bench.Aggregator.Bucket.{total}
use incident_bench.Aggregator.Runs.{Event, run, received}
use incident_bench.Aggregator.Filing.{ingest_only}
use incident_bench.Aggregator.Totals.{timeline-Agree}
use incident_bench.Worker.{Offer, continued, ended, panicked, total_of, run_turns}
use incident_bench.Worker.Sums.{
  is_ingest, taken, refused, measured, total-filter, measured-append, measured-perm, measured_split,
  measured-total_of, measured_none, query_only,
}
use incident_bench.Worker.Ingest.{IngestWorker, turn}
use incident_bench.Worker.Ingest.Accounts as Ingest
use incident_bench.Worker.Ingest.Counts as Ingested
use incident_bench.Worker.Query.Accounts.{is_query, IsRecorded}
use incident_bench.Worker.Rated.{rated_turn}
use incident_bench.Worker.Rated.Counts as Rated
use incident_bench.Worker.Session.{tick}
use incident_bench.Worker.Session.Counts.{sizes}
use incident_bench.Worker.Session.Report as Sessions
use incident_bench.Worker.Fleet.{
  WorkerRun, ingest_run, rated_run, session_run, Figures, add, nothing, MakesUp, IsSmall,
  in_timeline, offers_of, at_end, offers, events_in, queries_in, done_by, in_hand, IsSound,
  reported, snapshots, offers_by, all_of,
}

module _ {F : Type 0} ⦃fl : F64 F⦄ where
  All-map :
      {P Q : Offer F → Type 0} (out : List (Offer F))
      → ((o : Offer F) → P o → Q o)
      → All P out
      → All Q out
  All-map [] f h = tt
  All-map (o ∷ out) f (p, h) = (f o p, All-map out f h)

  ingest-MakesUp :
      (n m : ℕ) (w v : IngestWorker F) (out : List (Offer F))
      → Ingest.Accounts n m w out v
      → MakesUp (reported (snapshots out)) (events_in v) record {
        events = w.events_produced + n;
        lost = w.events_failed + m;
        queries = 0;
        errors = 0;
      }
  ingest-MakesUp n m w v out a =
      let of_ingest : All (λ (o : Offer F). is_ingest o.snapshot.worker_mode ≡ true) out =
        All-map out (λ o (_, _, mode, _, _). rw mode refl) a.balanced in
      let others : All (λ (o : Offer F). is_query o.snapshot.worker_mode ≡ false) out =
        All-map out (λ o e. ingest_only o.snapshot.worker_mode e) of_ingest in
      record {
        events = omega (
          arith,
          a.produced,
          measured-total_of is_ingest (λ s. s.events_produced) out
              (All-map out (λ o (_, _, mode, e, _). (rw mode refl, e)) a.balanced),
        );
        lost = omega (
          arith,
          a.failed,
          measured-total_of is_ingest (λ s. s.events_failed) out
              (All-map out (λ o (_, _, mode, _, e). (rw mode refl, e)) a.balanced),
        );
        queries = omega (arith, measured_none is_query (λ s. s.queries_executed) out others);
        errors = omega (arith, measured_none is_query (λ s. s.query_errors) out others);
      }

  query-MakesUp :
      (x y n m : ℕ) (u : Figures) (out : List (Offer F))
      → All IsRecorded out
      → u.events ≡ 0
      → u.lost ≡ 0
      → total_of (λ s. s.queries_executed) out + u.queries ≡ x + n
      → total_of (λ s. s.query_errors) out + u.errors ≡ y + m
      → MakesUp
          (reported (snapshots out))
          u
          record { events = 0; lost = 0; queries = x + n; errors = y + m }
  query-MakesUp x y n m u out balanced e l q f =
      let others : All (λ (o : Offer F). is_ingest o.snapshot.worker_mode ≡ false) out =
        All-map out (λ o (_, _, mode, _, _). query_only o.snapshot.worker_mode mode) balanced in
      record {
        events = omega (arith, e, measured_none is_ingest (λ s. s.events_produced) out others);
        lost = omega (arith, l, measured_none is_ingest (λ s. s.events_failed) out others);
        queries = omega (
          arith,
          q,
          measured-total_of is_query (λ s. s.queries_executed) out
              (All-map out (λ o (_, _, mode, same, _). (mode, same)) balanced),
        );
        errors = omega (
          arith,
          f,
          measured-total_of is_query (λ s. s.query_errors) out
              (All-map out (λ o (_, _, mode, _, same). (mode, same)) balanced),
        );
      }

  run-MakesUp :
      (r : WorkerRun F)
      → IsSound r
      → MakesUp (reported (snapshots (offers r))) (in_hand r) (done_by r)
  run-MakesUp (ingest_run w ts) (c, h) =
      elim (run_turns turn ts w)
          as (λ x.
            Ingest.Conserves (Ingest.events ts) (Ingest.lost ts) w x
            → MakesUp (reported (snapshots (offers_of x))) (at_end events_in events_in x)
                (done_by (ingest_run w ts))) [
                  | continued out v ↦ λ a. ingest-MakesUp _ _ w v out a
                  | ended out v ↦ λ a. ingest-MakesUp _ _ w v out a
                  | panicked ↦ λ a. absurd a
                ]
        (Ingested.events-Conserves ts w c h)
  run-MakesUp (rated_run w ts) (runs, c, h) =
      elim (run_turns rated_turn ts w)
          as (λ x.
            Rated.Conserves (Rated.run_by ts) (Rated.failed_by ts) w x
            → MakesUp (reported (snapshots (offers_of x)))
                (at_end (λ v. queries_in v.tally) (λ v. queries_in v.tally) x)
                (done_by (rated_run w ts))) [
                  | continued out v ↦ λ (a, _).
                      query-MakesUp _ _ _ _ (queries_in v.tally) out a.balanced refl refl a.executed
                        a.errors
                  | ended out v ↦ λ (a, _).
                      query-MakesUp _ _ _ _ (queries_in v.tally) out a.balanced refl refl a.executed
                        a.errors
                  | panicked ↦ λ a. absurd a
                ]
        (Rated.queries-Conserves ts w runs c h)
  run-MakesUp (session_run w ts) (fair, q, c, h) =
      elim (run_turns tick ts w)
          as (λ x.
            Sessions.Conserves (Sessions.run_by (sizes w.categories) ts)
              (Sessions.failed_by (sizes w.categories) ts) w x
            → MakesUp (reported (snapshots (offers_of x)))
                (at_end (λ v. queries_in v.tally) (λ v. nothing) x) (done_by (session_run w ts))) [
                  | continued out v ↦ λ (a, _, _).
                      query-MakesUp _ _ _ _ (queries_in v.tally) out a.balanced refl refl a.executed
                        a.errors
                  | ended out v ↦ λ a.
                      query-MakesUp _ _ _ _ nothing out a.balanced refl refl
                        (omega (arith, a.executed)) (omega (arith, a.errors))
                  | panicked ↦ λ a. absurd a
                ]
        (Sessions.ticks-Conserves ts w fair q c h)

  reported-append :
      (xs ys : List (WorkerMetricSnapshot F)) (b c b' c' : Figures)
      → MakesUp (reported xs) b c
      → MakesUp (reported ys) b' c'
      → MakesUp (reported (xs ++ ys)) (add b b') (add c c')
  reported-append xs ys b c b' c' m m' = record {
    events =
        omega
          (arith, measured-append is_ingest (λ s. s.events_produced) xs ys, m.events, m'.events);
    lost = omega (arith, measured-append is_ingest (λ s. s.events_failed) xs ys, m.lost, m'.lost);
    queries =
        omega
          (arith, measured-append is_query (λ s. s.queries_executed) xs ys, m.queries, m'.queries);
    errors =
        omega (arith, measured-append is_query (λ s. s.query_errors) xs ys, m.errors, m'.errors);
  }

  fleet-MakesUp :
      (rs : List (WorkerRun F))
      → All IsSound rs
      → MakesUp (reported (snapshots (offers_by rs))) (all_of in_hand rs) (all_of done_by rs)
  fleet-MakesUp [] h = record { events = refl; lost = refl; queries = refl; errors = refl }
  fleet-MakesUp (r ∷ rs) (s, h) =
      rw (map-append (λ (o : Offer F). o.snapshot) (offers r) (offers_by rs)) (
        reported-append (snapshots (offers r)) (snapshots (offers_by rs)) _ _ _ _ (run-MakesUp r s)
          (fleet-MakesUp rs h))

  -- A figure of the snapshots that came in, whatever their order, with those that were refused.
  arrived :
      (mode : String → Bool) (field : WorkerMetricSnapshot F → ℤ)
      (snaps : List (WorkerMetricSnapshot F)) (out : List (Offer F)) (here left made : ℕ)
      → Perm snaps (taken out)
      → here ≡ total field (filter (λ s. mode s.worker_mode) snaps)
      → measured mode field (snapshots out) + left ≡ made
      → made < u64_mod
      → here + measured mode field (refused out) + left ≡ made
  arrived mode field snaps out here left made p e m h = omega (
    arith,
    e,
    total-filter mode field snaps,
    measured-perm mode field p,
    measured_split mode field out,
    m,
    h,
  )

  -- From the workers to the timeline, nothing is lost unseen and nothing is counted twice. For any
  -- workers of the three kinds that meet what the theorems on their loops ask, with fewer than 2^64
  -- events and queries in all, and an aggregator that gets, in any order and among any other calls,
  -- just the snapshots that the workers' channels took: the events, the lost events, the queries
  -- and the errors that the workers made are those of the points of the timeline, those of the
  -- snapshots that a full channel refused, and those still in the workers' counters at the end, of
  -- which a session worker that has ended has none.
  pub timeline-MakesUp :
      (rs : List (WorkerRun F)) (path : String) (es : List (Event F))
      → All IsSound rs
      → IsSmall (all_of done_by rs)
      → Perm (received es) (taken (offers_by rs))
      → MakesUp
          (add (in_timeline (run es (new path)).timeline) (reported (refused (offers_by rs))))
          (all_of in_hand rs)
          (all_of done_by rs)
  timeline-MakesUp rs path es sound small p =
      let a = timeline-Agree path es in
      let m = fleet-MakesUp rs sound in
      let out = offers_by rs in
      record {
        events = arrived is_ingest _ (received es) out _ _ _ p a.produced m.events small.events;
        lost = arrived is_ingest _ (received es) out _ _ _ p a.failed m.lost small.lost;
        queries = arrived is_query _ (received es) out _ _ _ p a.executed m.queries small.queries;
        errors = arrived is_query _ (received es) out _ _ _ p a.errors m.errors small.errors;
      }
