-- ===== src/Aggregator/Totals.antt =====
-- The totals of the timeline against those of the snapshots that came in.
use incident_bench.Base.{
  ℕ, ◌≡◌, refl, ◌+◌, ◌%◌, String, ◌||◌, List, [], ◌∷◌, ◌++◌, map, sum_u64, sum_u64-eq-sum,
  sum_u64-lt, u64_mod, ◌<◌, as_u64, ℤ, str_eq, if◌then◌else◌, arith, F64,
}
use incident_bench.Metrics.{AggregatedMetricPoint}
use incident_bench.Aggregator.Snapshots.{WorkerMetricSnapshot, SecondBucket, push_snapshot}
use incident_bench.Aggregator.Bucket.{aggregate, total}
use incident_bench.Aggregator.{new}
use incident_bench.Aggregator.Runs.{Event, run, received, by_mode}
use incident_bench.Aggregator.Adding.{IsTotal, from_new}

-- A number of the points, added up as the snapshots are: modulo 2^64.
abbrev pub points_total {ℓ} :
    {F : Type ℓ} → (AggregatedMetricPoint F → ℕ) → List (AggregatedMetricPoint F) → ℕ
points_total value points = sum_u64 (map value points)

module _ {ℓ} {F : Type ℓ} ⦃fl : F64 F⦄ where
  total-snoc :
      (field : WorkerMetricSnapshot F → ℤ) (snaps : List (WorkerMetricSnapshot F))
      (snap : WorkerMetricSnapshot F)
      → total field (snaps ++ snap ∷ []) % u64_mod
        ≡ (total field snaps + as_u64 (field snap)) % u64_mod
  total-snoc field [] snap =
      omega (arith, sum_u64-eq-sum (as_u64 (field snap) ∷ []), sum_u64-eq-sum [])
  total-snoc field (s ∷ snaps) snap = omega (
    arith,
    total-snoc field snaps snap,
    sum_u64-eq-sum (map (λ s. as_u64 (field s)) (s ∷ snaps ++ snap ∷ [])),
    sum_u64-eq-sum (map (λ s. as_u64 (field s)) (snaps ++ snap ∷ [])),
    sum_u64-eq-sum (map (λ s. as_u64 (field s)) (s ∷ snaps)),
    sum_u64-eq-sum (map (λ s. as_u64 (field s)) snaps),
  )

  ingested :
      (field : WorkerMetricSnapshot F → ℤ) (value : AggregatedMetricPoint F → ℕ)
      → ((t lag : ℕ) (b : SecondBucket F)
          → value (aggregate t lag b) ≡ total field b.ingest_snapshots)
      → IsTotal value (λ b. total field b.ingest_snapshots)
  unfolding push_snapshot
  ingested field value h = record {
    grow = λ snap. if str_eq snap.worker_mode "ingest" then as_u64 (field snap) else 0;
    read = h;
    none_yet = omega (arith, sum_u64-eq-sum []);
    grows = λ snap b. ground (arith, total-snoc field b.ingest_snapshots snap);
  }

  queried :
      (field : WorkerMetricSnapshot F → ℤ) (value : AggregatedMetricPoint F → ℕ)
      → ((t lag : ℕ) (b : SecondBucket F)
          → value (aggregate t lag b) ≡ total field b.query_snapshots)
      → IsTotal value (λ b. total field b.query_snapshots)
  unfolding push_snapshot
  queried field value h = record {
    grow = λ snap.
        if str_eq snap.worker_mode "ingest"
        then 0
        else if str_eq snap.worker_mode "query" || str_eq snap.worker_mode "query-session"
        then as_u64 (field snap)
        else 0;
    read = h;
    none_yet = omega (arith, sum_u64-eq-sum []);
    grows = λ snap b. ground (arith, total-snoc field b.query_snapshots snap);
  }

  in_all :
      (path : String) (es : List (Event F)) (value : AggregatedMetricPoint F → ℕ)
      (of : SecondBucket F → ℕ)
      → IsTotal value of
      → of (by_mode (received es)) < u64_mod
      → points_total value (run es (new path)).timeline ≡ of (by_mode (received es))
  in_all path es value of h small =
      omega (
        arith,
        from_new value of h path es,
        sum_u64-eq-sum (map value (run es (new path)).timeline),
      )

  ingested_in_all :
      (path : String) (es : List (Event F)) (field : WorkerMetricSnapshot F → ℤ)
      (value : AggregatedMetricPoint F → ℕ)
      → ((t lag : ℕ) (b : SecondBucket F)
          → value (aggregate t lag b) ≡ total field b.ingest_snapshots)
      → points_total value (run es (new path)).timeline
        ≡ total field (by_mode (received es)).ingest_snapshots
  ingested_in_all path es field value read =
      in_all path es value _ (ingested field value read) (sum_u64-lt _)

  queried_in_all :
      (path : String) (es : List (Event F)) (field : WorkerMetricSnapshot F → ℤ)
      (value : AggregatedMetricPoint F → ℕ)
      → ((t lag : ℕ) (b : SecondBucket F)
          → value (aggregate t lag b) ≡ total field b.query_snapshots)
      → points_total value (run es (new path)).timeline
        ≡ total field (by_mode (received es)).query_snapshots
  queried_in_all path es field value read =
      in_all path es value _ (queried field value read) (sum_u64-lt _)

  -- The timeline agrees with the snapshots: what its points add up to is what they add up to.
  pub record Agree (points : List (AggregatedMetricPoint F)) (b : SecondBucket F) : Type 0 where
    pub produced :
        points_total (λ p. p.ingest_events_produced) points
        ≡ total (λ s. s.events_produced) b.ingest_snapshots
    pub acknowledged :
        points_total (λ p. p.ingest_events_acknowledged) points
        ≡ total (λ s. s.events_acknowledged) b.ingest_snapshots
    pub failed :
        points_total (λ p. p.ingest_events_failed) points
        ≡ total (λ s. s.events_failed) b.ingest_snapshots
    pub executed :
        points_total (λ p. p.query_executed) points
        ≡ total (λ s. s.queries_executed) b.query_snapshots
    pub errors :
        points_total (λ p. p.query_errors) points ≡ total (λ s. s.query_errors) b.query_snapshots

  -- After any calls, in any order, on a new aggregator, the points of the timeline add up to what the
  -- snapshots that came in add up to, modulo 2^64: the events produced, acknowledged and failed to
  -- those of the ingest workers, the queries executed and their errors to those of the query workers
  -- of both modes.
  pub timeline-Agree :
      (path : String) (es : List (Event F))
      → Agree (run es (new path)).timeline (by_mode (received es))
  unfolding aggregate
  timeline-Agree path es = record {
    produced = ingested_in_all path es _ _ (λ t lag b. refl);
    acknowledged = ingested_in_all path es _ _ (λ t lag b. refl);
    failed = ingested_in_all path es _ _ (λ t lag b. refl);
    executed = queried_in_all path es _ _ (λ t lag b. refl);
    errors = queried_in_all path es _ _ (λ t lag b. refl);
  }
