-- ===== src/Aggregator/Adding.antt =====
-- A number of the points that adds up the snapshots, over every order of the calls.
use mathlib.Core.List.{append_assoc, append-nil}
use incident_bench.Base.{
  ℕ, ◌≡◌, refl, ap, ◌∙◌, ◌+◌, ◌%◌, ◌==◌, inl, inr, Bool-cases, String, Option, none, some, List, [],
  ◌∷◌, ◌++◌, map, sum, u64_mod, arith, unwrap_or, F64,
}
use incident_bench.Metrics.{AggregatedMetricPoint}
use incident_bench.Aggregator.Snapshots.{
  WorkerMetricSnapshot, SecondBucket, push_snapshot, empty_bucket, bucket_at,
}
use incident_bench.Aggregator.Bucket.{aggregate}
use incident_bench.Aggregator.{
  AggregatorState, new, seconds, upsert, receive, open_stream, record_lag,
}
use incident_bench.Aggregator.Service.{get_results}
use incident_bench.Aggregator.Runs.{
  Event, opened, snapshot, closed, polled, asked, apply, run, sent_by, received, at_second, by_mode,
  points_at,
}
use incident_bench.Aggregator.Filing.{bucket_of, by_mode-push, time}
use incident_bench.Aggregator.Seconds.{
  Published, IsUpToDate, filed_under, receive-shape, close_stream-keeps, reply_from-keeps,
  apply-IsUpToDate,
}

module _ {ℓ} {F : Type ℓ} (value : AggregatedMetricPoint F → ℕ) where
  -- What the points add up to.
  abbrev pub summed : List (AggregatedMetricPoint F) → ℕ
  summed points = sum (map value points)

  -- Where a second has one point at most, the new one takes its place in the sum.
  summed-upsert_absent :
      (x : AggregatedMetricPoint F) (ys : List (AggregatedMetricPoint F))
      → points_at (time x) ys ≡ []
      → summed (upsert time x ys) ≡ summed ys + value x
  unfolding upsert
  summed-upsert_absent x [] h = omega arith
  summed-upsert_absent x (y ∷ ys) h = elim (Bool-cases (time y == time x)) [
    | inl e ↦ let h' : y ∷ points_at (time x) ys ≡ [] = rw e at h in cc
    | inr e ↦
        let h' : points_at (time x) ys ≡ [] = rw e at h in
        rw e (omega (arith, summed-upsert_absent x ys h'))
  ]

  summed-upsert_present :
      (x z : AggregatedMetricPoint F) (ys : List (AggregatedMetricPoint F))
      → points_at (time x) ys ≡ z ∷ []
      → summed (upsert time x ys) + value z ≡ summed ys + value x
  unfolding upsert
  summed-upsert_present x z [] h = cc
  summed-upsert_present x z (y ∷ ys) h = elim (Bool-cases (time y == time x)) [
    | inl e ↦
        let h' : y ∷ points_at (time x) ys ≡ z ∷ [] = rw e at h in
        let same : y ≡ z = cc in rw e (omega (arith, ap value same))
    | inr e ↦
        let h' : points_at (time x) ys ≡ z ∷ [] = rw e at h in
        rw e (omega (arith, summed-upsert_present x z ys h'))
  ]

module _ {ℓ} {F : Type ℓ} ⦃fl : F64 F⦄ where
  -- A number of a point that adds up the snapshots of its bucket, modulo 2^64: what one more adds to it.
  pub record IsTotal (value : AggregatedMetricPoint F → ℕ) (of : SecondBucket F → ℕ) : Type ℓ where
    pub grow : WorkerMetricSnapshot F → ℕ
    pub read : (t lag : ℕ) (b : SecondBucket F) → value (aggregate t lag b) ≡ of b
    pub none_yet : of empty_bucket ≡ 0
    pub grows :
        (snap : WorkerMetricSnapshot F) (b : SecondBucket F)
        → of (push_snapshot snap b) % u64_mod ≡ (of b + grow snap) % u64_mod

  module _ (value : AggregatedMetricPoint F → ℕ) (of : SecondBucket F → ℕ)
      (total : IsTotal value of) where
    record Adds (seen : List (WorkerMetricSnapshot F)) (s : AggregatorState F) : Type ℓ where
      dated : (t : ℕ) → IsUpToDate t seen s
      added : summed value s.timeline % u64_mod ≡ of (by_mode seen) % u64_mod

    -- The point of a second grows by what the snapshot adds.
    upsert-grows :
        (t lag : ℕ) (o : Option (SecondBucket F)) (snap : WorkerMetricSnapshot F)
        (timeline : List (AggregatedMetricPoint F))
        → Published t o timeline
        → summed value (
              upsert time
                (aggregate t lag (push_snapshot snap (unwrap_or o empty_bucket)))
                timeline)
            % u64_mod
          ≡ (summed value timeline + total.grow snap) % u64_mod
    unfolding aggregate
    upsert-grows t lag none snap timeline h =
        let x = aggregate t lag (push_snapshot snap empty_bucket) in
        omega (
          arith,
          summed-upsert_absent value x timeline h,
          total.read t lag (push_snapshot snap empty_bucket),
          total.grows snap empty_bucket,
          total.none_yet,
        )
    upsert-grows t lag (some b) snap timeline (old, h) =
        let x = aggregate t lag (push_snapshot snap b) in
        omega (
          arith,
          summed-upsert_present value x (aggregate t old b) timeline h,
          total.read t lag (push_snapshot snap b),
          total.read t old b,
          total.grows snap b,
        )

    receive-added :
        (seen : List (WorkerMetricSnapshot F)) (snap : WorkerMetricSnapshot F)
        (s : AggregatorState F)
        → Adds seen s
        → summed value (receive snap s).state.timeline % u64_mod
          ≡ of (by_mode (seen ++ snap ∷ [])) % u64_mod
    unfolding filed_under
    receive-added seen snap s a =
        let t = seconds snap.timestamp_ns in
        let u = a.dated t in
        let o = bucket_of (at_second t seen) in
        let filed : filed_under snap s ≡ push_snapshot snap (unwrap_or o empty_bucket) =
          ap (λ o. push_snapshot snap (unwrap_or o empty_bucket)) u.filed in
        let shape =
          (receive-shape snap s).1
          ∙ ap (λ b. upsert time (aggregate t s.kafka_consumer_lag b) s.timeline) filed in
        let step = upsert-grows t s.kafka_consumer_lag o snap s.timeline u.published in
        let more = ap of (by_mode-push seen snap) in
        omega (arith, ap (summed value) shape, step, more, a.added, total.grows snap (by_mode seen))

    kept-added :
        (seen : List (WorkerMetricSnapshot F)) (s : AggregatorState F)
        (timeline : List (AggregatedMetricPoint F))
        → timeline ≡ s.timeline
        → Adds seen s
        → summed value timeline % u64_mod ≡ of (by_mode (seen ++ [])) % u64_mod
    kept-added seen s timeline k a =
        rw (append-nil seen) (omega (arith, ap (summed value) k, a.added))

    apply-added :
        (seen : List (WorkerMetricSnapshot F)) (e : Event F) (s : AggregatorState F)
        → Adds seen s
        → summed value (apply e s).timeline % u64_mod ≡ of (by_mode (seen ++ sent_by e)) % u64_mod
    unfolding apply get_results open_stream record_lag
    apply-added seen (snapshot snap) s a = receive-added seen snap s a
    apply-added seen opened s a = kept-added seen s _ refl a
    apply-added seen closed s a = kept-added seen s _ (close_stream-keeps s).1 a
    apply-added seen (polled stream lag) s a = kept-added seen s _ refl a
    apply-added seen asked s a = kept-added seen s _ (reply_from-keeps s.state s).1 a

    run-added :
        (seen : List (WorkerMetricSnapshot F)) (es : List (Event F)) (s : AggregatorState F)
        → Adds seen s
        → summed value (run es s).timeline % u64_mod ≡ of (by_mode (seen ++ received es)) % u64_mod
    unfolding run
    run-added seen [] s a = rw (append-nil seen) a.added
    run-added seen (e ∷ es) s a = rw (← append_assoc seen (sent_by e) (received es)) (
        run-added (seen ++ sent_by e) es (apply e s) record {
          dated = λ t. apply-IsUpToDate t seen e s (a.dated t);
          added = apply-added seen e s a;
        })

    pub from_new :
        (path : String) (es : List (Event F))
        → summed value (run es (new path)).timeline % u64_mod ≡ of (by_mode (received es)) % u64_mod
    from_new path es = run-added [] es (new path) (
        unfold new in
        unfold bucket_at in
        record {
          dated = λ t. record { filed = refl; published = refl };
          added = omega (arith, total.none_yet);
        })
