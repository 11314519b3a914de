-- ===== src/Aggregator/Seconds.antt =====
-- The points of the timeline against the snapshots that came in, over every order of the calls.
use mathlib.Core.List.{append_assoc, append-nil}
use mathlib.Core.Path.{subst}
use incident_bench.Base.{
  ℕ, ◌≡◌, refl, sym, ap, ◌∙◌, ◌⊎◌, inl, inr, ◌≢◌, String, true, false, Option, none, some, List, [],
  ◌∷◌, ◌++◌, arith, ◌-◌, ◌==◌, ==_iff, Bool-cases, unwrap_or, F64,
}
use incident_bench.Metrics.{AggregatedMetricPoint}
use incident_bench.Aggregator.Snapshots.{
  WorkerMetricSnapshot, SecondBucket, bucket_at, push_snapshot, file_snapshot, empty_bucket,
}
use incident_bench.Aggregator.Bucket.{aggregate, try_aggregate_bucket}
use incident_bench.Aggregator.{
  AggState, collecting, complete, AggregatorState, new, seconds, upsert, open_stream, receive,
  complete_from, complete_aggregation, close_stream, record_lag,
}
use incident_bench.Aggregator.Service.{reply_from, get_results}
use incident_bench.Aggregator.Runs.{
  Event, opened, snapshot, closed, polled, asked, apply, run, sent_by, received, at_second, by_mode,
  points_at,
}
use incident_bench.Aggregator.Filing.{
  bucket_of, filter-snoc, bucket_of-push, bucket_at-file_snapshot, time, points_at-upsert_other,
  points_at-upsert_absent, points_at-upsert_present,
}

module _ {ℓ} {F : Type ℓ} ⦃fl : F64 F⦄ where
  -- The points of a second, for what its bucket holds.
  abbrev pub Published : ℕ → Option (SecondBucket F) → List (AggregatedMetricPoint F) → Type ℓ
  Published t none timeline = points_at t timeline ≡ []
  Published t (some b) timeline = (lag : ℕ) × (points_at t timeline ≡ aggregate t lag b ∷ [])

  pub record IsUpToDate (t : ℕ) (seen : List (WorkerMetricSnapshot F)) (s : AggregatorState F)
      : Type ℓ where
    pub filed : bucket_at t s.buckets ≡ bucket_of (at_second t seen)
    pub published : Published t (bucket_of (at_second t seen)) s.timeline

  Published-upsert :
      (t lag : ℕ) (o : Option (SecondBucket F)) (b : SecondBucket F)
      (timeline : List (AggregatedMetricPoint F))
      → Published t o timeline
      → Published t (some b) (upsert time (aggregate t lag b) timeline)
  unfolding aggregate
  Published-upsert t lag none b timeline h =
      (lag, points_at-upsert_absent (aggregate t lag b) timeline h)
  Published-upsert t lag (some a) b timeline h =
      (lag, points_at-upsert_present (aggregate t lag b) _ timeline h.1)

  complete_from-keeps :
      (st : AggState) (s : AggregatorState F)
      → ((complete_from st s).0.buckets ≡ s.buckets)
        × ((complete_from st s).0.timeline ≡ s.timeline)
  unfolding complete_from
  complete_from-keeps complete s = (refl, refl)
  complete_from-keeps collecting s = (refl, refl)

  pub close_stream-keeps :
      (s : AggregatorState F)
      → ((close_stream s).0.buckets ≡ s.buckets) × ((close_stream s).0.timeline ≡ s.timeline)
  unfolding close_stream complete_aggregation
  close_stream-keeps s =
      let k =
        complete_from-keeps s.state (record s { connected_workers = s.connected_workers - 1 }) in
      ground (arith, k)

  pub reply_from-keeps :
      (st : AggState) (s : AggregatorState F)
      → ((reply_from st s).state.buckets ≡ s.buckets)
        × ((reply_from st s).state.timeline ≡ s.timeline)
  unfolding reply_from complete_aggregation
  reply_from-keeps complete s = (refl, refl)
  reply_from-keeps collecting s = let k = complete_from-keeps s.state s in ground (arith, k)

  kept :
      (t : ℕ) (seen : List (WorkerMetricSnapshot F)) (s s' : AggregatorState F)
      → (s'.buckets ≡ s.buckets) × (s'.timeline ≡ s.timeline)
      → IsUpToDate t seen s
      → IsUpToDate t seen s'
  kept t seen s s' k u = record {
    filed = ap (bucket_at t) k.0 ∙ u.filed;
    published = subst (Published t (bucket_of (at_second t seen))) (sym k.1) u.published;
  }

  unfoldable pub filed_under : WorkerMetricSnapshot F → AggregatorState F → SecondBucket F
  filed_under snap s =
      push_snapshot snap (unwrap_or (bucket_at (seconds snap.timestamp_ns) s.buckets) empty_bucket)

  pub receive-shape :
      (snap : WorkerMetricSnapshot F) (s : AggregatorState F)
      → let t = seconds snap.timestamp_ns in
        ((receive snap s).state.buckets ≡ file_snapshot t snap s.buckets)
        × ((receive snap s).state.timeline
            ≡ upsert time (aggregate t s.kafka_consumer_lag (filed_under snap s)) s.timeline)
  unfolding receive try_aggregate_bucket filed_under
  receive-shape snap s =
      let t = seconds snap.timestamp_ns in
      let same : (t == t) ≡ true = ground arith in
      let e : bucket_at t (file_snapshot t snap s.buckets) ≡ some (filed_under snap s) =
        bucket_at-file_snapshot t t snap s.buckets ∙ rw same refl in
      rw e (refl, refl)

  at_second-here :
      (t : ℕ) (seen : List (WorkerMetricSnapshot F)) (snap : WorkerMetricSnapshot F)
      → (seconds snap.timestamp_ns == t) ≡ true
      → at_second t (seen ++ snap ∷ []) ≡ at_second t seen ++ snap ∷ []
  at_second-here t seen snap h =
      filter-snoc (λ (s : WorkerMetricSnapshot F). seconds s.timestamp_ns == t) seen snap
      ∙ rw h refl

  at_second-elsewhere :
      (t : ℕ) (seen : List (WorkerMetricSnapshot F)) (snap : WorkerMetricSnapshot F)
      → (seconds snap.timestamp_ns == t) ≡ false
      → at_second t (seen ++ snap ∷ []) ≡ at_second t seen
  at_second-elsewhere t seen snap h =
      filter-snoc (λ (s : WorkerMetricSnapshot F). seconds s.timestamp_ns == t) seen snap
      ∙ rw h (append-nil _)

  receive-here :
      (seen : List (WorkerMetricSnapshot F)) (snap : WorkerMetricSnapshot F) (s : AggregatorState F)
      → IsUpToDate (seconds snap.timestamp_ns) seen s
      → IsUpToDate (seconds snap.timestamp_ns) (seen ++ snap ∷ []) (receive snap s).state
  unfolding filed_under
  receive-here seen snap s u =
      let t = seconds snap.timestamp_ns in
      let same : (t == t) ≡ true = ground arith in
      let shape = receive-shape snap s in
      let here = at_second-here t seen snap same in
      let b : bucket_of (at_second t (seen ++ snap ∷ [])) ≡ some (filed_under snap s) =
        ap bucket_of here
        ∙ bucket_of-push (at_second t seen) snap
        ∙ ap (λ o. some (push_snapshot snap (unwrap_or o empty_bucket))) (sym u.filed) in
      record {
        filed =
            ap (bucket_at t) shape.0 ∙ bucket_at-file_snapshot t t snap s.buckets ∙ rw same (sym b);
        published =
            subst (Published t (bucket_of (at_second t (seen ++ snap ∷ [])))) (sym shape.1) (
              subst
                (λ o.
                  Published t o (
                    upsert time (aggregate t s.kafka_consumer_lag (filed_under snap s)) s.timeline))
                (sym b)
                (Published-upsert t s.kafka_consumer_lag (bucket_of (at_second t seen))
                  (filed_under snap s) s.timeline u.published));
      }

  Published-congr :
      (t : ℕ) (o : Option (SecondBucket F)) (xs ys : List (AggregatedMetricPoint F))
      → points_at t xs ≡ points_at t ys
      → Published t o ys
      → Published t o xs
  Published-congr t none xs ys e h = e ∙ h
  Published-congr t (some b) xs ys e h = (h.0, e ∙ h.1)

  receive-elsewhere :
      (t : ℕ) (seen : List (WorkerMetricSnapshot F)) (snap : WorkerMetricSnapshot F)
      (s : AggregatorState F)
      → (seconds snap.timestamp_ns == t) ≡ false
      → IsUpToDate t seen s
      → IsUpToDate t (seen ++ snap ∷ []) (receive snap s).state
  unfolding aggregate
  receive-elsewhere t seen snap s h u =
      let shape = receive-shape snap s in
      let point = aggregate (seconds snap.timestamp_ns) s.kafka_consumer_lag (filed_under snap s) in
      let same = points_at-upsert_other t point s.timeline h in
      let b = ap bucket_of (at_second-elsewhere t seen snap h) in
      record {
        filed =
            ap (bucket_at t) shape.0
            ∙ bucket_at-file_snapshot t (seconds snap.timestamp_ns) snap s.buckets
            ∙ rw h (u.filed ∙ sym b);
        published =
            subst (λ o. Published t o (receive snap s).state.timeline) (sym b)
              (Published-congr t (bucket_of (at_second t seen)) (receive snap s).state.timeline
                s.timeline (ap (points_at t) shape.1 ∙ same) u.published);
      }

  receive-IsUpToDate :
      (t : ℕ) (seen : List (WorkerMetricSnapshot F)) (snap : WorkerMetricSnapshot F)
      (s : AggregatorState F)
      → IsUpToDate t seen s
      → IsUpToDate t (seen ++ snap ∷ []) (receive snap s).state
  receive-IsUpToDate t seen snap s u = elim (Bool-cases (seconds snap.timestamp_ns == t)) [
    | inl e ↦
        let d : seconds snap.timestamp_ns ≡ t = (==_iff (seconds snap.timestamp_ns) t).0 e in
        subst (λ k. IsUpToDate k (seen ++ snap ∷ []) (receive snap s).state) d
          (receive-here seen snap s (subst (λ k. IsUpToDate k seen s) (sym d) u))
    | inr e ↦ receive-elsewhere t seen snap s e u
  ]

  pub apply-IsUpToDate :
      (t : ℕ) (seen : List (WorkerMetricSnapshot F)) (e : Event F) (s : AggregatorState F)
      → IsUpToDate t seen s
      → IsUpToDate t (seen ++ sent_by e) (apply e s)
  unfolding apply get_results open_stream record_lag
  apply-IsUpToDate t seen (snapshot snap) s u = receive-IsUpToDate t seen snap s u
  apply-IsUpToDate t seen opened s u = rw (append-nil seen) (kept t seen s _ (refl, refl) u)
  apply-IsUpToDate t seen closed s u =
      rw (append-nil seen) (kept t seen s _ (close_stream-keeps s) u)
  apply-IsUpToDate t seen (polled stream lag) s u =
      rw (append-nil seen) (kept t seen s _ (refl, refl) u)
  apply-IsUpToDate t seen asked s u =
      rw (append-nil seen) (kept t seen s _ (reply_from-keeps s.state s) u)

  run-IsUpToDate :
      (t : ℕ) (seen : List (WorkerMetricSnapshot F)) (es : List (Event F)) (s : AggregatorState F)
      → IsUpToDate t seen s
      → IsUpToDate t (seen ++ received es) (run es s)
  unfolding run
  run-IsUpToDate t seen [] s u = rw (append-nil seen) u
  run-IsUpToDate t seen (e ∷ es) s u =
      subst (λ l. IsUpToDate t l (run es (apply e s))) (append_assoc seen (sent_by e) (received es))
        (run-IsUpToDate t (seen ++ sent_by e) es (apply e s) (apply-IsUpToDate t seen e s u))

  split :
      (t : ℕ) (here : List (WorkerMetricSnapshot F)) (timeline : List (AggregatedMetricPoint F))
      → Published t (bucket_of here) timeline
      → ((here ≡ []) × (points_at t timeline ≡ []))
        ⊎ ((here ≢ []) × ((lag : ℕ) × (points_at t timeline ≡ aggregate t lag (by_mode here) ∷ [])))
  split t [] timeline h = inl (refl, h)
  split t (x ∷ xs) timeline h = inr (λ e. cc, h)

  -- After any calls, in any order, on a new aggregator: the timeline has no point for a second from
  -- which no snapshot came, and exactly one point for every other second, which is the aggregate of
  -- all the snapshots that came for that second, by the mode of the worker and in their order, with
  -- some value for the consumer lag.
  pub timeline-seconds :
      (path : String) (es : List (Event F)) (t : ℕ)
      → let here = at_second t (received es) in
        let timeline = (run es (new path)).timeline in
        ((here ≡ []) × (points_at t timeline ≡ []))
        ⊎ ((here ≢ []) × ((lag : ℕ) × (points_at t timeline ≡ aggregate t lag (by_mode here) ∷ [])))
  timeline-seconds path es t =
      let u =
        run-IsUpToDate t [] es (new path)
          (unfold new in unfold bucket_at in record { filed = refl; published = refl }) in
      split t (at_second t (received es)) (run es (new path)).timeline u.published
