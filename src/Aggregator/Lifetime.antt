-- ===== src/Aggregator/Lifetime.antt =====
-- The counts of the aggregator and its end.
use incident_bench.Base.{
  ℕ, ◌+◌, ◌-◌, ◌≤◌, ◌%◌, ◌≡◌, refl, String, Option, none, some, List, [], ◌∷◌, ◌++◌, arith, length,
  take, length-append, length-take, u64_mod, add_u64, F64,
}
use incident_bench.Metrics.{AggregatedMetricPoint}
use incident_bench.Aggregator.Snapshots.{WorkerMetricSnapshot, QueryErrorRecord}
use incident_bench.Aggregator.Bucket.{try_aggregate_bucket}
use incident_bench.Aggregator.{
  seconds, AggState, collecting, complete, AggregatorState, new, add_errors, open_stream, take_in,
  receive, publish, complete_from, complete_aggregation, close_stream, record_lag,
}
use incident_bench.Aggregator.Service.{reply_from, get_results}
use incident_bench.Aggregator.Runs.{
  Event, opened, snapshot, closed, polled, asked, apply, run, sent_by, received,
}

none_sent : (n : ℕ) → 0 + n ≡ n
none_sent n = omega arith

module _ {ℓ} {F : Type ℓ} where
  add_errors-bound :
      (more held : List (QueryErrorRecord F))
      → length held ≤ 1000
      → length (add_errors more held) ≤ 1000
  unfolding add_errors
  add_errors-bound more held h =
      let a = length-append held (take (1000 - length held) more) in
      let b = length-take (1000 - length held) more in ground (arith, a, b)

module _ {ℓ} {F : Type ℓ} ⦃fl : F64 F⦄ where
  -- The records of errors and the count of snapshots are the same.
  abbrev SameCounts : AggregatorState F → AggregatorState F → Type ℓ
  SameCounts s s' =
      (s'.query_error_records ≡ s.query_error_records) × (s'.total_snapshots ≡ s.total_snapshots)

  complete_from-SameCounts :
      (st : AggState) (s : AggregatorState F) → SameCounts s (complete_from st s).0
  unfolding complete_from
  complete_from-SameCounts complete s = (refl, refl)
  complete_from-SameCounts collecting s = (refl, refl)

  close_stream-SameCounts : (s : AggregatorState F) → SameCounts s (close_stream s).0
  unfolding close_stream complete_aggregation
  close_stream-SameCounts s =
      let k =
        complete_from-SameCounts s.state
          (record s { connected_workers = s.connected_workers - 1 }) in
      ground (arith, k)

  reply_from-SameCounts :
      (st : AggState) (s : AggregatorState F) → SameCounts s (reply_from st s).state
  unfolding reply_from complete_aggregation
  reply_from-SameCounts complete s = (refl, refl)
  reply_from-SameCounts collecting s =
      let k = complete_from-SameCounts s.state s in ground (arith, k)

  -- Publishing changes nothing that the counts and the end of the run read.
  publish-keeps :
      (t : ℕ) (o : Option (AggregatedMetricPoint F)) (s : AggregatorState F)
      → let s' = (publish t o s).state in
        (s'.query_error_records ≡ s.query_error_records)
        × (s'.total_snapshots ≡ s.total_snapshots)
        × (s'.connected_workers ≡ s.connected_workers)
        × (s'.had_workers ≡ s.had_workers)
        × (s'.state ≡ s.state)
  unfolding publish
  publish-keeps t none s = (refl, refl, refl, refl, refl)
  publish-keeps t (some p) s = (refl, refl, refl, refl, refl)

  pub receive-counts :
      (snap : WorkerMetricSnapshot F) (s : AggregatorState F)
      → let s' = (receive snap s).state in
        (s'.query_error_records ≡ add_errors snap.query_error_records s.query_error_records)
        × (s'.total_snapshots ≡ add_u64 s.total_snapshots 1)
        × (s'.connected_workers ≡ s.connected_workers)
        × (s'.had_workers ≡ s.had_workers)
        × (s'.state ≡ s.state)
  unfolding receive take_in
  receive-counts snap s =
      publish-keeps (seconds snap.timestamp_ns)
        (try_aggregate_bucket (take_in snap s).buckets (seconds snap.timestamp_ns)
          s.kafka_consumer_lag)
        (take_in snap s)

  -- The sample is within its bound, and the count is that of the snapshots.
  abbrev IsCounted : ℕ → AggregatorState F → Type 0
  IsCounted n s = (length s.query_error_records ≤ 1000) × (s.total_snapshots ≡ n % u64_mod)

  same-IsCounted :
      (n : ℕ) (s s' : AggregatorState F) → SameCounts s s' → IsCounted n s → IsCounted n s'
  same-IsCounted n s s' k c = rw (k.0, k.1) c

  receive-IsCounted :
      (n : ℕ) (snap : WorkerMetricSnapshot F) (s : AggregatorState F)
      → IsCounted n s
      → IsCounted (n + 1) (receive snap s).state
  receive-IsCounted n snap s c =
      let k = receive-counts snap s in
      rw (k.0, k.1)
        (
          add_errors-bound snap.query_error_records s.query_error_records c.0,
          unfold add_u64 in omega (arith, c.1),
        )

  apply-IsCounted :
      (n : ℕ) (e : Event F) (s : AggregatorState F)
      → IsCounted n s
      → IsCounted (length (sent_by e) + n) (apply e s)
  unfolding apply get_results open_stream record_lag
  apply-IsCounted n opened s c = rw (none_sent n) c
  apply-IsCounted n (snapshot snap) s c =
      let e : 1 + n ≡ n + 1 = omega arith in rw e (receive-IsCounted n snap s c)
  apply-IsCounted n closed s c =
      rw (none_sent n) (same-IsCounted n s (close_stream s).0 (close_stream-SameCounts s) c)
  apply-IsCounted n (polled stream lag) s c = rw (none_sent n) c
  apply-IsCounted n asked s c =
      rw (none_sent n)
        (same-IsCounted n s (reply_from s.state s).state (reply_from-SameCounts s.state s) c)

  run-IsCounted :
      (n : ℕ) (es : List (Event F)) (s : AggregatorState F)
      → IsCounted n s
      → IsCounted (n + length (received es)) (run es s)
  unfolding run
  run-IsCounted n [] s c = let z : n + 0 ≡ n = omega arith in rw z c
  run-IsCounted n (e ∷ es) s c =
      let z : n + length (sent_by e ++ received es)
          ≡ length (sent_by e) + n + length (received es) =
        omega (arith, length-append (sent_by e) (received es)) in
      rw z (run-IsCounted (length (sent_by e) + n) es (apply e s) (apply-IsCounted n e s c))

  -- After any calls, in any order, on a new aggregator: it holds at most 1000 records of query errors,
  -- and its count of snapshots is the number that came, modulo 2^64.
  pub run-counts :
      (path : String) (es : List (Event F))
      → let s = run es (new path) in
        (length s.query_error_records ≤ 1000) × (s.total_snapshots ≡ length (received es) % u64_mod)
  run-counts path es =
      let z = none_sent (length (received es)) in
      rw z at (run-IsCounted 0 es (new path) (unfold new in (omega arith, omega arith)))
