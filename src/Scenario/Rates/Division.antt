-- ===== src/Scenario/Rates/Division.antt =====
-- What the rate tables give to the workers together, and to each of them.
use native.Mathlib.Nat.{div-add-mod, mod-lt}
use incident_bench.Base.{
  ℕ, zero, suc, ◌+◌, ◌-◌, ◌*◌, ◌/◌, ◌%◌, ◌≤◌, ◌<◌, max, ◌≡◌, ap, ◌∙◌, some, arith, get_elem?,
  get_elem?-map, F64,
}
use incident_bench.Scenario.{DataStream, PhaseDef, Scenario, target_of}
use incident_bench.Scenario.Rates.{
  share, ingest_rate, compute_ingest_rate_table, total_mqps, query_rate, compute_query_rate_table,
  sum_below, sum_below-congr, sum_below-share, eps_at, mqps_at,
}

sum_below-share-max : (total r : ℕ) → sum_below (max r 1) (share total (max r 1)) ≡ total
sum_below-share-max total zero = sum_below-share total 0
sum_below-share-max total (suc n) =
    let e : max (suc n) 1 ≡ suc n = omega arith in rw e (sum_below-share total n)

share-max-zero : (total r : ℕ) → 2 ≤ r → r * share total (max r 1) 0 ≡ total - total % r
unfolding share
share-max-zero total zero h = absurd (omega arith)
share-max-zero total (suc zero) h = absurd (omega arith)
share-max-zero total (suc (suc n)) h =
    let e : max (suc (suc n)) 1 ≡ suc (suc n) = omega arith in
    rw e (ground (arith, div-add-mod total (suc (suc n))))

share-max_bounds :
    (total r i : ℕ)
    → 1 ≤ r
    → (total / r ≤ share total (max r 1) i) × (share total (max r 1) i < total / r + r)
unfolding share
share-max_bounds total zero i h = absurd (omega arith)
share-max_bounds total (suc n) i h =
    let e : max (suc n) 1 ≡ suc n = omega arith in
    rw e (ground (arith, mod-lt total {m = suc n} (omega arith)))

module _ {ℓ} {F : Type ℓ} (s : Scenario F) (j : ℕ) {p : PhaseDef F}
    (at_j : get_elem? s.timeline.phases j ≡ some p) where
  eps_at-table :
      (stream : DataStream) (i : ℕ)
      → eps_at (get_elem? (compute_ingest_rate_table s stream i).phases j)
        ≡ share (target_of stream p.name) (max stream.ingest_replicas 1) i
  unfolding compute_ingest_rate_table
  eps_at-table stream i = ap eps_at (get_elem?-map (ingest_rate stream i) s.timeline.phases j at_j)

  -- In every phase the rates of the workers of a stream, over all its replicas (at least one), add
  -- up to the target of the stream in that phase.
  pub sum_below-ingest_eps :
      (stream : DataStream)
      → sum_below
          (max stream.ingest_replicas 1)
          (λ i. eps_at (get_elem? (compute_ingest_rate_table s stream i).phases j))
        ≡ target_of stream p.name
  sum_below-ingest_eps stream =
      sum_below-congr _ _ _ (λ i _. eps_at-table stream i)
      ∙ sum_below-share-max (target_of stream p.name) stream.ingest_replicas

  -- With two replicas or more, replicas that all take the table of worker 0 together reach the
  -- target less its remainder by the number of replicas.
  pub replicas-table_zero :
      (stream : DataStream)
      → 2 ≤ stream.ingest_replicas
      → stream.ingest_replicas * eps_at (get_elem? (compute_ingest_rate_table s stream 0).phases j)
        ≡ target_of stream p.name - target_of stream p.name % stream.ingest_replicas
  replicas-table_zero stream h =
      rw (eps_at-table stream 0) (share-max-zero (target_of stream p.name) stream.ingest_replicas h)

module _ {ℓ} {F : Type ℓ} ⦃fl : F64 F⦄ (s : Scenario F) (j : ℕ) {p : PhaseDef F}
    (at_j : get_elem? s.timeline.phases j ≡ some p) where
  mqps_at-table :
      (workers i : ℕ)
      → mqps_at (get_elem? (compute_query_rate_table s workers i).phases j)
        ≡ share (total_mqps p) (max workers 1) i
  unfolding compute_query_rate_table
  mqps_at-table workers i =
      ap mqps_at (get_elem?-map (query_rate (max workers 1) i) s.timeline.phases j at_j)

  -- In every phase the milli-QPS of the query workers, whatever their number (none counts as one),
  -- add up to the phase's target, 1000 times its QPS rounded down to an integer.
  pub sum_below-query_mqps :
      (workers : ℕ)
      → sum_below
          (max workers 1)
          (λ i. mqps_at (get_elem? (compute_query_rate_table s workers i).phases j))
        ≡ total_mqps p
  sum_below-query_mqps workers =
      sum_below-congr _ _ _ (λ i _. mqps_at-table workers i)
      ∙ sum_below-share-max (total_mqps p) workers

  -- In every phase a worker's milli-QPS are at least the even part of the target, and exceed it by
  -- less than the number of workers.
  pub query_mqps-bounds :
      (workers i : ℕ)
      → 1 ≤ workers
      → (total_mqps p / workers
          ≤ mqps_at (get_elem? (compute_query_rate_table s workers i).phases j))
        × (mqps_at (get_elem? (compute_query_rate_table s workers i).phases j)
            < total_mqps p / workers + workers)
  query_mqps-bounds workers i h =
      rw (mqps_at-table workers i) (share-max_bounds (total_mqps p) workers i h)
