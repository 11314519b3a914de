-- ===== src/Metrics/Percentiles.antt =====
-- The percentiles of a merged distribution are in order.
use incident_bench.Base.{
  ℕ, ◌+◌, ◌<◌, ◌^◌, ℤ, pos, leb_ℤ, as_u64, ◌≡◌, true, List, [], ◌∷◌, All, All-append, arith, last,
  if◌then◌else◌, Bool-cases, inl, inr, F64, ◌≼◌, IsNumber, IsOrdered,
}
use incident_bench.Metrics.{
  Centroid, LatencyDistribution, PercentileSummary, mean_or_zero, percentile_from_centroids,
  all_centroids, total_count, global_max, sort_by, is_zero, default_summary,
  merge_latency_distributions,
}
use incident_bench.Metrics.Sorting.{Sorted, Numbers, All-sort_by, sort_by-Sorted}
use incident_bench.Metrics.Reach.{
  key, IsNatural, counted, total_count-plain, counted-sort_by, reach-le, reach-mono, last-Numbers,
  last-le, last-ge,
}

-- What the percentiles use of floating point: a product with a count, not negative, keeps the
-- order of the quantiles 0.50, 0.95 and 0.99 through the cast to `i64`, and `max` keeps its left operand.
pub record HasQuantiles {ℓ} (F : Type ℓ) ⦃fl : F64 F⦄ : Type ℓ where
  pub half :
      (n : ℕ)
      → leb_ℤ
          (fl.to_i64 (fl.mul (fl.of_int (pos n)) (fl.lit 50 2)))
          (fl.to_i64 (fl.mul (fl.of_int (pos n)) (fl.lit 95 2)))
        ≡ true
  pub most :
      (n : ℕ)
      → leb_ℤ
          (fl.to_i64 (fl.mul (fl.of_int (pos n)) (fl.lit 95 2)))
          (fl.to_i64 (fl.mul (fl.of_int (pos n)) (fl.lit 99 2)))
        ≡ true
  pub max-ge_left : (x y : F) → IsNumber x → x ≼ fl.fmax x y
  pub max-ge : (x y : F) → IsNumber y → y ≼ fl.fmax x y

module _ {ℓ} {F : Type ℓ} ⦃fl : F64 F⦄ where
  abbrev pub InOrder : PercentileSummary F → Type 0
  InOrder s = (s.p50 ≼ s.p95) × (s.p95 ≼ s.p99) × (s.p99 ≼ s.max)

  -- The means of a distribution are numbers, at most its maximum.
  abbrev pub IsCapped : LatencyDistribution F → Type 0
  IsCapped d = All (λ (c : Centroid F). c.mean ≼ d.max) d.centroids

module _ {ℓ} {F : Type ℓ} ⦃fl : F64 F⦄ (order : IsOrdered F) (quantiles : HasQuantiles F) where
  percentile-mono :
      (total : ℤ) (p q : F) (cs : List (Centroid F))
      → leb_ℤ (fl.to_i64 (fl.mul (fl.of_int total) p)) (fl.to_i64 (fl.mul (fl.of_int total) q))
        ≡ true
      → Numbers key cs
      → Sorted key cs
      → percentile_from_centroids cs total p ≼ percentile_from_centroids cs total q
  unfolding percentile_from_centroids
  percentile-mono total p q cs l h s =
      reach-mono order _ _ (pos 0) (mean_or_zero (last cs)) cs l (last-Numbers order cs h) h s
        (last-ge order cs h s)

  percentile-le :
      (total : ℤ) (q y : F) (c : Centroid F) (cs : List (Centroid F))
      → All (λ d. d.mean ≼ y) (c ∷ cs)
      → percentile_from_centroids (c ∷ cs) total q ≼ y
  unfolding percentile_from_centroids
  percentile-le total q y c cs h = reach-le order y _ (pos 0) _ (c ∷ cs) h (last-le order y c cs h)

  default-InOrder : InOrder {F = F} default_summary
  default-InOrder = (order.lit_number 0 0, order.lit_number 0 0, order.lit_number 0 0)

  global_max-ge : (x : F) (ds : List (LatencyDistribution F)) → IsNumber x → x ≼ global_max x ds
  unfolding global_max
  global_max-ge x [] n = n
  global_max-ge x (d ∷ ds) n =
      let step = quantiles.max-ge_left x d.max n in
      order.le_trans x (fl.fmax x d.max) _ step
        (global_max-ge (fl.fmax x d.max) ds (order.number_of_le x _ step).1)

  capped_le :
      (x y : F) (cs : List (Centroid F))
      → x ≼ y
      → All (λ (c : Centroid F). c.mean ≼ x) cs
      → All (λ (c : Centroid F). c.mean ≼ y) cs
  capped_le x y [] h a = tt
  capped_le x y (c ∷ cs) h a = (order.le_trans c.mean x y a.0 h, capped_le x y cs h a.1)

  capped_max :
      (acc : F) (d : LatencyDistribution F) (ds : List (LatencyDistribution F))
      (cs : List (Centroid F))
      → All (λ (c : Centroid F). c.mean ≼ d.max) cs
      → All (λ (c : Centroid F). c.mean ≼ global_max (fl.fmax acc d.max) ds) cs
  capped_max acc d ds [] a = tt
  capped_max acc d ds (c ∷ cs) a =
      let step = quantiles.max-ge acc d.max (order.number_of_le c.mean d.max a.0).1 in
      capped_le d.max _ (c ∷ cs)
        (order.le_trans d.max _ _ step
          (global_max-ge (fl.fmax acc d.max) ds (order.number_of_le d.max _ step).1))
        a

  all_centroids-le :
      (acc : F) (ds : List (LatencyDistribution F))
      → All IsCapped ds
      → All (λ (c : Centroid F). c.mean ≼ global_max acc ds) (all_centroids ds)
  unfolding global_max
  all_centroids-le acc [] h = tt
  all_centroids-le acc (d ∷ ds) h =
      All-append (λ (c : Centroid F). c.mean ≼ global_max (fl.fmax acc d.max) ds) d.centroids
        (all_centroids ds) (capped_max acc d ds d.centroids h.0)
        (all_centroids-le (fl.fmax acc d.max) ds h.1)

  Numbers-of_le :
      (y : F) (cs : List (Centroid F)) → All (λ (c : Centroid F). c.mean ≼ y) cs → Numbers key cs
  Numbers-of_le y [] h = tt
  Numbers-of_le y (c ∷ cs) h = ((order.number_of_le c.mean y h.0).0, Numbers-of_le y cs h.1)

  merged-InOrder :
      (y : F) (n : ℕ) (cs : List (Centroid F))
      → total_count (pos 0) cs ≡ pos n
      → Numbers key cs
      → Sorted key cs
      → All (λ (c : Centroid F). c.mean ≼ y) cs
      → let total = total_count (pos 0) cs in
        InOrder (
          if is_zero total then default_summary else record {
            p50 = percentile_from_centroids cs total (fl.lit 50 2);
            p95 = percentile_from_centroids cs total (fl.lit 95 2);
            p99 = percentile_from_centroids cs total (fl.lit 99 2);
            max = y;
            count = as_u64 total;
          })
  unfolding total_count
  merged-InOrder y k [] e n s h = default-InOrder
  merged-InOrder y k (c ∷ cs) t n s h =
      let total = total_count (pos 0) (c ∷ cs) in
      elim (Bool-cases (is_zero total)) [
        | inl e ↦ rw e default-InOrder
        | inr e ↦ rw e (
          percentile-mono total _ _ (c ∷ cs) (rw t (quantiles.half k)) n s,
          percentile-mono total _ _ (c ∷ cs) (rw t (quantiles.most k)) n s,
          percentile-le total _ y c cs h,
        )
      ]

  -- The merged percentiles are in order, p50 <= p95 <= p99 <= max, if the means of each distribution
  -- are numbers that do not exceed its maximum, and the counts are not negative and add up to less
  -- than 2^63.
  pub merge_latency_distributions-InOrder :
      (dists : List (LatencyDistribution F))
      → All IsCapped dists
      → All IsNatural (all_centroids dists)
      → counted (all_centroids dists) < 2 ^ 63
      → InOrder (merge_latency_distributions dists)
  unfolding merge_latency_distributions
  merge_latency_distributions-InOrder [] h c b = default-InOrder
  merge_latency_distributions-InOrder (d ∷ ds) h c b =
      let centroids = all_centroids (d ∷ ds) in
      let y = global_max fl.lowest (d ∷ ds) in
      let capped = all_centroids-le fl.lowest (d ∷ ds) h in
      let numbers = Numbers-of_le y centroids capped in
      let z : 0 + counted (sort_by key centroids) ≡ counted centroids =
        omega (arith, counted-sort_by centroids) in
      let total =
        total_count-plain 0 (sort_by key centroids) (All-sort_by key IsNatural centroids c)
          (omega (arith, z)) in
      merged-InOrder y (0 + counted (sort_by key centroids)) (sort_by key centroids) total
        (All-sort_by key (λ c. IsNumber c.mean) centroids numbers)
        (sort_by-Sorted key order centroids numbers)
        (All-sort_by key (λ c. c.mean ≼ y) centroids capped)
