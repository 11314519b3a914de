-- ===== src/Metrics/Compression.antt =====
-- The compression of observed latencies into centroids.
use incident_bench.Base.{
  ℕ, zero, suc, ◌-◌, ◌*◌, ◌/◌, ◌^◌, ◌≤◌, ◌<◌, max, pos, as_i64-small, ◌≡◌, refl, List, [], ◌∷◌,
  arith, length, take, drop, length-take, F64,
}
use incident_bench.Metrics.{sort_by, compress, latency_distribution_from_values}
use incident_bench.Metrics.Reach.{counted}
use incident_bench.Metrics.Sorting.{length-sort_by}

length-drop {ℓ} : {A : Type ℓ} (n : ℕ) (xs : List A) → length (drop n xs) ≡ length xs - n
length-drop zero xs = omega arith
length-drop (suc n) [] = omega arith
length-drop (suc n) (x ∷ xs) = omega (arith, length-drop n xs)

chunks_enough : (n : ℕ) → n ≤ 199 * max (n / 100) 1
chunks_enough n = omega arith

module _ {ℓ} {F : Type ℓ} ⦃fl : F64 F⦄ where
  counted-compress :
      (fuel size : ℕ) (values : List F)
      → 1 ≤ size
      → length values ≤ fuel
      → length values < 2 ^ 63
      → counted (compress fuel size values) ≡ length values
  unfolding compress
  counted-compress zero size [] s f b = refl
  counted-compress zero size (v ∷ vs) s f b = absurd (omega arith)
  counted-compress (suc fuel) size [] s f b = refl
  counted-compress (suc fuel) size (v ∷ vs) s f b =
      let l = length-take size (v ∷ vs) in
      let d = length-drop size (v ∷ vs) in
      let e = as_i64-small (length (take size (v ∷ vs))) (omega (arith, l)) in
      rw e (
        omega (
          arith,
          l,
          d,
          counted-compress fuel size (drop size (v ∷ vs)) s (omega (arith, d)) (omega (arith, d)),
        ))

  -- No more chunks than the values fill, the last one in part.
  length-compress :
      (fuel size k : ℕ) (values : List F)
      → 1 ≤ size
      → length values ≤ k * size
      → length (compress fuel size values) ≤ k
  unfolding compress
  length-compress zero size k values s h = omega arith
  length-compress (suc fuel) size k [] s h = omega arith
  length-compress (suc fuel) size zero (v ∷ vs) s h = absurd (omega arith)
  length-compress (suc fuel) size (suc k) (v ∷ vs) s h =
      let d = length-drop size (v ∷ vs) in
      omega (arith, length-compress fuel size k (drop size (v ∷ vs)) s (omega (arith, d)))

  -- Fewer than 2^63 values are compressed into at most 199 centroids, whose counts add up to the
  -- number of values, which is also the count of the distribution.
  pub latency_distribution_from_values-counts :
      (values : List F)
      → length values < 2 ^ 63
      → let d = latency_distribution_from_values values in
        (counted d.centroids ≡ length values)
        × (d.count ≡ pos (length values))
        × (length d.centroids ≤ 199)
  unfolding latency_distribution_from_values
  latency_distribution_from_values-counts [] h = (refl, refl, omega arith)
  latency_distribution_from_values-counts (v ∷ vs) h =
      let sorted = sort_by (λ x. x) (v ∷ vs) in
      let l = length-sort_by (λ (x : F). x) (v ∷ vs) in
      let size = max (length sorted / 100) 1 in
      (
        omega (
          arith,
          l,
          counted-compress (length sorted) size sorted (omega arith) (omega arith)
              (omega (arith, l)),
        ),
        as_i64-small (length (v ∷ vs)) h,
        length-compress (length sorted) size 199 sorted (omega arith)
            (chunks_enough (length sorted)),
      )
