-- ===== src/Metrics/Reach.antt =====
-- How a percentile is found among the centroids: sums of counts, and what a higher target does.
use incident_bench.Base.{
  ℕ, ◌+◌, ◌<◌, ◌^◌, max_zero, add_u64, ap, ◌∙◌, ℤ, pos, negsuc, add_i64, leb_ℤ, ◌≡◌, refl, true,
  List, [], ◌∷◌, All, arith, last, Bool-cases, inl, inr, F64, ◌≼◌, IsNumber, IsOrdered,
}
use incident_bench.Metrics.{Centroid, reach, mean_or_zero, total_count, sort_by, insert_by}
use incident_bench.Metrics.Sorting.{Sorted, Numbers}

leb_ℤ-trans : (a b c : ℤ) → leb_ℤ a b ≡ true → leb_ℤ b c ≡ true → leb_ℤ a c ≡ true
leb_ℤ-trans (pos a) (pos b) (pos c) h k = ground arith
leb_ℤ-trans (pos a) (pos b) (negsuc c) h k = cc
leb_ℤ-trans (pos a) (negsuc b) c h k = cc
leb_ℤ-trans (negsuc a) (pos b) (pos c) h k = refl
leb_ℤ-trans (negsuc a) (pos b) (negsuc c) h k = cc
leb_ℤ-trans (negsuc a) (negsuc b) (pos c) h k = refl
leb_ℤ-trans (negsuc a) (negsuc b) (negsuc c) h k = ground arith

abbrev pub key {ℓ} : {F : Type ℓ} → Centroid F → F
key c = c.mean

module _ {ℓ} {F : Type ℓ} ⦃fl : F64 F⦄ (order : IsOrdered F) where
  -- All means are at most the value behind them.
  fallback-Below :
      (x : F) (c : Centroid F) (cs : List (Centroid F))
      → All (λ d. x ≼ d.mean) (c ∷ cs)
      → x ≼ mean_or_zero (last (c ∷ cs))
  fallback-Below x c [] h = h.0
  fallback-Below x c (d ∷ ds) h = fallback-Below x d ds h.1

  reach-ge :
      (x : F) (target cumulative : ℤ) (fallback : F) (cs : List (Centroid F))
      → All (λ d. x ≼ d.mean) cs
      → x ≼ fallback
      → x ≼ reach target cumulative fallback cs
  unfolding reach
  reach-ge x target cumulative fallback [] h f = f
  reach-ge x target cumulative fallback (c ∷ cs) h f =
      elim (Bool-cases (leb_ℤ target (add_i64 cumulative c.count))) [
        | inl e ↦ rw e h.0
        | inr e ↦ rw e (reach-ge x target (add_i64 cumulative c.count) fallback cs h.1 f)
      ]

  pub reach-le :
      (y : F) (target cumulative : ℤ) (fallback : F) (cs : List (Centroid F))
      → All (λ d. d.mean ≼ y) cs
      → fallback ≼ y
      → reach target cumulative fallback cs ≼ y
  unfolding reach
  reach-le y target cumulative fallback [] h f = f
  reach-le y target cumulative fallback (c ∷ cs) h f =
      elim (Bool-cases (leb_ℤ target (add_i64 cumulative c.count))) [
        | inl e ↦ rw e h.0
        | inr e ↦ rw e (reach-le y target (add_i64 cumulative c.count) fallback cs h.1 f)
      ]

  -- A higher target is reached at the same centroid or a later one, whatever the counts.
  pub reach-mono :
      (low high cumulative : ℤ) (fallback : F) (cs : List (Centroid F))
      → leb_ℤ low high ≡ true
      → IsNumber fallback
      → Numbers key cs
      → Sorted key cs
      → All (λ d. d.mean ≼ fallback) cs
      → reach low cumulative fallback cs ≼ reach high cumulative fallback cs
  unfolding reach
  reach-mono low high cumulative fallback [] l n h s f = n
  reach-mono low high cumulative fallback (c ∷ cs) l n h s f =
      let now = add_i64 cumulative c.count in
      elim (Bool-cases (leb_ℤ low now)) [
        | inl e ↦ elim (Bool-cases (leb_ℤ high now)) [
          | inl d ↦ rw (e, d) h.0
          | inr d ↦ rw (e, d) (reach-ge c.mean high now fallback cs s.0 f.0)
        ]
        | inr e ↦ elim (Bool-cases (leb_ℤ high now)) [
          | inl d ↦ absurd (let t = leb_ℤ-trans low high now l d in ground arith)
          | inr d ↦ rw (e, d) (reach-mono low high now fallback cs l n h.1 s.1 f.1)
        ]
      ]

  pub last-Numbers : (cs : List (Centroid F)) → Numbers key cs → IsNumber (mean_or_zero (last cs))
  last-Numbers [] h = order.lit_number 0 0
  last-Numbers (c ∷ []) h = h.0
  last-Numbers (c ∷ d ∷ ds) h = last-Numbers (d ∷ ds) h.1

  pub last-le :
      (y : F) (c : Centroid F) (cs : List (Centroid F))
      → All (λ d. d.mean ≼ y) (c ∷ cs)
      → mean_or_zero (last (c ∷ cs)) ≼ y
  last-le y c [] h = h.0
  last-le y c (d ∷ ds) h = last-le y d ds h.1

  -- In a sorted list the last mean is the largest.
  pub last-ge :
      (cs : List (Centroid F))
      → Numbers key cs
      → Sorted key cs
      → All (λ d. d.mean ≼ mean_or_zero (last cs)) cs
  last-ge [] h s = tt
  last-ge (c ∷ []) h s = (h.0, tt)
  last-ge (c ∷ d ∷ ds) h s = (fallback-Below c.mean d ds s.0, last-ge (d ∷ ds) h.1 s.1)

-- Non-negative counts with a sum below 2^63 add up without a wrap-around.
add_i64-plain : (a b : ℕ) → a + b < 2 ^ 63 → add_i64 (pos a) (pos b) ≡ pos (a + b)
unfolding add_i64 add_u64
add_i64-plain a b h = ground arith

module _ {ℓ} {F : Type ℓ} where
  abbrev pub IsNatural : Centroid F → Type 0
  IsNatural c = c.count ≡ pos (max_zero c.count)

  -- The counts of the centroids, added up.
  abbrev pub counted : List (Centroid F) → ℕ
  counted [] = 0
  counted (c ∷ cs) = max_zero c.count + counted cs

module _ {ℓ} {F : Type ℓ} ⦃fl : F64 F⦄ where
  pub total_count-plain :
      (acc : ℕ) (cs : List (Centroid F))
      → All IsNatural cs
      → acc + counted cs < 2 ^ 63
      → total_count (pos acc) cs ≡ pos (acc + counted cs)
  unfolding total_count
  total_count-plain acc [] h b = ap pos (omega arith)
  total_count-plain acc (c ∷ cs) h b =
      let one : add_i64 (pos acc) c.count ≡ pos (acc + max_zero c.count) =
        ap (add_i64 (pos acc)) h.0 ∙ add_i64-plain acc (max_zero c.count) (omega arith) in
      rw one
        (total_count-plain (acc + max_zero c.count) cs h.1 (omega arith) ∙ ap pos (omega arith))

  counted-insert_by :
      (c : Centroid F) (cs : List (Centroid F))
      → counted (insert_by key c cs) ≡ max_zero c.count + counted cs
  unfolding insert_by
  counted-insert_by c [] = refl
  counted-insert_by c (d ∷ ds) = ground (arith, counted-insert_by c ds)

  pub counted-sort_by : (cs : List (Centroid F)) → counted (sort_by key cs) ≡ counted cs
  unfolding sort_by
  counted-sort_by [] = refl
  counted-sort_by (c ∷ cs) = omega (arith, counted-insert_by c (sort_by key cs), counted-sort_by cs)
