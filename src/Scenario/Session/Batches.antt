-- ===== src/Scenario/Session/Batches.antt =====
-- A category with queries fires its batch.
use incident_bench.Base.{
  ℕ, zero, suc, ◌+◌, ◌<◌, length, length-map_range, map_range, All, ◌==◌, ◌≡◌, refl, arith, false,
}
use incident_bench.Scenario.{sequential, weighted_random}
use incident_bench.Scenario.Session.{
  SessionCategory, Batch, fired, panicked, next_batch, next_batch_indices,
}

All-map_range {ℓ} :
    (P : ℕ → Type ℓ) (f : ℕ → ℕ) (i n : ℕ) → ((k : ℕ) → P (f k)) → All P (map_range f i n)
All-map_range P f i zero h = tt
All-map_range P f i (suc n) h = (h i, All-map_range P f (i + 1) n h)

-- As many indices as the parallelism, each of a query, and a category with the same queries.
abbrev pub Fires : SessionCategory → Batch → Type 0
Fires c (fired indices c') =
    (length indices ≡ c.parallelism)
    × All (λ i. i < length c.queries) indices
    × (c'.queries ≡ c.queries)
    × (c'.parallelism ≡ c.parallelism)
Fires c panicked = ⊥

abbrev pub IsSampler : (ℕ → ℕ → ℕ) → Type 0
IsSampler sample = (len i : ℕ) → 0 < len → sample len i < len

pub next_batch_indices-Fires :
    (sample : ℕ → ℕ → ℕ) (c : SessionCategory)
    → IsSampler sample
    → 0 < length c.queries
    → Fires c (next_batch_indices sample c)
unfolding next_batch_indices
next_batch_indices-Fires sample c s h =
    let some_queries : (length c.queries == 0) ≡ false = ground arith in
    elim c.iteration as (λ m. Fires c (next_batch m sample c)) [
      | sequential ↦
          unfold next_batch in
          rw some_queries (
            length-map_range _ 0 c.parallelism,
            All-map_range (λ i. i < length c.queries) _ 0 c.parallelism λ k. grind arith,
            refl,
            refl,
          )
      | weighted_random ↦
          unfold next_batch in
          rw some_queries (
            length-map_range _ 0 c.parallelism,
            All-map_range (λ i. i < length c.queries) _ 0 c.parallelism λ k. s _ k h,
            refl,
            refl,
          )
    ]
