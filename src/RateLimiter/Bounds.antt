-- ===== src/RateLimiter/Bounds.antt =====
-- The bucket never holds more than its size, nor less than nothing, and never gives out more than
-- it holds.
use incident_bench.Base.{
  ℕ, ◌≤◌, ◌≡◌, arith, F64, zero_f, one_f, ◌≼◌, IsFinite, IsOrdered, IsRounded,
}
use incident_bench.RateLimiter.{TokenBucketRateLimiter, refill, available, try_acquire_batch}

-- A bucket in order: its rate is finite and not negative, its size is the rate or 1, whichever is
-- more, and it holds a finite amount that is not negative.
pub record IsSound {ℓ} {F : Type ℓ} ⦃fl : F64 F⦄ (b : TokenBucketRateLimiter F) : Type ℓ where
  pub rate_finite : IsFinite b.rate
  pub rate_nonneg : zero_f ≼ b.rate
  pub size : b.max_tokens ≡ fl.fmax b.rate one_f
  pub nonneg : zero_f ≼ b.tokens
  pub finite : IsFinite b.tokens

module _ {ℓ} {F : Type ℓ} ⦃fl : F64 F⦄ (order : IsOrdered F) (laws : IsRounded F) where
  size-IsFinite : (b : TokenBucketRateLimiter F) → IsSound b → IsFinite b.max_tokens
  size-IsFinite b s = rw s.size (laws.max_finite b.rate one_f s.rate_finite laws.one_finite)

  one_le_size : (b : TokenBucketRateLimiter F) → IsSound b → one_f ≼ b.max_tokens
  one_le_size b s = rw s.size (laws.max-ge_right b.rate one_f (order.lit_number 1 0))

  zero_le_size : (b : TokenBucketRateLimiter F) → IsSound b → zero_f ≼ b.max_tokens
  zero_le_size b s = order.le_trans zero_f one_f b.max_tokens laws.zero_le_one (one_le_size b s)

  pub refill-le :
      (now : ℕ) (b : TokenBucketRateLimiter F) → IsSound b → (refill now b).tokens ≼ b.max_tokens
  unfolding refill
  refill-le now b s =
      laws.min-le_right _ b.max_tokens (laws.number_of_finite b.max_tokens (size-IsFinite b s))

  refill-nonneg :
      (now : ℕ) (b : TokenBucketRateLimiter F) → IsSound b → zero_f ≼ (refill now b).tokens
  unfolding refill
  refill-nonneg now b s =
      laws.min-ge zero_f _ b.max_tokens
        (laws.add_nonneg b.tokens _ s.nonneg (
          laws.mul_nonneg _ b.rate (laws.secs_finite _) s.rate_finite (laws.secs_nonneg _)
            s.rate_nonneg))
        (zero_le_size b s)

  pub refill-IsSound : (now : ℕ) (b : TokenBucketRateLimiter F) → IsSound b → IsSound (refill now b)
  unfolding refill
  refill-IsSound now b s = record {
    rate_finite = s.rate_finite;
    rate_nonneg = s.rate_nonneg;
    size = s.size;
    nonneg = refill-nonneg now b s;
    finite =
        laws.finite_between _ b.max_tokens (refill-nonneg now b s) (refill-le now b s)
          (size-IsFinite b s);
  }

  available-le :
      (n : ℕ) (b : TokenBucketRateLimiter F)
      → zero_f ≼ b.tokens
      → fl.of_nat (available n b) ≼ b.tokens
  unfolding available
  available-le n b h =
      order.le_trans _ (fl.of_nat (fl.to_u64 (fl.floor b.tokens))) b.tokens
        (laws.of_nat_mono _ (fl.to_u64 (fl.floor b.tokens)) (omega arith))
        (laws.of_nat-to_u64-le b.tokens h)

  pub spent_IsSound :
      (b : TokenBucketRateLimiter F) (x : F)
      → IsSound b
      → zero_f ≼ x
      → x ≼ b.tokens
      → IsSound (record b { tokens = fl.sub b.tokens x })
  spent_IsSound b x s p q = record {
    rate_finite = s.rate_finite;
    rate_nonneg = s.rate_nonneg;
    size = s.size;
    nonneg = laws.sub_nonneg b.tokens x s.finite q;
    finite =
        laws.finite_between _ b.tokens (laws.sub_nonneg b.tokens x s.finite q)
          (laws.sub-le b.tokens x s.finite p q) s.finite;
  }

  -- A batch takes at most the number asked for, and at most what the refilled bucket holds, which is
  -- no more than its size; the bucket that it leaves is in order again.
  pub try_acquire_batch_lem :
      (now n : ℕ) (b : TokenBucketRateLimiter F)
      → IsSound b
      → ((try_acquire_batch now n b).0 ≤ n)
        × (fl.of_nat (try_acquire_batch now n b).0 ≼ (refill now b).tokens)
        × ((refill now b).tokens ≼ b.max_tokens)
        × IsSound (try_acquire_batch now n b).1
  unfolding try_acquire_batch
  try_acquire_batch_lem now n b s =
      let filled = refill-IsSound now b s in
      let enough = available-le n (refill now b) filled.nonneg in
      (
        omega arith,
        enough,
        refill-le now b s,
        spent_IsSound (refill now b) (fl.of_nat (available n (refill now b))) filled
            (laws.of_nat_nonneg _) enough,
      )
