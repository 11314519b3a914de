-- ===== src/RateLimiter.antt =====
-- The token bucket of crates/incidentbench-common/src/ratelimit.rs. The clock's readings, in
-- nanoseconds, are arguments; `Instant::duration_since` is 0 for an earlier instant, as `-` is here.
-- A method that takes `&mut self` returns the new bucket.
pub mod Bounds
pub mod Runs
use incident_bench.Base.{
  ℕ, ◌-◌, min, Option, none, some, add_u64, F64, zero_f, one_f, if◌then◌else◌,
}

pub record TokenBucketRateLimiter {ℓ} (F : Type ℓ) : Type ℓ where
  pub rate : F
  pub tokens : F
  pub max_tokens : F
  pub last_refill : ℕ
  pub missed_ops : ℕ

-- How `acquire` went: the missed operations that it returns, how long it slept, in seconds, and the
-- bucket that it leaves.
pub record Acquired {ℓ} (F : Type ℓ) : Type ℓ where
  pub missed : ℕ
  pub slept : Option F
  pub limiter : TokenBucketRateLimiter F

module _ {ℓ} {F : Type ℓ} ⦃fl : F64 F⦄ where
  unfoldable pub new : F → ℕ → TokenBucketRateLimiter F
  new rate now = record {
    rate = rate;
    tokens = fl.fmax rate one_f;
    max_tokens = fl.fmax rate one_f;
    last_refill = now;
    missed_ops = 0;
  }

  unfoldable pub set_rate : F → TokenBucketRateLimiter F → TokenBucketRateLimiter F
  set_rate new_rate b = record b { rate = new_rate; max_tokens = fl.fmax new_rate one_f }

  unfoldable pub refill : ℕ → TokenBucketRateLimiter F → TokenBucketRateLimiter F
  refill now b =
      let elapsed = fl.secs (now - b.last_refill) in
      record b {
        last_refill = now;
        tokens = fl.fmin (fl.add b.tokens (fl.mul elapsed b.rate)) b.max_tokens;
      }

  unfoldable pub take_missed_ops : TokenBucketRateLimiter F → ℕ × TokenBucketRateLimiter F
  take_missed_ops b = (b.missed_ops, record b { missed_ops = 0 })

  unfoldable pub spend_one : TokenBucketRateLimiter F → TokenBucketRateLimiter F
  spend_one b = record b { tokens = fl.sub b.tokens one_f }

  -- What `acquire` returns and leaves, behind the change to the tokens.
  unfoldable pub finish : Option F → TokenBucketRateLimiter F → Acquired F
  finish slept b = record {
    missed = b.missed_ops;
    slept = slept;
    limiter = record b { missed_ops = 0 };
  }

  -- The body of `acquire` behind the first refill; `later` is the clock when the sleep for a token is
  -- over.
  unfoldable pub acquire_from : ℕ → TokenBucketRateLimiter F → Acquired F
  unfolding spend_one finish
  acquire_from later b =
      if fl.le one_f b.tokens
      then finish none (spend_one b)
      else if fl.le b.rate zero_f
      then finish (some one_f) (record b { missed_ops = add_u64 b.missed_ops 1 })
      else finish (some (fl.div (fl.sub one_f b.tokens) b.rate)) (spend_one (refill later b))

  unfoldable pub acquire : ℕ → ℕ → TokenBucketRateLimiter F → Acquired F
  unfolding acquire_from
  acquire now later b = acquire_from later (refill now b)

  -- `tokens.floor() as u64`, at most `n`.
  unfoldable pub available : ℕ → TokenBucketRateLimiter F → ℕ
  available n b = min (fl.to_u64 (fl.floor b.tokens)) n

  unfoldable pub try_acquire_batch : ℕ → ℕ → TokenBucketRateLimiter F → ℕ × TokenBucketRateLimiter F
  unfolding available
  try_acquire_batch now n b =
      let b' = refill now b in
      let acquired = available n b' in
      (acquired, record b' { tokens = fl.sub b'.tokens (fl.of_nat acquired) })
