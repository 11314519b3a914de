-- ===== src/Examples/Buckets.antt =====
-- A bucket of five operations a second.
use incident_bench.Base.{◌≤◌, refl, inr, List, [], ◌∷◌, zero_f, ◌≼◌}
use incident_bench.RateLimiter.{TokenBucketRateLimiter, new, refill, acquire, try_acquire_batch}
use incident_bench.RateLimiter.Bounds.{IsSound, try_acquire_batch_lem}
use incident_bench.RateLimiter.Runs.{
  Call, change, one, batch, take, serve, serve_all, serve_all_bounds,
}
use incident_bench.Examples.Milli.{Milli, milli, milli-IsOrdered, milli-IsRounded}

abbrev five : Milli
five = record { thousandths = 5000 }

abbrev half_full : TokenBucketRateLimiter Milli
half_full = record {
  rate = five;
  tokens = record { thousandths = 2500 };
  max_tokens = five;
  last_refill = 0;
  missed_ops = 0;
}

abbrev half_full-IsSound : IsSound half_full
half_full-IsSound = record {
  rate_finite = refl;
  rate_nonneg = refl;
  size = refl;
  nonneg = refl;
  finite = refl;
}

try_acquire_batch_lem_example :
    ((try_acquire_batch 200_000_000 8 half_full).0 ≤ 8)
    × (milli.of_nat (try_acquire_batch 200_000_000 8 half_full).0
        ≼ (refill 200_000_000 half_full).tokens)
    × ((refill 200_000_000 half_full).tokens ≼ five)
    × IsSound (try_acquire_batch 200_000_000 8 half_full).1
try_acquire_batch_lem_example =
    try_acquire_batch_lem milli-IsOrdered milli-IsRounded 200_000_000 8 half_full half_full-IsSound

abbrev calls : List (Call Milli)
calls =
    batch 1_000_000_000 5
    ∷ one 1_000_000_000 1_200_000_000
    ∷ change (record { thousandths = 0 })
    ∷ take
    ∷ []

serve_all_bounds_example :
    let b = serve_all calls (new five 0) in
    (zero_f ≼ b.tokens) × ((refill 2_000_000_000 b).tokens ≼ b.max_tokens)
unfolding serve new refill acquire try_acquire_batch
serve_all_bounds_example =
    serve_all_bounds milli-IsOrdered milli-IsRounded five 0 calls 2_000_000_000 refl refl
      (tt, (inr (inr refl), ((refl, refl), (tt, tt))))
