-- ===== src/RateLimiter/Runs.antt =====
-- Any sequence of calls on a bucket.
use incident_bench.Base.{
  ℕ, ◌≡◌, refl, ◌⊎◌, inl, inr, true, List, [], ◌∷◌, arith, Bool-cases, F64, zero_f, one_f, ◌≼◌,
  IsFinite, IsOrdered, IsRounded, if◌then◌else◌, add_u64,
}
use incident_bench.RateLimiter.{
  TokenBucketRateLimiter, new, set_rate, refill, take_missed_ops, spend_one, acquire_from, acquire,
  try_acquire_batch,
}
use incident_bench.RateLimiter.Bounds.{
  IsSound, refill-IsSound, refill-le, spent_IsSound, try_acquire_batch_lem,
}

-- The calls of the public methods, with the readings of the clock that they meet.
pub data Call {ℓ} (F : Type ℓ) : Type ℓ where
  change : F → Call F
  one : ℕ → ℕ → Call F
  batch : ℕ → ℕ → Call F
  take : Call F

module _ {ℓ} {F : Type ℓ} ⦃fl : F64 F⦄ where
  -- What a call returns, and the bucket after it; `set_rate` returns nothing, which counts as 0.
  unfoldable pub serve : Call F → TokenBucketRateLimiter F → ℕ × TokenBucketRateLimiter F
  serve (change r) b = (0, set_rate r b)
  serve (one now later) b = ((acquire now later b).missed, (acquire now later b).limiter)
  serve (batch now n) b = try_acquire_batch now n b
  serve take b = take_missed_ops b

  unfoldable pub serve_all : List (Call F) → TokenBucketRateLimiter F → TokenBucketRateLimiter F
  serve_all [] b = b
  serve_all (c ∷ cs) b = serve_all cs (serve c b).1

  -- A rate that is set is finite and not negative; a call that waits for a token finds one when its
  -- sleep is over.
  abbrev pub Allowed : Call F → TokenBucketRateLimiter F → Type 0
  Allowed (change r) b = IsFinite r × (zero_f ≼ r)
  Allowed (one now later) b =
      (fl.le one_f (refill now b).tokens ≡ true)
      ⊎ (fl.le b.rate zero_f ≡ true)
      ⊎ (one_f ≼ (refill later (refill now b)).tokens)
  Allowed (batch now n) b = Unit
  Allowed take b = Unit

  abbrev pub AllAllowed : List (Call F) → TokenBucketRateLimiter F → Type 0
  AllAllowed [] b = Unit
  AllAllowed (c ∷ cs) b = Allowed c b × AllAllowed cs (serve c b).1

  -- The counter of missed operations is 0 between calls.
  serve-missed :
      (c : Call F) (b : TokenBucketRateLimiter F) → b.missed_ops ≡ 0 → (serve c b).1.missed_ops ≡ 0
  unfolding serve set_rate acquire try_acquire_batch take_missed_ops refill
  serve-missed (change r) b h = h
  serve-missed (one now later) b h = ground arith
  serve-missed (batch now n) b h = h
  serve-missed take b h = refl

  serve_all-missed :
      (cs : List (Call F)) (b : TokenBucketRateLimiter F)
      → b.missed_ops ≡ 0
      → (serve_all cs b).missed_ops ≡ 0
  unfolding serve_all
  serve_all-missed [] b h = h
  serve_all-missed (c ∷ cs) b h = serve_all-missed cs (serve c b).1 (serve-missed c b h)

  -- After any calls on a new bucket, `take_missed_ops` finds nothing, and `acquire` reports one missed
  -- operation if it slept because the rate is zero or below, and none otherwise.
  pub missed_ops_lem :
      (rate : F) (start : ℕ) (cs : List (Call F)) (now later : ℕ)
      → let b = serve_all cs (new rate start) in
        ((take_missed_ops b).0 ≡ 0)
        × ((acquire now later b).missed ≡ (
            if fl.le one_f (refill now b).tokens then 0 else if fl.le b.rate zero_f then 1 else 0))
  unfolding acquire take_missed_ops add_u64 refill
  missed_ops_lem rate start cs now later =
      let h = serve_all-missed cs (new rate start) (unfold new in refl) in (h, ground (arith, h))

module _ {ℓ} {F : Type ℓ} ⦃fl : F64 F⦄ (order : IsOrdered F) (laws : IsRounded F) where
  missed-IsSound :
      (b : TokenBucketRateLimiter F) (n : ℕ) → IsSound b → IsSound (record b { missed_ops = n })
  missed-IsSound b n s = record {
    rate_finite = s.rate_finite;
    rate_nonneg = s.rate_nonneg;
    size = s.size;
    nonneg = s.nonneg;
    finite = s.finite;
  }

  spend_one-IsSound :
      (b : TokenBucketRateLimiter F) → IsSound b → one_f ≼ b.tokens → IsSound (spend_one b)
  unfolding spend_one
  spend_one-IsSound b s h = spent_IsSound order laws b one_f s laws.zero_le_one h

  acquire_from-IsSound :
      (b : TokenBucketRateLimiter F) (later : ℕ)
      → IsSound b
      → (fl.le one_f b.tokens ≡ true)
        ⊎ (fl.le b.rate zero_f ≡ true)
        ⊎ (one_f ≼ (refill later b).tokens)
      → IsSound (acquire_from later b).limiter
  unfolding acquire_from
  acquire_from-IsSound b later s h = elim (Bool-cases (fl.le one_f b.tokens)) [
    | inl full ↦ rw full (missed-IsSound (spend_one b) 0 (spend_one-IsSound b s full))
    | inr short ↦ elim (Bool-cases (fl.le b.rate zero_f)) [
      | inl idle ↦ rw (short, idle) (missed-IsSound b 0 s)
      | inr busy ↦
          let woken : one_f ≼ (refill later b).tokens = elim h [
            | inl p ↦ cc
            | inr r ↦ elim r [ inl p ↦ cc | inr w ↦ w ]
          ] in
          rw (short, busy)
            (missed-IsSound (spend_one (refill later b)) 0
              (spend_one-IsSound (refill later b) (refill-IsSound order laws later b s) woken))
    ]
  ]

  serve-IsSound :
      (c : Call F) (b : TokenBucketRateLimiter F) → IsSound b → Allowed c b → IsSound (serve c b).1
  unfolding serve
  serve-IsSound (change r) b s h =
      unfold set_rate in
      record {
        rate_finite = h.0;
        rate_nonneg = h.1;
        size = refl;
        nonneg = s.nonneg;
        finite = s.finite;
      }
  serve-IsSound (one now later) b s h =
      unfold acquire in
      acquire_from-IsSound (refill now b) later (refill-IsSound order laws now b s)
        (unfold refill in h)
  serve-IsSound (batch now n) b s h = (try_acquire_batch_lem order laws now n b s).3
  serve-IsSound take b s h = unfold take_missed_ops in missed-IsSound b 0 s

  serve_all-IsSound :
      (cs : List (Call F)) (b : TokenBucketRateLimiter F)
      → IsSound b
      → AllAllowed cs b
      → IsSound (serve_all cs b)
  unfolding serve_all
  serve_all-IsSound [] b s h = s
  serve_all-IsSound (c ∷ cs) b s h =
      serve_all-IsSound cs (serve c b).1 (serve-IsSound c b s h.0) h.1

  new-IsSound : (rate : F) (start : ℕ) → IsFinite rate → zero_f ≼ rate → IsSound (new rate start)
  unfolding new
  new-IsSound rate start f p =
      let size = laws.max-ge_right rate one_f (order.lit_number 1 0) in
      record {
        rate_finite = f;
        rate_nonneg = p;
        size = refl;
        nonneg = order.le_trans zero_f one_f (fl.fmax rate one_f) laws.zero_le_one size;
        finite = laws.max_finite rate one_f f laws.one_finite;
      }

  -- A bucket made with a finite rate that is not negative stays in order under all calls, in any
  -- order, that set such rates and whose waits are long enough: it never holds a negative amount, and
  -- when it is next refilled it holds at most its size.
  pub serve_all_bounds :
      (rate : F) (start : ℕ) (cs : List (Call F)) (now : ℕ)
      → IsFinite rate
      → zero_f ≼ rate
      → AllAllowed cs (new rate start)
      → let b = serve_all cs (new rate start) in
        (zero_f ≼ b.tokens) × ((refill now b).tokens ≼ b.max_tokens)
  serve_all_bounds rate start cs now f p h =
      let s = serve_all-IsSound cs (new rate start) (new-IsSound rate start f p) h in
      (s.nonneg, refill-le order laws now (serve_all cs (new rate start)) s)
