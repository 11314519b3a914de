-- ===== src/Barrier/Retry.antt =====
-- The retries of `connect`: thirty attempts, with waits that double from one second up to ten.
use native.Mathlib.Nat.{pow-suc}
use incident_bench.Base.{ℕ, zero, suc, ◌+◌, ◌-◌, ◌*◌, ◌^◌, ◌<◌, min, ◌≡◌, ap, ◌∙◌, arith}
use incident_bench.Barrier.{
  Attempt, failed, connected, gave_up, connected_after, max_backoff, try_connect, connect,
}

-- The wait behind failed attempt `i + 1`, and the waits behind the first `n` of them together.
abbrev pub backoff_after : ℕ → ℕ
backoff_after i = min (2 ^ i) max_backoff

abbrev pub waited : ℕ → ℕ
waited zero = 0
waited (suc n) = waited n + backoff_after n

backoff-double : (i : ℕ) → min (backoff_after i * 2) max_backoff ≡ backoff_after (suc i)
backoff-double i = let e : 2 ^ suc i ≡ 2 ^ i * 2 = omega (arith, pow-suc 2 i) in omega (arith, e)

try_connect-failed_once :
    (outcome : ℕ → Attempt) (left attempt backoff slept : ℕ)
    → outcome attempt ≡ failed
    → try_connect outcome (suc left) attempt backoff slept
      ≡ try_connect outcome left (attempt + 1) (min (backoff * 2) max_backoff) (slept + backoff)
unfolding try_connect
try_connect-failed_once outcome left attempt backoff slept h = ground arith

-- After `n` failed attempts the loop is at the next one, with the waits so far behind it.
try_connect-failed :
    (outcome : ℕ → Attempt) (left done n : ℕ)
    → ((i : ℕ) → i < n → outcome (done + i + 1) ≡ failed)
    → try_connect outcome (n + left) (done + 1) (backoff_after done) (waited done)
      ≡ try_connect outcome left (done + n + 1) (backoff_after (done + n)) (waited (done + n))
try_connect-failed outcome left done zero h =
    let a : 0 + left ≡ left = omega arith in let b : done + 0 ≡ done = omega arith in rw (a, b)
try_connect-failed outcome left done (suc n) h =
    let a : suc n + left ≡ suc (n + left) = omega arith in
    let b : done + suc n ≡ suc done + n = omega arith in
    let c : suc done + 1 ≡ done + 1 + 1 = omega arith in
    let first : outcome (done + 1) ≡ failed = ap outcome (omega arith) ∙ h 0 (omega arith) in
    rw (a, b)
      (try_connect-failed_once outcome (n + left) (done + 1) (backoff_after done) (waited done)
          first
        ∙ rw (backoff-double done, ← c)
            (try_connect-failed outcome left (suc done) n
              (λ i lt. ap outcome (omega arith) ∙ h (suc i) (omega arith))))

try_connect-connected :
    (outcome : ℕ → Attempt) (left attempt backoff slept : ℕ)
    → outcome attempt ≡ connected
    → try_connect outcome left attempt backoff slept ≡ connected_after attempt slept
unfolding try_connect
try_connect-connected outcome zero attempt backoff slept h = ground arith
try_connect-connected outcome (suc left) attempt backoff slept h = ground arith

try_connect-gave_up :
    (outcome : ℕ → Attempt) (attempt backoff slept : ℕ)
    → outcome attempt ≡ failed
    → try_connect outcome 0 attempt backoff slept ≡ gave_up slept
unfolding try_connect
try_connect-gave_up outcome attempt backoff slept h = ground arith

-- If the first `n` attempts fail, fewer than thirty, and the next one stands, `connect` ends there,
-- having slept the sum of min(2^i, 10) seconds over all i below n.
pub connect-connected :
    (outcome : ℕ → Attempt) (n : ℕ)
    → n < 30
    → ((i : ℕ) → i < n → outcome (i + 1) ≡ failed)
    → outcome (n + 1) ≡ connected
    → connect outcome ≡ connected_after (n + 1) (waited n)
unfolding connect
connect-connected outcome n lt h ok =
    let z : 0 + n ≡ n = omega arith in
    let whole : 29 ≡ n + (29 - n) = omega arith in
    ap (λ k. try_connect outcome k 1 1 0) whole
    ∙ try_connect-failed outcome (29 - n) 0 n (λ i l. ap outcome (omega arith) ∙ h i l)
    ∙ rw z (try_connect-connected outcome (29 - n) (n + 1) (backoff_after n) (waited n) ok)

-- If all thirty attempts fail, `connect` gives up, having slept 265 seconds between them.
pub connect-gave_up :
    (outcome : ℕ → Attempt)
    → ((i : ℕ) → i < 30 → outcome (i + 1) ≡ failed)
    → connect outcome ≡ gave_up 265
unfolding connect
connect-gave_up outcome h =
    try_connect-failed outcome 0 0 29 (λ i l. ap outcome (omega arith) ∙ h i (omega arith))
    ∙ try_connect-gave_up outcome 30 10 265 (h 29 (omega arith))
