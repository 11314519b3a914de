-- ===== src/Scenario/Session/RoundRobin.antt =====
-- Sequential categories go round their queries, batch after batch.
use native.Mathlib.Nat.{mod-add-mod, mod-lt, mod-eq_of_lt}
use incident_bench.Base.{
  ℕ, zero, suc, ◌+◌, ◌*◌, ◌%◌, ◌<◌, ◌≡◌, sym, ap, ◌∙◌, Option, none, some, List, [], ◌++◌, arith,
  length, map_range, map_range-add, map_range-congr,
}
use incident_bench.Scenario.{sequential}
use incident_bench.Scenario.Session.{SessionCategory, Batch, fired, panicked, next_batch_indices}

-- The indices of `k` successive batches, and the category after them; `none` is a panic.
abbrev pub continue_with :
    Batch
    → (SessionCategory → Option (List ℕ × SessionCategory))
    → Option (List ℕ × SessionCategory)
continue_with panicked f = none
continue_with (fired is c) f = elim (f c) [ none ↦ none | some (js, d) ↦ some (is ++ js, d) ]

unfoldable pub run_batches : ℕ → (ℕ → ℕ → ℕ) → SessionCategory → Option (List ℕ × SessionCategory)
run_batches zero sample c = some ([], c)
run_batches (suc k) sample c = continue_with (next_batch_indices sample c) (run_batches k sample)

-- The cursor `n` steps on, and the indices from the cursor on.
abbrev pub advance : ℕ → SessionCategory → SessionCategory
advance n c = record c { cursor = (c.cursor + n) % length c.queries }

abbrev pub from_cursor : SessionCategory → ℕ → List ℕ
from_cursor c n = map_range (λ i. (c.cursor + i) % length c.queries) 0 n

step_sequential :
    (sample : ℕ → ℕ → ℕ) (c : SessionCategory)
    → c.iteration ≡ sequential
    → 0 < length c.queries
    → next_batch_indices sample c ≡ fired (from_cursor c c.parallelism) (advance c.parallelism c)
unfolding next_batch_indices
step_sequential sample c e h = ground arith

wrap_add : (m a b k : ℕ) → ((a + b) % m + k) % m ≡ (a + (b + k)) % m
wrap_add m a b k = let e : a + (b + k) ≡ a + b + k = omega arith in rw e (mod-add-mod (a + b) m k)

from_cursor-advance :
    (c : SessionCategory) (p n : ℕ)
    → from_cursor (advance p c) n ≡ map_range (λ i. (c.cursor + i) % length c.queries) (0 + p) n
from_cursor-advance c p n =
    map_range-congr (λ i. ((c.cursor + p) % length c.queries + i) % length c.queries)
      (λ i. (c.cursor + i) % length c.queries) 0 (0 + p) n
      (λ k.
        wrap_add (length c.queries) c.cursor p (0 + k)
        ∙ ap (λ t. (c.cursor + t) % length c.queries) (omega arith))

advance-advance : (c : SessionCategory) (p n : ℕ) → advance n (advance p c) ≡ advance (p + n) c
advance-advance c p n = λ i. record c { cursor = wrap_add (length c.queries) c.cursor p n i }

-- `k` successive batches of a sequential category that has a query and a cursor in range never
-- panic: together they fire, in order, the indices of `k * parallelism` steps from the cursor round
-- the queries, and the cursor ends that many steps on.
pub run_batches_sequential :
    (k : ℕ) (sample : ℕ → ℕ → ℕ) (c : SessionCategory)
    → c.iteration ≡ sequential
    → c.cursor < length c.queries
    → run_batches k sample c
      ≡ some (from_cursor c (k * c.parallelism), advance (k * c.parallelism) c)
unfolding run_batches
run_batches_sequential zero sample c e h =
    let z : 0 * c.parallelism ≡ 0 = omega arith in
    let w : (c.cursor + 0) % length c.queries ≡ c.cursor =
      ap (λ t. t % length c.queries) (omega arith) ∙ mod-eq_of_lt h in
    rw z (sym (λ i. some ([], record c { cursor = w i })))
run_batches_sequential (suc k) sample c e h =
    let p = c.parallelism in
    let distrib : suc k * p ≡ p + k * p = omega arith in
    let ih =
      run_batches_sequential k sample (advance p c) e (mod-lt (c.cursor + p) (omega arith)) in
    rw
      (
        step_sequential sample c e (omega arith),
        ih,
        from_cursor-advance c p (k * p),
        advance-advance c p (k * p),
        distrib,
      )
      (ap (λ l. some (l, advance (p + k * p) c))
        (sym (map_range-add (λ i. (c.cursor + i) % length c.queries) 0 p (k * p))))
