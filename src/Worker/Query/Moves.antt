-- ===== src/Worker/Query/Moves.antt =====
-- The moves of the counters of a second of queries.
use mathlib.Core.List.{append_assoc, append-nil}
use incident_bench.Base.{
  ℕ, ◌+◌, ◌%◌, ◌<◌, ◌≤◌, String, Bool, true, false, Bool-cases, ◌||◌, List, [], ◌∷◌, ◌++◌, length,
  lookup, lookup-insert, unwrap_or, add_u64, u64_mod, str_eq, eq_iff, if◌then◌else◌, ◌≡◌, sym, inl,
  inr, arith,
}
use incident_bench.Aggregator.Snapshots.{TimedOutQueryRecord}
use incident_bench.Worker.Query.{
  Tally, count_at, push_at, count_executed, push_latency, push_both, push_timeout,
}

pub or_true : (b : Bool) → (b || true) ≡ true
or_true b = ground arith

abbrev pub bit : Bool → ℕ
bit true = 1
bit false = 0

pub bit-le : (b : Bool) → bit b ≤ 1
bit-le true = omega arith
bit-le false = omega arith

module _ {F : Type 0} where
  -- The latencies that a map has for a query, and the count.
  abbrev pub latencies_at : String → List (String × List F) → List F
  latencies_at n m = unwrap_or (lookup n m) []

  abbrev pub here : String → String → List F → List F
  here name n xs = if str_eq name n then xs else []

abbrev pub count_of : String → List (String × ℕ) → ℕ
count_of n m = unwrap_or (lookup n m) 0

abbrev pub here_count : String → String → ℕ → ℕ
here_count name n k = if str_eq name n then k else 0

here_count-add :
    (name n : String) (a b : ℕ)
    → here_count name n (a + b) ≡ here_count name n a + here_count name n b
here_count-add name n a b = elim (Bool-cases (str_eq name n)) [
  | inl e ↦ rw e
  | inr e ↦ rw e (omega arith)
]

pub here_count-zero : (name n : String) → here_count name n 0 ≡ 0
here_count-zero name n = elim (Bool-cases (str_eq name n)) [ inl e ↦ rw e | inr e ↦ rw e ]

pub count_of-count_at :
    (name n : String) (m : List (String × ℕ))
    → count_of n (count_at name m) % u64_mod ≡ (count_of n m + here_count name n 1) % u64_mod
unfolding count_at add_u64
count_of-count_at name n m = rw (lookup-insert name n _ m) (elim (Bool-cases (str_eq name n)) [
  | inl e ↦ rw e (rw ((eq_iff name n).0 e) (omega arith))
  | inr e ↦ rw e (omega arith)
])

module _ {F : Type 0} where
  latencies_at-push_at :
      (name n : String) (x : F) (m : List (String × List F))
      → latencies_at n (push_at name x m) ≡ latencies_at n m ++ here name n (x ∷ [])
  unfolding push_at
  latencies_at-push_at name n x m =
      rw (lookup-insert name n _ m) (elim (Bool-cases (str_eq name n)) [
        | inl e ↦ rw e (rw ((eq_iff name n).0 e))
        | inr e ↦ rw e (sym (append-nil (latencies_at n m)))
      ])

  pub here-nil : (name n : String) → here {F = F} name n [] ≡ []
  here-nil name n = elim (Bool-cases (str_eq name n)) [ inl e ↦ rw e | inr e ↦ rw e ]

  -- From `t` to `u`: `e` more executions of the query, `f` more errors and records of them, and the
  -- latencies `l`.
  pub record Moves (name : String) (e f : ℕ) (l : List F) (t u : Tally F) : Type 0 where
    pub executed_lt : t.queries_executed < u64_mod → u.queries_executed < u64_mod
    pub errors_lt : t.query_errors < u64_mod → u.query_errors < u64_mod
    pub executed : u.queries_executed % u64_mod ≡ (t.queries_executed + e) % u64_mod
    pub errors : u.query_errors % u64_mod ≡ (t.query_errors + f) % u64_mod
    pub executed_at :
        (n : String)
        → count_of n u.per_query_executed % u64_mod
          ≡ (count_of n t.per_query_executed + here_count name n e) % u64_mod
    pub errors_at :
        (n : String)
        → count_of n u.per_query_errors % u64_mod
          ≡ (count_of n t.per_query_errors + here_count name n f) % u64_mod
    pub latencies :
        (n : String)
        → latencies_at n u.per_query_latencies
          ≡ latencies_at n t.per_query_latencies ++ here name n l
    pub records : length u.pending_error_records ≡ length t.pending_error_records + f

  here-append :
      (name n : String) (a b : List F) → here name n (a ++ b) ≡ here name n a ++ here name n b
  here-append name n a b = elim (Bool-cases (str_eq name n)) [ inl e ↦ rw e | inr e ↦ rw e ]

  pub Moves-trans :
      (name : String) (e f : ℕ) (l : List F) (e' f' : ℕ) (l' : List F) (t u v : Tally F)
      → Moves name e f l t u
      → Moves name e' f' l' u v
      → Moves name (e + e') (f + f') (l ++ l') t v
  Moves-trans name e f l e' f' l' t u v a b = record {
    executed_lt = λ h. b.executed_lt (a.executed_lt h);
    errors_lt = λ h. b.errors_lt (a.errors_lt h);
    executed = omega (arith, a.executed, b.executed);
    errors = omega (arith, a.errors, b.errors);
    executed_at = λ n. omega (arith, a.executed_at n, b.executed_at n, here_count-add name n e e');
    errors_at = λ n. omega (arith, a.errors_at n, b.errors_at n, here_count-add name n f f');
    latencies = λ n.
        rw (b.latencies n, a.latencies n, here-append name n l l')
          (append_assoc (latencies_at n t.per_query_latencies) (here name n l) (here name n l'));
    records = omega (arith, a.records, b.records);
  }

  pub count_executed-Moves :
      (name : String) (t : Tally F) → Moves name 1 0 [] t (count_executed name t)
  unfolding count_executed add_u64
  count_executed-Moves name t = record {
    executed_lt = λ h. omega arith;
    errors_lt = λ h. omega arith;
    executed = omega arith;
    errors = omega arith;
    executed_at = λ n. count_of-count_at name n t.per_query_executed;
    errors_at = λ n. omega (arith, here_count-zero name n);
    latencies = λ n. sym (rw (here-nil name n) (append-nil _));
    records = omega arith;
  }

  pub push_both-Moves :
      (name : String) (x : F) (t : Tally F) → Moves name 0 0 (x ∷ []) t (push_both name x t)
  unfolding push_both
  push_both-Moves name x t = record {
    executed_lt = λ h. omega arith;
    errors_lt = λ h. omega arith;
    executed = omega arith;
    errors = omega arith;
    executed_at = λ n. omega (arith, here_count-zero name n);
    errors_at = λ n. omega (arith, here_count-zero name n);
    latencies = λ n. latencies_at-push_at name n x t.per_query_latencies;
    records = omega arith;
  }

  pub push_latency-Moves :
      (name : String) (x : F) (t : Tally F) → Moves name 0 0 (x ∷ []) t (push_latency name x t)
  unfolding push_latency
  push_latency-Moves name x t = record {
    executed_lt = λ h. omega arith;
    errors_lt = λ h. omega arith;
    executed = omega arith;
    errors = omega arith;
    executed_at = λ n. omega (arith, here_count-zero name n);
    errors_at = λ n. omega (arith, here_count-zero name n);
    latencies = λ n. latencies_at-push_at name n x t.per_query_latencies;
    records = omega arith;
  }

  pub push_timeout-Moves :
      (name : String) (r : TimedOutQueryRecord F) (t : Tally F)
      → Moves name 0 0 [] t (push_timeout r t)
  unfolding push_timeout
  push_timeout-Moves name r t = record {
    executed_lt = λ h. omega arith;
    errors_lt = λ h. omega arith;
    executed = omega arith;
    errors = omega arith;
    executed_at = λ n. omega (arith, here_count-zero name n);
    errors_at = λ n. omega (arith, here_count-zero name n);
    latencies = λ n. sym (rw (here-nil name n) (append-nil _));
    records = omega arith;
  }
