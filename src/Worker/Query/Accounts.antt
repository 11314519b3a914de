-- ===== src/Worker/Query/Accounts.antt =====
-- The counters of a second of queries, and what the snapshots have of them.
use incident_bench.Base.{
  ℕ, suc, ◌+◌, ◌<◌, ◌≤◌, ◌^◌, String, List, [], ◌∷◌, ◌++◌, length, All, All-append, as_i64,
  as_i64-small, as_u64, max_zero, Bool, true, str_eq, ◌||◌, ◌≡◌, refl, arith,
}
use incident_bench.Worker.{Offer, total_of, total_of-append}
use incident_bench.Worker.Query.{Tally, empty_tally}
use incident_bench.Worker.Query.Moves.{Moves}

-- The modes of the query workers.
abbrev pub is_query : String → Bool
is_query mode = str_eq mode "query" || str_eq mode "query-session"

module _ {F : Type 0} where
  -- Each error has its record, and only a query that was executed is an error.
  pub record IsTallied (t : Tally F) : Type 0 where
    pub recorded : length t.pending_error_records ≡ t.query_errors
    pub errors_le : t.query_errors ≤ t.queries_executed
    pub small : t.queries_executed < 2 ^ 63

  -- A snapshot of a query worker: it has a record of each error, at most its queries are errors, and
  -- its counts are the same as `u64`.
  abbrev pub IsRecorded : Offer F → Type 0
  IsRecorded o =
      let s = o.snapshot in
      (length s.query_error_records ≡ max_zero s.query_errors)
      × (max_zero s.query_errors ≤ max_zero s.queries_executed)
      × (is_query s.worker_mode ≡ true)
      × (as_u64 s.queries_executed ≡ max_zero s.queries_executed)
      × (as_u64 s.query_errors ≡ max_zero s.query_errors)

  -- Behind `n` more queries, `m` of them errors, the snapshots and the counters have them all.
  pub record Accounts (n m : ℕ) (t : Tally F) (out : List (Offer F)) (u : Tally F) : Type 0 where
    pub executed :
        total_of (λ s. s.queries_executed) out + u.queries_executed ≡ t.queries_executed + n
    pub errors : total_of (λ s. s.query_errors) out + u.query_errors ≡ t.query_errors + m
    pub balanced : All IsRecorded out
    pub tallied : IsTallied u

  pub Accounts-refl : (t : Tally F) → IsTallied t → Accounts 0 0 t [] t
  Accounts-refl t c = record {
    executed = omega arith;
    errors = omega arith;
    balanced = tt;
    tallied = c;
  }

  pub Accounts-trans :
      (n m n' m' : ℕ) (t : Tally F) (out : List (Offer F)) (u : Tally F) (more : List (Offer F))
      (v : Tally F)
      → Accounts n m t out u
      → Accounts n' m' u more v
      → Accounts (n + n') (m + m') t (out ++ more) v
  Accounts-trans n m n' m' t out u more v a b = record {
    executed =
        omega (arith, a.executed, b.executed, total_of-append (λ s. s.queries_executed) out more);
    errors = omega (arith, a.errors, b.errors, total_of-append (λ s. s.query_errors) out more);
    balanced = All-append IsRecorded out more a.balanced b.balanced;
    tallied = b.tallied;
  }

  -- The second part makes no snapshot.
  pub Accounts-then :
      (n m : ℕ) (t : Tally F) (out : List (Offer F)) (u v : Tally F)
      → Accounts 0 0 t out u
      → Accounts n m u [] v
      → Accounts n m t out v
  Accounts-then n m t out u v a b = record {
    executed = omega (arith, a.executed, b.executed);
    errors = omega (arith, a.errors, b.errors);
    balanced = a.balanced;
    tallied = b.tallied;
  }

  pub offered-Accounts :
      (t : Tally F) (o : Offer F)
      → o.snapshot.queries_executed ≡ as_i64 t.queries_executed
      → o.snapshot.query_errors ≡ as_i64 t.query_errors
      → o.snapshot.query_error_records ≡ t.pending_error_records
      → is_query o.snapshot.worker_mode ≡ true
      → IsTallied t
      → Accounts 0 0 t (o ∷ []) empty_tally
  offered-Accounts t o x y z k c =
      let p = as_i64-small t.queries_executed c.small in
      let q = as_i64-small t.query_errors (omega (arith, c.errors_le, c.small)) in
      record {
        executed = rw (x, p) (omega arith);
        errors = rw (y, q) (omega arith);
        balanced = (
          rw (x, y, z, p, q)
              (
                c.recorded,
                c.errors_le,
                k,
                omega (arith, c.small),
                omega (arith, c.small, c.errors_le),
              ),
          tt,
        );
        tallied = record { recorded = refl; errors_le = omega arith; small = omega arith };
      }

  pub Moves-Accounts :
      (name : String) (f : ℕ) (l : List F) (t u : Tally F)
      → f ≤ 1
      → IsTallied t
      → suc t.queries_executed < 2 ^ 63
      → Moves name 1 f l t u
      → Accounts 1 f t [] u
  Moves-Accounts name f l t u k c h m =
      let e : u.queries_executed ≡ suc t.queries_executed =
        omega (arith, m.executed, m.executed_lt (omega (arith, h))) in
      let g : u.query_errors ≡ t.query_errors + f =
        omega (arith, m.errors, m.errors_lt (omega (arith, h, c.errors_le)), c.errors_le) in
      record {
        executed = omega (arith, e);
        errors = omega (arith, g);
        balanced = tt;
        tallied = record {
          recorded = omega (arith, m.records, c.recorded, g);
          errors_le = omega (arith, e, g, c.errors_le);
          small = omega (arith, e, h);
        };
      }
