-- ===== src/Worker/Session/Counts.antt =====
-- The queries of a tick of the session loop, and the counts of their results.
use incident_bench.Base.{
  ℕ, zero, suc, ◌+◌, ◌<◌, ◌^◌, String, Option, none, some, List, [], ◌∷◌, map, length,
  length-append, All, get_elem?, sum, ◌≡◌, refl, arith, F64,
}
use incident_bench.Cluster.{Result}
use incident_bench.Scenario.{QueryDef}
use incident_bench.Scenario.Session.{SessionCategory, Batch, fired, next_batch_indices}
use incident_bench.Scenario.Session
use incident_bench.Scenario.Session.Batches.{Fires, IsSampler, next_batch_indices-Fires}
use incident_bench.Worker.Query.{QueryResult, Tally, record_session}
use incident_bench.Worker.Query.Errors.{Origin}
use incident_bench.Worker.Query.Moves.{bit, bit-le}
use incident_bench.Worker.Query.Counts.{CanCut, is_failure, durations, Steps, record_session-Steps}
use incident_bench.Worker.Query.Accounts.{Accounts, Accounts-refl, Moves-Accounts, IsTallied}
use incident_bench.Worker.Session.{
  Work, pick, picked, work_of, work_batch, add_batch, timeout_of, record_next, record_batch,
}

-- The queries of one tick: the parallelism of every category.
abbrev pub sizes : List SessionCategory → ℕ
sizes cats = sum (map (λ (c : SessionCategory). c.parallelism) cats)

abbrev pub HaveQueries : List SessionCategory → Type 0
HaveQueries cats = All (λ (c : SessionCategory). 0 < length c.queries) cats

abbrev Picks : ℕ → Option (List (String × QueryDef)) → Type 0
Picks n none = ⊥
Picks n (some items) = length items ≡ n

get_elem?-lt :
    {A : Type 0} (xs : List A) (i : ℕ) → i < length xs → (a : A) × (get_elem? xs i ≡ some a)
get_elem?-lt [] i h = elim h [ ]
get_elem?-lt (x ∷ xs) zero h = (x, refl)
get_elem?-lt (x ∷ xs) (suc i) h = get_elem?-lt xs i (omega arith)

picked-Picks :
    (name : String) (n : ℕ) (o : Option QueryDef) (rest : Option (List (String × QueryDef)))
    → (q : QueryDef) → o ≡ some q
    → Picks n rest
    → Picks (suc n) (picked name o rest)
unfolding picked
picked-Picks name n none rest q e p = cc
picked-Picks name n (some q') none q e p = p
picked-Picks name n (some q') (some rest) q e p = omega (arith, p)

pick-Picks :
    (name : String) (queries : List QueryDef) (is : List ℕ)
    → All (λ i. i < length queries) is
    → Picks (length is) (pick name queries is)
unfolding pick
pick-Picks name queries [] h = refl
pick-Picks name queries (i ∷ is) (h, hs) =
    let (q, e) = get_elem?-lt queries i h in
    picked-Picks name (length is) _ _ q e (pick-Picks name queries is hs)

-- The work of a tick over the categories, which keep their queries.
abbrev pub Works : List SessionCategory → Option Work → Type 0
Works cats none = ⊥
Works cats (some w) =
    (length w.items ≡ sizes cats) × (sizes w.categories ≡ sizes cats) × HaveQueries w.categories

add_batch-Works :
    (cat cat' : SessionCategory) (cats : List SessionCategory)
    (is : Option (List (String × QueryDef))) (rest : Option Work)
    → 0 < length cat.queries
    → cat'.queries ≡ cat.queries
    → cat'.parallelism ≡ cat.parallelism
    → Picks cat.parallelism is
    → Works cats rest
    → Works (cat ∷ cats) (add_batch cat' is rest)
unfolding add_batch
add_batch-Works cat cat' cats none rest h q p n w = n
add_batch-Works cat cat' cats (some items) none h q p n w = w
add_batch-Works cat cat' cats (some items) (some work) h q p n (a, b, c) =
    (omega (arith, length-append items work.items, n, a), omega (arith, p, b), (rw q h, c))

work_batch-Works :
    (cat : SessionCategory) (cats : List SessionCategory) (b : Batch) (rest : Option Work)
    → 0 < length cat.queries
    → Fires cat b
    → Works cats rest
    → Works (cat ∷ cats) (work_batch b rest)
unfolding work_batch
work_batch-Works cat cats (fired is cat') rest h (n, ok, q, p) w =
    add_batch-Works cat cat' cats _ rest h q p
      (rw (q, ← n) (pick-Picks cat'.name cat.queries is ok)) w
work_batch-Works cat cats Session.panicked rest h f w = f

pub work_of-Works :
    (sample : ℕ → ℕ → ℕ → ℕ) (place : ℕ) (cats : List SessionCategory)
    → ((k : ℕ) → IsSampler (sample k))
    → HaveQueries cats
    → Works cats (work_of sample place cats)
unfolding work_of
work_of-Works sample place [] s h = (refl, refl, tt)
work_of-Works sample place (cat ∷ cats) s (h, hs) =
    work_batch-Works cat cats _ _ h (next_batch_indices-Fires (sample place) cat (s place) h)
      (work_of-Works sample (place + 1) cats s hs)

module _ {F : Type 0} ⦃fl : F64 F⦄ where
  -- The errors among `n` answers, from the i-th on.
  abbrev pub fails : (ℕ → Result String (QueryResult F)) → ℕ → ℕ → ℕ
  fails answer i zero = 0
  fails answer i (suc n) = bit (is_failure (answer i)) + fails answer (i + 1) n

  abbrev pub Runs : ℕ → ℕ → Tally F → Option (Tally F) → Type 0
  Runs n m t none = ⊥
  Runs n m t (some u) = Accounts n m t [] u

  Accounts-cons :
      (f n m : ℕ) (t u v : Tally F)
      → Accounts 1 f t [] u
      → Accounts n m u [] v
      → Accounts (suc n) (f + m) t [] v
  Accounts-cons f n m t u v a b = record {
    executed = omega (arith, a.executed, b.executed);
    errors = omega (arith, a.errors, b.errors);
    balanced = tt;
    tallied = b.tallied;
  }

  Runs-cons :
      (f n m : ℕ) (t u : Tally F) (r : Option (Tally F))
      → Accounts 1 f t [] u
      → Runs n m u r
      → Runs (suc n) (f + m) t r
  Runs-cons f n m t u none a b = b
  Runs-cons f n m t u (some v) a b = Accounts-cons f n m t u v a b

  record_next-Runs :
      (o : Origin) (default : ℕ) (answer : ℕ → Result String (QueryResult F)) (i : ℕ)
      (items : List (String × QueryDef)) (t : Tally F)
      → ((k : ℕ) → CanCut (answer k))
      → IsTallied t
      → t.queries_executed + length items < 2 ^ 63
      → Runs
          (length items)
          (fails answer i (length items))
          t
          (record_next o default answer i items (some t))
  unfolding record_next
  record_next-Runs o default answer i [] t cut c h = Accounts-refl t c
  record_next-Runs o default answer i ((category, q) ∷ items) t cut c h =
      let f = bit (is_failure (answer i)) in
      elim (record_session o category q (timeout_of default q) (answer i) t)
          as (λ r.
            Steps q.name 1 f (durations (answer i)) t r
            → Runs (suc (length items)) (f + fails answer (i + 1) (length items)) t
                (record_next o default answer (i + 1) items r)) [
                  | none ↦ λ h. absurd h
                  | some u ↦ λ m.
                      let a =
                        Moves-Accounts q.name f _ t u (bit-le (is_failure (answer i))) c
                          (omega arith) m in
                      Runs-cons f (length items) _ t u _ a (
                        record_next-Runs o default answer (i + 1) items u cut a.tallied
                          (omega (arith, a.executed, h)))
                ]
        (record_session-Steps o category q (timeout_of default q) (answer i) t (cut i))

  pub record_batch-Runs :
      (o : Origin) (default : ℕ) (answer : ℕ → Result String (QueryResult F)) (i : ℕ)
      (items : List (String × QueryDef)) (t : Tally F)
      → ((k : ℕ) → CanCut (answer k))
      → IsTallied t
      → t.queries_executed + length items < 2 ^ 63
      → Runs
          (length items)
          (fails answer i (length items))
          t
          (record_batch o default answer i items t)
  unfolding record_batch
  record_batch-Runs o default answer i items t cut c h =
      record_next-Runs o default answer i items t cut c h
