-- ===== src/Scenario/Rates.antt =====
-- The rate tables of crates/incidentbench-common/src/scenario.rs: how the target of a stream and
-- of the query load is divided over the workers.
pub mod Division
use incident_bench.Base.{
  ℕ, zero, suc, ◌+◌, ◌-◌, ◌*◌, ◌/◌, ◌%◌, ◌≤◌, ◌<◌, max, ◌≡◌, refl, ◌∙◌, ap, Option, none, some,
  List, [], ◌∷◌, map, String, arith, ◌==◌, if◌then◌else◌, get_elem?, length, F64, sym,
}
use incident_bench.Scenario.{DataStream, PhaseDef, Scenario, target_of}

pub record WorkerPhaseRate : Type 0 where
  pub phase_name : String
  pub duration_seconds : ℕ
  pub ingest_eps : ℕ
  pub query_mqps : ℕ

pub record WorkerRateTable : Type 0 where
  pub worker_index : ℕ
  pub total_workers : ℕ
  pub phases : List WorkerPhaseRate

-- One worker's part of `total`: the quotient, and the remainder too for the last worker.
unfoldable pub share : ℕ → ℕ → ℕ → ℕ
share total workers index = total / workers + (if index == workers - 1 then total % workers else 0)

unfoldable pub ingest_rate {ℓ} : {F : Type ℓ} → DataStream → ℕ → PhaseDef F → WorkerPhaseRate
ingest_rate stream index p = record {
  phase_name = p.name;
  duration_seconds = p.duration_seconds;
  ingest_eps = share (target_of stream p.name) (max stream.ingest_replicas 1) index;
  query_mqps = 0;
}

-- `Scenario::compute_ingest_rate_table`.
unfoldable pub compute_ingest_rate_table {ℓ} :
    {F : Type ℓ} → Scenario F → DataStream → ℕ → WorkerRateTable
unfolding ingest_rate
compute_ingest_rate_table s stream index = record {
  worker_index = index;
  total_workers = max stream.ingest_replicas 1;
  phases = map (ingest_rate stream index) s.timeline.phases;
}

module _ {ℓ} {F : Type ℓ} ⦃fl : F64 F⦄ where
  -- `(p.query.target_qps * 1000.0) as u64`.
  unfoldable pub total_mqps : PhaseDef F → ℕ
  total_mqps p = fl.to_u64 (fl.mul p.query.target_qps (fl.lit 1000 0))

  unfoldable pub query_rate : ℕ → ℕ → PhaseDef F → WorkerPhaseRate
  query_rate workers index p = record {
    phase_name = p.name;
    duration_seconds = p.duration_seconds;
    ingest_eps = 0;
    query_mqps = share (total_mqps p) workers index;
  }

  -- `Scenario::compute_query_rate_table`.
  unfoldable pub compute_query_rate_table : Scenario F → ℕ → ℕ → WorkerRateTable
  unfolding query_rate
  compute_query_rate_table s query_workers index = record {
    worker_index = index;
    total_workers = max query_workers 1;
    phases = map (query_rate (max query_workers 1) index) s.timeline.phases;
  }

-- The value of `f` summed over the workers 0, …, n - 1.
abbrev pub sum_below : ℕ → (ℕ → ℕ) → ℕ
sum_below zero f = 0
sum_below (suc n) f = sum_below n f + f n

-- The j-th phase of a rate table, and the rates there (0 past the end).
abbrev pub eps_at : Option WorkerPhaseRate → ℕ
eps_at none = 0
eps_at (some r) = r.ingest_eps

abbrev pub mqps_at : Option WorkerPhaseRate → ℕ
mqps_at none = 0
mqps_at (some r) = r.query_mqps

sum_below-congr :
    (n : ℕ) (f g : ℕ → ℕ) → ((i : ℕ) → i < n → f i ≡ g i) → sum_below n f ≡ sum_below n g
sum_below-congr zero f g h = refl
sum_below-congr (suc n) f g h =
    omega (arith, sum_below-congr n f g (λ i lt. h i (omega arith)), h n (omega arith))

sum_below-const : (n k : ℕ) → sum_below n (λ _. k) ≡ n * k
sum_below-const zero k = omega arith
sum_below-const (suc n) k = omega (arith, sum_below-const n k)

share-front : (total n i : ℕ) → i < n → share total (suc n) i ≡ total / suc n
unfolding share
share-front total n i h = ground arith

share-last : (total n : ℕ) → share total (suc n) n ≡ total / suc n + total % suc n
unfolding share
share-last total n = ground arith

-- The parts of all the workers add up to the whole.
pub sum_below-share : (total n : ℕ) → sum_below (suc n) (share total (suc n)) ≡ total
sum_below-share total n = omega (
  arith,
  sum_below-congr n (share total (suc n)) (λ _. total / suc n) (share-front total n),
  sum_below-const n (total / suc n),
  share-last total n,
)
