-- ===== src/Operator/Targets/Warehouses.antt =====
-- The warehouses that a run's query groups name, each once.
use incident_bench.Base.{
  ◌≡◌, refl, sym, ◌∙◌, ◌⊎◌, inl, inr, String, Option, none, some, List, [], ◌∷◌, map, All, keys,
  lookup, str_eq, eq_iff, if◌then◌else◌, arith, Bool-cases, find,
}
use incident_bench.Scenario.Validate.Emptiness.{In, Distinct}
use incident_bench.Crd.{IncidentBenchRunSpec, QueryGroupSpec}
use incident_bench.Cluster.{WarehouseConfig}
use incident_bench.Cluster.Objects.{Platform}
use incident_bench.Operator.Targets.{
  or_insert, warehouse_of, seen_warehouses, warehouses_of, build_warehouse_configs,
}

-- The first group that names a warehouse.
abbrev pub first_of : String → List QueryGroupSpec → Option WarehouseConfig
first_of name [] = none
first_of name (g ∷ groups) =
    let rest = first_of name groups in
    if str_eq g.warehouse.name name then some (warehouse_of g) else rest

abbrev or_else {ℓ} : {A : Type ℓ} → Option A → Option A → Option A
or_else none o = o
or_else (some a) o = some a

lookup-or_insert {ℓ} :
    {V : Type ℓ} (a b : String) (new : V) (entries : List (String × V))
    → lookup b (or_insert a new entries)
      ≡ or_else (lookup b entries) (if str_eq a b then some new else none)
unfolding or_insert lookup
lookup-or_insert a b new [] = ground arith
lookup-or_insert a b new ((c, old) ∷ entries) =
    ground (arith, eq_iff a b, eq_iff c a, eq_iff c b, lookup-or_insert a b new entries)

or_else-none {ℓ} : {A : Type ℓ} (o : Option A) → o ≡ or_else o none
or_else-none none = refl
or_else-none (some a) = refl

-- A warehouse that is seen is kept, and any other is the first group's.
lookup-seen_warehouses :
    (name : String) (seen : List (String × WarehouseConfig)) (groups : List QueryGroupSpec)
    → lookup name (seen_warehouses seen groups) ≡ or_else (lookup name seen) (first_of name groups)
unfolding seen_warehouses
lookup-seen_warehouses name seen [] = or_else-none (lookup name seen)
lookup-seen_warehouses name seen (g ∷ groups) =
    rw
      (
        lookup-seen_warehouses name (or_insert g.warehouse.name (warehouse_of g) seen) groups,
        lookup-or_insert g.warehouse.name name (warehouse_of g) seen,
      )
      (ground arith)

abbrev Keyed : List (String × WarehouseConfig) → Type 0
Keyed entries = All (λ (e : String × WarehouseConfig). e.1.name ≡ e.0) entries

or_insert-Keyed :
    (w : WarehouseConfig) (entries : List (String × WarehouseConfig))
    → Keyed entries
    → Keyed (or_insert w.name w entries)
unfolding or_insert
or_insert-Keyed w [] h = (refl, tt)
or_insert-Keyed w ((c, old) ∷ entries) (h, hs) = elim (Bool-cases (str_eq c w.name)) [
  | inl e ↦ rw e (h, hs)
  | inr e ↦ rw e (h, or_insert-Keyed w entries hs)
]

or_insert-In :
    (w : WarehouseConfig) (a : String) (entries : List (String × WarehouseConfig))
    → In a (keys (or_insert w.name w entries))
    → (w.name ≡ a) ⊎ In a (keys entries)
unfolding or_insert
or_insert-In w a [] m = m
or_insert-In w a ((c, old) ∷ entries) m = elim (Bool-cases (str_eq c w.name)) [
  | inl e ↦ inr (rw e at m)
  | inr e ↦ elim (rw e at m) [
    | inl k ↦ inr (inl k)
    | inr k ↦ elim (or_insert-In w a entries k) [ inl x ↦ inl x | inr x ↦ inr (inr x) ]
  ]
]

or_insert-Distinct :
    (w : WarehouseConfig) (entries : List (String × WarehouseConfig))
    → Distinct (keys entries)
    → Distinct (keys (or_insert w.name w entries))
unfolding or_insert
or_insert-Distinct w [] h = (λ m. m, tt)
or_insert-Distinct w ((c, old) ∷ entries) (h, hs) = elim (Bool-cases (str_eq c w.name)) [
  | inl e ↦ rw e (h, hs)
  | inr e ↦ rw e (
    λ m. elim (or_insert-In w c entries m) [
      | inl x ↦ (let same = (eq_iff c w.name).1 (sym x) in cc)
      | inr x ↦ h x
    ],
    or_insert-Distinct w entries hs,
  )
]

seen_warehouses-Keyed :
    (seen : List (String × WarehouseConfig)) (groups : List QueryGroupSpec)
    → Keyed seen × Distinct (keys seen)
    → Keyed (seen_warehouses seen groups) × Distinct (keys (seen_warehouses seen groups))
unfolding seen_warehouses
seen_warehouses-Keyed seen [] h = h
seen_warehouses-Keyed seen (g ∷ groups) (h, k) =
    seen_warehouses-Keyed (or_insert g.warehouse.name (warehouse_of g) seen) groups
      (or_insert-Keyed (warehouse_of g) seen h, or_insert-Distinct (warehouse_of g) seen k)

abbrev values : List (String × WarehouseConfig) → List WarehouseConfig
values entries = map (λ (e : String × WarehouseConfig). e.1) entries

abbrev pub names : List WarehouseConfig → List String
names ws = map (λ (w : WarehouseConfig). w.name) ws

names-values :
    (entries : List (String × WarehouseConfig))
    → Keyed entries
    → names (values entries) ≡ keys entries
names-values [] h = refl
names-values (e ∷ entries) (h, hs) = λ i. h i ∷ names-values entries hs i

abbrev pub with_name : String → List WarehouseConfig → Option WarehouseConfig
with_name name ws = find (λ (w : WarehouseConfig). str_eq w.name name) ws

with_name-values :
    (name : String) (entries : List (String × WarehouseConfig))
    → Keyed entries
    → with_name name (values entries) ≡ lookup name entries
unfolding lookup
with_name-values name [] h = refl
with_name-values name ((c, w) ∷ entries) (h, hs) = rw (h, with_name-values name entries hs) refl

-- The warehouses that a run with query groups asks the adapter for have distinct names, and the one
-- of a given name is configured as by the first group that names it; there is none of a name that no
-- group has.
pub build_warehouse_configs-first :
    {F J : Type 0} ⦃pf : Platform J⦄ (spec : IncidentBenchRunSpec F J)
    (groups : List QueryGroupSpec)
    → spec.workers.query_groups ≡ some groups
    → Distinct (names (build_warehouse_configs spec))
      × ((name : String) → with_name name (build_warehouse_configs spec) ≡ first_of name groups)
unfolding build_warehouse_configs warehouses_of lookup
build_warehouse_configs-first spec groups e =
    let (keyed, distinct) = seen_warehouses-Keyed [] groups (tt, tt) in
    rw e (
      rw (names-values (seen_warehouses [] groups) keyed) distinct,
      λ name.
          with_name-values name (seen_warehouses [] groups) keyed
          ∙ lookup-seen_warehouses name [] groups,
    )
