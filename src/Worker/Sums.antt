-- ===== src/Worker/Sums.antt =====
-- Sums over the snapshots of many workers: those that the channel took and those that it refused, of
-- either mode, in any order.
use mathlib.Core.Logic.{∥∥₁_elim}
use mathlib.Core.List.{Perm, Permᴰ}
use native.Mathlib.Nat.{ℕ_set}
use incident_bench.Base.{
  ℕ, ◌+◌, ◌%◌, ◌≡◌, refl, ap, ◌∙◌, inl, inr, arith, String, Bool, true, false, Bool-cases, not,
  List, [], ◌∷◌, ◌++◌, filter, map, sum, sum_u64-eq-sum, u64_mod, ℤ, as_u64, max_zero,
  if◌then◌else◌, All, str_eq,
}
use incident_bench.Aggregator.Snapshots.{WorkerMetricSnapshot}
use incident_bench.Aggregator.Bucket.{total}
use incident_bench.Aggregator.Filing.{ingest_only}
use incident_bench.Worker.{Offer, total_of}
use incident_bench.Worker.Query.Accounts.{is_query}

abbrev pub is_ingest : String → Bool
is_ingest mode = str_eq mode "ingest"

module _ {F : Type 0} where
  -- What the channel took, and what it did not.
  abbrev pub taken : List (Offer F) → List (WorkerMetricSnapshot F)
  taken out = map (λ (o : Offer F). o.snapshot) (filter (λ (o : Offer F). o.taken) out)

  abbrev pub refused : List (Offer F) → List (WorkerMetricSnapshot F)
  refused out = map (λ (o : Offer F). o.snapshot) (filter (λ (o : Offer F). not o.taken) out)

  -- A number of the snapshots of a mode.
  abbrev pub measure : (String → Bool) → (WorkerMetricSnapshot F → ℤ) → WorkerMetricSnapshot F → ℕ
  measure mode field s = if mode s.worker_mode then as_u64 (field s) else 0

  abbrev pub measured :
      (String → Bool) → (WorkerMetricSnapshot F → ℤ) → List (WorkerMetricSnapshot F) → ℕ
  measured mode field snaps = sum (map (measure mode field) snaps)

  pub total-filter :
      (mode : String → Bool) (field : WorkerMetricSnapshot F → ℤ)
      (snaps : List (WorkerMetricSnapshot F))
      → total field (filter (λ s. mode s.worker_mode) snaps) ≡ measured mode field snaps % u64_mod
  total-filter mode field [] = sum_u64-eq-sum []
  total-filter mode field (s ∷ snaps) =
      let rest = filter (λ s. mode s.worker_mode) snaps in
      let e = sum_u64-eq-sum (map (λ s. as_u64 (field s)) rest) in
      let e' = sum_u64-eq-sum (map (λ s. as_u64 (field s)) (s ∷ rest)) in
      elim (Bool-cases (mode s.worker_mode)) [
        | inl h ↦ rw h (omega (arith, e, e', total-filter mode field snaps))
        | inr h ↦ rw h (omega (arith, total-filter mode field snaps))
      ]

  module _ (mode : String → Bool) (field : WorkerMetricSnapshot F → ℤ) where
    pub measured-append :
        (xs ys : List (WorkerMetricSnapshot F))
        → measured mode field (xs ++ ys) ≡ measured mode field xs + measured mode field ys
    measured-append [] ys = omega arith
    measured-append (x ∷ xs) ys = omega (arith, measured-append xs ys)

    measured-Permᴰ :
        {xs ys : List (WorkerMetricSnapshot F)}
        → Permᴰ xs ys
        → measured mode field xs ≡ measured mode field ys
    measured-Permᴰ Permᴰ.nil = refl
    measured-Permᴰ (Permᴰ.cons e p) = omega (arith, ap (measure mode field) e, measured-Permᴰ p)
    measured-Permᴰ (Permᴰ.swap e d) =
        omega (arith, ap (measure mode field) e, ap (measure mode field) d)
    measured-Permᴰ (Permᴰ.trans p q) = measured-Permᴰ p ∙ measured-Permᴰ q

    pub measured-perm :
        {xs ys : List (WorkerMetricSnapshot F)}
        → Perm xs ys
        → measured mode field xs ≡ measured mode field ys
    measured-perm p = ∥∥₁_elim p (ℕ_set _ _) measured-Permᴰ

    -- Each snapshot is taken or refused.
    pub measured_split :
        (out : List (Offer F))
        → measured mode field (taken out) + measured mode field (refused out)
          ≡ measured mode field (map (λ (o : Offer F). o.snapshot) out)
    measured_split [] = refl
    measured_split (o ∷ out) = elim (Bool-cases o.taken) [
      | inl h ↦ rw h (omega (arith, measured_split out))
      | inr h ↦ rw h (omega (arith, measured_split out))
    ]

    -- Snapshots of the mode, with numbers that are the same as `u64`.
    abbrev pub IsOf : Offer F → Type 0
    IsOf o =
        (mode o.snapshot.worker_mode ≡ true)
        × (as_u64 (field o.snapshot) ≡ max_zero (field o.snapshot))

    pub measured-total_of :
        (out : List (Offer F))
        → All IsOf out
        → measured mode field (map (λ (o : Offer F). o.snapshot) out) ≡ total_of field out
    measured-total_of [] h = refl
    measured-total_of (o ∷ out) ((m, e), h) = rw m (omega (arith, e, measured-total_of out h))

    pub measured_none :
        (out : List (Offer F))
        → All (λ (o : Offer F). mode o.snapshot.worker_mode ≡ false) out
        → measured mode field (map (λ (o : Offer F). o.snapshot) out) ≡ 0
    measured_none [] h = refl
    measured_none (o ∷ out) (m, h) = rw m (omega (arith, measured_none out h))

pub query_only : (mode : String) → is_query mode ≡ true → is_ingest mode ≡ false
query_only mode h = elim (Bool-cases (is_ingest mode)) [
  | inl e ↦ let n = ingest_only mode e in cc
  | inr e ↦ e
]
