-- ===== src/Aggregator/Filing.antt =====
-- Filing a snapshot in its bucket, and a point in the timeline, seen from one second.
use mathlib.Core.List.{append-nil}
use mathlib.Core.Path.{subst}
use incident_bench.Base.{
  ℕ, ◌≡◌, refl, sym, ap, ◌∙◌, inl, inr, String, Bool, true, false, ◌||◌, Option, none, some, List,
  [], ◌∷◌, ◌++◌, arith, filter, ◌==◌, if◌then◌else◌, str_eq, eq_iff, Bool-cases, unwrap_or,
}
use incident_bench.Metrics.{AggregatedMetricPoint}
use incident_bench.Aggregator.Snapshots.{
  WorkerMetricSnapshot, SecondBucket, bucket_at, push_snapshot, file_snapshot, empty_bucket,
}
use incident_bench.Aggregator.{upsert}
use incident_bench.Aggregator.Runs.{by_mode, points_at}

module _ {ℓ} {F : Type ℓ} where
  abbrev pub bucket_of : List (WorkerMetricSnapshot F) → Option (SecondBucket F)
  bucket_of [] = none
  bucket_of (s ∷ rest) = some (by_mode (s ∷ rest))

pub filter-snoc {ℓ} :
    {A : Type ℓ} (p : A → Bool) (xs : List A) (y : A)
    → filter p (xs ++ y ∷ []) ≡ filter p xs ++ (if p y then y ∷ [] else [])
filter-snoc p [] y = elim (Bool-cases (p y)) [ inl e ↦ rw e refl | inr e ↦ rw e refl ]
filter-snoc p (x ∷ xs) y = elim (Bool-cases (p x)) [
  | inl e ↦ rw e (ap (◌∷◌ x) (filter-snoc p xs y))
  | inr e ↦ rw e (filter-snoc p xs y)
]

pub ingest_only :
    (m : String) → str_eq m "ingest" ≡ true → (str_eq m "query" || str_eq m "query-session") ≡ false
ingest_only m h =
    subst (λ k. (str_eq k "query" || str_eq k "query-session") ≡ false)
      (sym ((eq_iff m "ingest").0 h)) refl

module _ {ℓ} {F : Type ℓ} where
  abbrev pair_up :
      {a a' b b' : List (WorkerMetricSnapshot F)}
      → a ≡ a'
      → b ≡ b'
      → ◌≡◌ {A = SecondBucket F}
          (record { ingest_snapshots = a; query_snapshots = b })
          (record { ingest_snapshots = a'; query_snapshots = b' })
  pair_up e d i = record { ingest_snapshots = e i; query_snapshots = d i }

  pub by_mode-push :
      (xs : List (WorkerMetricSnapshot F)) (snap : WorkerMetricSnapshot F)
      → by_mode (xs ++ snap ∷ []) ≡ push_snapshot snap (by_mode xs)
  unfolding push_snapshot
  by_mode-push xs snap =
      let a = filter-snoc (λ (s : WorkerMetricSnapshot F). str_eq s.worker_mode "ingest") xs snap in
      let b =
        filter-snoc
          (λ (s : WorkerMetricSnapshot F).
            str_eq s.worker_mode "query" || str_eq s.worker_mode "query-session")
          xs snap in
      elim (Bool-cases (str_eq snap.worker_mode "ingest")) [
        | inl e ↦
            let n = ingest_only snap.worker_mode e in
            rw e (pair_up (a ∙ rw e refl) (b ∙ rw n (append-nil _)))
        | inr e ↦
            elim (Bool-cases
              (str_eq snap.worker_mode "query" || str_eq snap.worker_mode "query-session")) [
                | inl q ↦ rw (e, q) (pair_up (a ∙ rw e (append-nil _)) (b ∙ rw q refl))
                | inr q ↦ rw (e, q) (pair_up (a ∙ rw e (append-nil _)) (b ∙ rw q (append-nil _)))
              ]
      ]

  pub bucket_of-push :
      (xs : List (WorkerMetricSnapshot F)) (snap : WorkerMetricSnapshot F)
      → bucket_of (xs ++ snap ∷ [])
        ≡ some (push_snapshot snap (unwrap_or (bucket_of xs) empty_bucket))
  bucket_of-push [] snap = ap some (by_mode-push [] snap)
  bucket_of-push (x ∷ xs) snap = ap some (by_mode-push (x ∷ xs) snap)

  pub bucket_at-file_snapshot :
      (t u : ℕ) (snap : WorkerMetricSnapshot F) (bs : List (ℕ × SecondBucket F))
      → bucket_at t (file_snapshot u snap bs) ≡ (
          if u == t
          then some (push_snapshot snap (unwrap_or (bucket_at t bs) empty_bucket))
          else bucket_at t bs)
  unfolding bucket_at file_snapshot
  bucket_at-file_snapshot t u snap [] = ground arith
  bucket_at-file_snapshot t u snap ((v, b) ∷ bs) =
      ground (arith, bucket_at-file_snapshot t u snap bs)

  abbrev pub time : AggregatedMetricPoint F → ℕ
  time p = p.timestamp_s

  pub points_at-upsert_other :
      (t : ℕ) (x : AggregatedMetricPoint F) (ys : List (AggregatedMetricPoint F))
      → (time x == t) ≡ false
      → points_at t (upsert time x ys) ≡ points_at t ys
  unfolding upsert
  points_at-upsert_other t x [] h = rw h refl
  points_at-upsert_other t x (y ∷ ys) h = ground (arith, points_at-upsert_other t x ys)

  pub points_at-upsert_absent :
      (x : AggregatedMetricPoint F) (ys : List (AggregatedMetricPoint F))
      → points_at (time x) ys ≡ []
      → points_at (time x) (upsert time x ys) ≡ x ∷ []
  unfolding upsert
  points_at-upsert_absent x [] h = ground arith
  points_at-upsert_absent x (y ∷ ys) h = ground (arith, points_at-upsert_absent x ys)

  pub points_at-upsert_present :
      (x z : AggregatedMetricPoint F) (ys : List (AggregatedMetricPoint F))
      → points_at (time x) ys ≡ z ∷ []
      → points_at (time x) (upsert time x ys) ≡ x ∷ []
  unfolding upsert
  points_at-upsert_present x z [] h = cc
  points_at-upsert_present x z (y ∷ ys) h = ground (arith, points_at-upsert_present x z ys)
