-- ===== src/Validity/Target.antt =====
-- What it is to meet the ingest target in the baseline.
use incident_bench.Base.{
  ◌⊎◌, sum, sum_u64-eq-sum, map, find, str_eq, eq_iff, u64_mod, ◌%◌, ℕ, ◌≤◌, ◌≡◌, refl, ◌↔◌, ◌≢◌,
  true, false, List, [], ◌∷◌, Bool-cases, inl, inr, F64, zero_f,
}
use mathlib.Core.Path.{subst}
use incident_bench.Scenario.{DataStream, PhaseDef, Scenario, streams_of, target_of}
use incident_bench.Metrics.{AggregatedMetricPoint}
use incident_bench.Validity.{duration_or_zero, baseline_target, achieved_eps}

module _ {ℓ} {F : Type ℓ} ⦃fl : F64 F⦄ where
  -- The seconds of the first phase that is the baseline; 0 without one.
  abbrev pub LastsFor : List (PhaseDef F) → F → Type ℓ
  LastsFor [] d = d ≡ zero_f
  LastsFor (p ∷ ps) d =
      ((p.name ≡ "baseline") × (d ≡ fl.of_nat p.duration_seconds))
      ⊎ ((p.name ≢ "baseline") × LastsFor ps d)

  -- The events of the points in each of `d` seconds; 0 if these are not above 0.
  abbrev pub RateIs : List (AggregatedMetricPoint F) → F → F → Type ℓ
  RateIs points d rate =
      let events =
        sum (map (λ (p : AggregatedMetricPoint F). p.ingest_events_produced) points) % u64_mod in
      ((fl.lt zero_f d ≡ true) × (rate ≡ fl.div (fl.of_nat events) d))
      ⊎ ((fl.lt zero_f d ≡ false) × (rate ≡ zero_f))

  abbrev pub target_at_baseline : Scenario F → ℕ
  target_at_baseline s =
      sum (map (λ (d : DataStream). target_of d "baseline") (streams_of s)) % u64_mod

  -- With points in the baseline and a target of the streams, the rate of events over the length of
  -- the baseline is not below nine tenths of the target.
  abbrev pub MeetsTarget : List (AggregatedMetricPoint F) → Scenario F → Type ℓ
  MeetsTarget baseline s =
      baseline ≢ []
      → 1 ≤ target_at_baseline s
      → (d rate : F) → LastsFor s.timeline.phases d
      → RateIs baseline d rate
      → fl.lt rate (fl.mul (fl.of_nat (target_at_baseline s)) (fl.lit 9 1)) ≡ false

  baseline_duration : List (PhaseDef F) → F
  baseline_duration phases =
      duration_or_zero (find (λ (p : PhaseDef F). str_eq p.name "baseline") phases)

  baseline_duration-LastsFor :
      (phases : List (PhaseDef F)) (d : F) → LastsFor phases d ↔ (d ≡ baseline_duration phases)
  unfolding baseline_duration
  baseline_duration-LastsFor [] d = (λ h. h, λ h. h)
  baseline_duration-LastsFor (p ∷ ps) d = elim (Bool-cases (str_eq p.name "baseline")) [
    | inl e ↦
        let here : p.name ≡ "baseline" = (eq_iff p.name "baseline").0 e in
        (λ h. elim h [ inl a ↦ rw e a.1 | inr a ↦ absurd (a.0 here) ], λ h. inl (here, rw e at h))
    | inr e ↦
        let away : p.name ≢ "baseline" = λ h. let g = (eq_iff p.name "baseline").1 h in cc in
        (
          λ h. elim h [
            | inl a ↦ absurd (away a.0)
            | inr a ↦ rw e ((baseline_duration-LastsFor ps d).0 a.1)
          ],
          λ h. inr (away, (baseline_duration-LastsFor ps d).1 (rw e at h)),
        )
  ]

  achieved_eps-RateIs :
      (baseline : List (AggregatedMetricPoint F)) (s : Scenario F) (rate : F)
      → RateIs baseline (baseline_duration s.timeline.phases) rate
        ↔ (rate ≡ achieved_eps baseline s)
  unfolding achieved_eps baseline_duration
  achieved_eps-RateIs baseline s rate =
      let d = baseline_duration s.timeline.phases in
      let e =
        sum_u64-eq-sum (map (λ (p : AggregatedMetricPoint F). p.ingest_events_produced) baseline) in
      elim (Bool-cases (fl.lt zero_f d)) [
        | inl b ↦
            rw (b, e)
              (λ h. elim h [ inl a ↦ a.1 | inr a ↦ absurd (let g = a.0 in cc) ], λ h. inl (refl, h))
        | inr b ↦
            rw b
              (λ h. elim h [ inl a ↦ absurd (let g = a.0 in cc) | inr a ↦ a.1 ], λ h. inr (refl, h))
      ]

  target-eq : (s : Scenario F) → baseline_target s ≡ target_at_baseline s
  target-eq s = sum_u64-eq-sum (map (λ (d : DataStream). target_of d "baseline") (streams_of s))

  -- The same with the target and the rate as they are computed.
  pub baseline_target-MeetsTarget :
      (baseline : List (AggregatedMetricPoint F)) (s : Scenario F)
      → (baseline ≢ []
          → 1 ≤ baseline_target s
          → fl.lt (achieved_eps baseline s) (fl.mul (fl.of_nat (baseline_target s)) (fl.lit 9 1))
            ≡ false)
        ↔ MeetsTarget baseline s
  baseline_target-MeetsTarget baseline s =
      let d = baseline_duration s.timeline.phases in
      rw (target-eq s) (
        λ h n t x rate l r.
            let x_eq : x ≡ d = (baseline_duration-LastsFor s.timeline.phases x).0 l in
            let rate_eq : rate ≡ achieved_eps baseline s =
              (achieved_eps-RateIs baseline s rate).0
                (subst (λ y. RateIs baseline y rate) x_eq r) in
            rw rate_eq (h n t),
        λ h n t.
            h n t d (achieved_eps baseline s)
              ((baseline_duration-LastsFor s.timeline.phases d).1 refl)
              ((achieved_eps-RateIs baseline s (achieved_eps baseline s)).1 refl),
      )
