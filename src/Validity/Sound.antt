-- ===== src/Validity/Sound.antt =====
-- What a valid verdict says of the run.
use incident_bench.Base.{
  ℕ, zero, suc, get_elem?, ◌≤◌, ◌≡◌, refl, ◌↔◌, ◌≢◌, String, Bool, true, false, ◌&&◌, ◌||◌, all,
  length, Option, some, List, [], ◌∷◌, All, arith, last, is_empty, ltb, if◌then◌else◌, Bool-cases,
  inl, inr, F64, zero_f, ◌≼◌, IsNumber, IsOrdered,
}
use incident_bench.Scenario.{ValidRunRule, Scenario}
use incident_bench.Scenario.Validate.Emptiness.{append_iff}
use incident_bench.Metrics.{AggregatedMetricPoint, sort_by, insert_by, value_or_zero}
use incident_bench.Metrics.Sorting.{Sorted, All-sort_by, sort_by-Sorted}
use incident_bench.Metrics.Derived.{DerivedMetrics, in_phase, compute_derived}
use incident_bench.Validity.Target.{MeetsTarget, baseline_target-MeetsTarget}
use incident_bench.Validity.Rules.{Gives, evaluate_criteria_rule-violated_iff}
use incident_bench.Validity.{
  low_ingest, Verdict, p99s, median, baseline_violations, baseline_target, achieved_eps,
  ingest_violations, sortable, evaluate_criteria_rule, rule_violations, warnings, all_violations,
  evaluate_validity,
}

both_iff {ℓ} :
    {A : Type ℓ} (e : A) (a b : Bool)
    → ((if a && b then e ∷ [] else []) ≡ []) ↔ (a ≡ true → b ≡ false)
both_iff e true true = (λ h _. cc, λ h. let k = h refl in cc)
both_iff e true false = (λ _ _. refl, λ _. refl)
both_iff e false b = (λ _ h. cc, λ _. refl)

nested_iff {ℓ} :
    {A : Type ℓ} (e : A) (a b : Bool)
    → ((if a then (if b then e ∷ [] else []) else []) ≡ []) ↔ (a ≡ true → b ≡ false)
nested_iff e true true = (λ h _. cc, λ h. let k = h refl in cc)
nested_iff e true false = (λ _ _. refl, λ _. refl)
nested_iff e false b = (λ _ h. cc, λ _. refl)

positive_iff : (n : ℕ) → (ltb 0 n ≡ true) ↔ (1 ≤ n)
positive_iff n = ground arith

empty_iff {ℓ} : {A : Type ℓ} (xs : List A) → (is_empty xs ≡ true) ↔ (xs ≡ [])
empty_iff [] = (λ _. refl, λ _. refl)
empty_iff (x ∷ xs) = (λ h. cc, λ h. cc)

or_true : (b : Bool) → (b || true) ≡ true
or_true true = refl
or_true false = refl

module _ {ℓ} {F : Type ℓ} ⦃fl : F64 F⦄ where
  -- The 99th percentiles of the baseline are at most twice their median, if that is above 0.
  abbrev pub IsStable : List F → Type 0
  IsStable values =
      let m = median (sort_by (λ x. x) values) in
      fl.lt zero_f m ≡ true → All (λ x. x ≼ fl.mul m (fl.lit 2 0)) values

  -- No rule has a condition that is in force and false.
  abbrev pub RulesHold :
      (String → List String) → (String → Option F) → DerivedMetrics F → List ValidRunRule → Type ℓ
  RulesHold split_whitespace parse d rules =
      All (λ (r : ValidRunRule). ¬ (Gives parse (split_whitespace r.condition) d false)) rules

module _ {ℓ} {F : Type ℓ} ⦃fl : F64 F⦄ (order : IsOrdered F) where
  insert_by-All :
      (P : F → Type 0) (x : F) (ys : List F) → All P (insert_by (λ y. y) x ys) → P x × All P ys
  unfolding insert_by
  insert_by-All P x [] h = h
  insert_by-All P x (y ∷ ys) h = elim (Bool-cases (fl.lt y x)) [
    | inl e ↦ let g = rw e at h in let r = insert_by-All P x ys g.1 in (r.0, (g.0, r.1))
    | inr e ↦ let g = rw e at h in (g.0, g.1)
  ]

  sort_by-All : (P : F → Type 0) (xs : List F) → All P (sort_by (λ y. y) xs) → All P xs
  unfolding sort_by
  sort_by-All P [] h = tt
  sort_by-All P (x ∷ xs) h =
      let r = insert_by-All P x (sort_by (λ y. y) xs) h in (r.0, sort_by-All P xs r.1)

  -- All values of a sorted list are at most a bound just when the last one is.
  last-bound :
      (y x : F) (xs : List F) → All (λ z. z ≼ y) (x ∷ xs) → value_or_zero (last (x ∷ xs)) ≼ y
  last-bound y x [] h = h.0
  last-bound y x (z ∷ zs) h = last-bound y z zs h.1

  bound-last :
      (y x : F) (xs : List F)
      → Sorted (λ z. z) (x ∷ xs)
      → value_or_zero (last (x ∷ xs)) ≼ y
      → All (λ z. z ≼ y) (x ∷ xs)
  bound-last y x [] s h = (h, tt)
  bound-last y x (z ∷ zs) s h =
      let rest = bound-last y z zs s.1 h in (order.le_trans x z y s.0.0 rest.0, rest)

  all_numbers : (xs : List F) → All IsNumber xs → all (λ x. fl.le x x) xs ≡ true
  all_numbers [] h = refl
  all_numbers (x ∷ xs) h = rw (h.0, all_numbers xs h.1) refl

  sortable_numbers : (xs : List F) → All IsNumber xs → sortable xs ≡ true
  unfolding sortable
  sortable_numbers xs h = rw (all_numbers xs h) (or_true (ltb (length xs) 2))

  get-IsNumber : (xs : List F) (i : ℕ) → All IsNumber xs → IsNumber (value_or_zero (get_elem? xs i))
  get-IsNumber [] i h = order.lit_number 0 0
  get-IsNumber (x ∷ xs) zero h = h.0
  get-IsNumber (x ∷ xs) (suc i) h = get-IsNumber xs i h.1

  last-IsNumber : (xs : List F) → All IsNumber xs → IsNumber (value_or_zero (last xs))
  last-IsNumber [] h = order.lit_number 0 0
  last-IsNumber (x ∷ []) h = h.0
  last-IsNumber (x ∷ y ∷ ys) h = last-IsNumber (y ∷ ys) h.1

  not_lt_iff : (x y : F) → IsNumber x → IsNumber y → (fl.lt x y ≡ false) ↔ (y ≼ x)
  not_lt_iff x y h k = let c = order.lt-eq-not-le x y h k in ground (arith, c)

  insert_by-cons : (x : F) (ys : List F) → insert_by (λ y. y) x ys ≢ []
  unfolding insert_by
  insert_by-cons x [] h = cc
  insert_by-cons x (y ∷ ys) h = ground arith

  -- The last of a sorted list that is not empty is at most a bound just when all values are.
  last_iff :
      (y : F) (xs : List F)
      → xs ≢ []
      → Sorted (λ z. z) xs
      → (value_or_zero (last xs) ≼ y) ↔ All (λ z. z ≼ y) xs
  last_iff y [] n s = absurd (n refl)
  last_iff y (x ∷ xs) n s = (bound-last y x xs s, last-bound y x xs)

  module _ (double : (x : F) → IsNumber x → IsNumber (fl.mul x (fl.lit 2 0))) where
    baseline_violations_iff :
        (baseline : List (AggregatedMetricPoint F))
        → All IsNumber (p99s baseline)
        → (baseline_violations baseline ≡ []) ↔ IsStable (p99s baseline)
    unfolding baseline_violations
    baseline_violations_iff [] n = (λ _ _. tt, λ _. refl)
    baseline_violations_iff (p ∷ ps) n =
        let values = p99s (p ∷ ps) in
        let sorted = sort_by (λ (x : F). x) values in
        let numbers = All-sort_by (λ (x : F). x) IsNumber values n in
        let limit = fl.mul (median sorted) (fl.lit 2 0) in
        let limit_number = double (median sorted) (get-IsNumber sorted _ numbers) in
        let full : sorted ≢ [] =
          unfold sort_by in insert_by-cons p.query_latency.p99 (sort_by (λ x. x) (p99s ps)) in
        let top = last_iff limit sorted full (sort_by-Sorted (λ (x : F). x) order values n) in
        let lt =
          not_lt_iff limit (value_or_zero (last sorted)) limit_number
            (last-IsNumber sorted numbers) in
        let both =
          both_iff _ (fl.lt zero_f (median sorted)) (fl.lt limit (value_or_zero (last sorted))) in
        (
          λ h a. sort_by-All (λ x. x ≼ limit) values (top.0 (lt.0 (both.0 h a))),
          λ h.
              both.1 (λ a. lt.1 (top.1 (All-sort_by (λ (x : F). x) (λ x. x ≼ limit) values (h a)))),
        )

    ingest_violations_iff :
        (baseline : List (AggregatedMetricPoint F)) (s : Scenario F)
        → (ingest_violations baseline s ≡ []) ↔ MeetsTarget baseline s
    unfolding ingest_violations
    ingest_violations_iff [] s = (λ _ n. absurd (n refl), λ _. refl)
    ingest_violations_iff (p ∷ ps) s =
        let both =
          nested_iff (low_ingest (achieved_eps (p ∷ ps) s) (baseline_target s))
            (ltb 0 (baseline_target s))
            (fl.lt (achieved_eps (p ∷ ps) s)
              (fl.mul (fl.of_nat (baseline_target s)) (fl.lit 9 1))) in
        let some_target = positive_iff (baseline_target s) in
        let as_computed = baseline_target-MeetsTarget (p ∷ ps) s in
        (
          λ h. as_computed.0 (λ _ t. both.0 h (some_target.1 t)),
          λ h. both.1 (λ a. as_computed.1 h (λ e. cc) (some_target.0 a)),
        )

    module _ (split_whitespace : String → List String) (parse : String → Option F) where
      rule_violations_iff :
          (d : DerivedMetrics F) (rules : List ValidRunRule)
          → (rule_violations split_whitespace parse d rules ≡ [])
            ↔ RulesHold split_whitespace parse d rules
      unfolding rule_violations
      rule_violations_iff d [] = (λ _. tt, λ _. refl)
      rule_violations_iff d (r ∷ rest) =
          let ih = rule_violations_iff d rest in
          let rule = evaluate_criteria_rule-violated_iff split_whitespace parse r.condition d in
          elim (Bool-cases (evaluate_criteria_rule split_whitespace parse r.condition d)) [
            | inl e ↦ (λ h. absurd (let g = rw e at h in cc), λ h. absurd (h.0 (rule.0 e)))
            | inr e ↦
                (λ h. (λ gives. let g = rule.1 gives in cc, ih.0 (rw e at h)), λ h. rw e (ih.1 h.1))
          ]

      pub evaluate_validity-valid_iff :
          (points : List (AggregatedMetricPoint F)) (s : Scenario F)
          → All IsNumber (p99s (in_phase "baseline" points))
          → (v : Verdict F) × (evaluate_validity split_whitespace parse points s ≡ some v)
            × ((v.valid ≡ true) ↔ (
                IsStable (p99s (in_phase "baseline" points))
                × (MeetsTarget (in_phase "baseline" points) s
                    × RulesHold split_whitespace parse
                        (compute_derived points)
                        s.valid_run_criteria)))
      unfolding evaluate_validity all_violations
      evaluate_validity-valid_iff points s n =
          let violations = all_violations split_whitespace parse points s in
          let clear = append_iff _ _ (baseline_violations_iff (in_phase "baseline" points) n) (
            append_iff _ _ (ingest_violations_iff (in_phase "baseline" points) s)
              (rule_violations_iff (compute_derived points) s.valid_run_criteria)) in
          let empty = empty_iff violations in
          rw (sortable_numbers (p99s (in_phase "baseline" points)) n) (
            record {
              valid = is_empty violations;
              violations = violations;
              warnings = warnings points s;
            },
            refl,
            (λ h. clear.0 (empty.0 h), λ h. empty.1 (clear.1 h)),
          )
