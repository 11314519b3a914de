-- ===== src/Validity.antt =====
-- The validity of a run: `evaluate_validity` and `evaluate_criteria_rule` of
-- crates/incidentbench-reporter/src/json_report.rs. A message is a constructor with the values that
-- its format string prints. `str::split_whitespace` and `str::parse` are arguments.
pub mod Target
pub mod Sound
pub mod Rules
use incident_bench.Base.{
  ℕ, ◌/◌, String, Bool, true, false, not, ◌&&◌, ◌||◌, Option, none, some, List, [], ◌∷◌, ◌++◌, map,
  length, last, get_elem?, find, all, any, is_empty, ltb, if◌then◌else◌, sum_u64, str_eq, F64,
  zero_f,
}
use incident_bench.Scenario.{DataStream, PhaseDef, ValidRunRule, Scenario, streams_of, target_of}
use incident_bench.Metrics.{AggregatedMetricPoint, sort_by, value_or_zero}
use incident_bench.Metrics.Derived.{DerivedMetrics, in_phase, compute_derived}

pub data Violation {ℓ} (F : Type ℓ) : Type ℓ where
  unstable_baseline : F → F → Violation F
  low_ingest : F → ℕ → Violation F
  -- a rule with its condition, or with the message that it has
  broken_rule : String → String → Violation F
  broken_rule_message : String → String → Violation F

pub data Warning {ℓ} (F : Type ℓ) : Type ℓ where
  low_queries : F → F → Warning F
  saturated : Warning F

pub record Verdict {ℓ} (F : Type ℓ) : Type ℓ where
  pub valid : Bool
  pub violations : List (Violation F)
  pub warnings : List (Warning F)

abbrev pub negated : Option Bool → Bool
negated none = false
negated (some met) = not met

module _ {ℓ} {F : Type ℓ} ⦃fl : F64 F⦄ where
  -- The value of a metric by its name.
  unfoldable pub metric : String → DerivedMetrics F → Option F
  metric name d =
      if str_eq name "query_error_rate_overlap"
      then some d.query_error_rate_overlap
      else if str_eq name "query_p99_ratio" || str_eq name "p99_degradation_ratio"
      then some d.query_p99_ratio
      else if str_eq name "ingest_peak_backlog" || str_eq name "peak_backlog"
      then some (fl.of_nat d.ingest_peak_backlog)
      else if str_eq name "ingest_backlog_drain_time_s" || str_eq name "backlog_drain_time_s"
      then some d.ingest_backlog_drain_time_s
      else if str_eq name "recovery_time_to_baseline_s" || str_eq name "recovery_time_s"
      then some d.recovery_time_to_baseline_s
      else if str_eq name "query_baseline_p99" || str_eq name "baseline_p99_ms"
      then some d.query_baseline_p99
      else if str_eq name "query_overlap_p99" || str_eq name "overlap_p99_ms"
      then some d.query_overlap_p99
      else if str_eq name "query_throughput_ratio"
      then some d.query_throughput_ratio
      else if str_eq name "ingest_throughput_ratio"
      then some d.ingest_throughput_ratio
      else none

  -- `f64::EPSILON`.
  abbrev pub epsilon : F
  epsilon = fl.lit 22204460492503131 32

  -- Whether the comparison holds; no value for an operator that is not known.
  unfoldable pub compare_by : String → F → F → Option Bool
  compare_by operator actual threshold =
      if str_eq operator "<"
      then some (fl.lt actual threshold)
      else if str_eq operator "<="
      then some (fl.le actual threshold)
      else if str_eq operator ">"
      then some (fl.lt threshold actual)
      else if str_eq operator ">="
      then some (fl.le threshold actual)
      else if str_eq operator "=="
      then some (fl.lt (fl.abs (fl.sub actual threshold)) epsilon)
      else none

  unfoldable pub check_metric : Option F → Option F → String → Bool
  unfolding compare_by
  check_metric none actual operator = false
  check_metric (some threshold) none operator = false
  check_metric (some threshold) (some actual) operator =
      negated (compare_by operator actual threshold)

  -- The rule behind the split of the condition: just three parts are a condition.
  unfoldable pub check_parts : (String → Option F) → List String → DerivedMetrics F → Bool
  unfolding check_metric metric
  check_parts parse (name ∷ operator ∷ threshold ∷ []) d =
      check_metric (parse threshold) (metric name d) operator
  check_parts parse _ d = false

  abbrev pub p99s : List (AggregatedMetricPoint F) → List F
  p99s points = map (λ (p : AggregatedMetricPoint F). p.query_latency.p99) points

  -- The middle and the last of the sorted values.
  abbrev pub median : List F → F
  median sorted = value_or_zero (get_elem? sorted (length sorted / 2))

  unfoldable pub baseline_violations : List (AggregatedMetricPoint F) → List (Violation F)
  unfolding sort_by
  baseline_violations baseline =
      let sorted = sort_by (λ x. x) (p99s baseline) in
      let top = value_or_zero (last sorted) in
      if is_empty baseline
      then []
      else if fl.lt zero_f (median sorted) && fl.lt (fl.mul (median sorted) (fl.lit 2 0)) top
      then unstable_baseline top (median sorted) ∷ []
      else []

  abbrev pub duration_or_zero : Option (PhaseDef F) → F
  duration_or_zero none = zero_f
  duration_or_zero (some p) = fl.of_nat p.duration_seconds

  abbrev pub baseline_target : Scenario F → ℕ
  baseline_target s = sum_u64 (map (λ (d : DataStream). target_of d "baseline") (streams_of s))

  unfoldable pub achieved_eps : List (AggregatedMetricPoint F) → Scenario F → F
  achieved_eps baseline s =
      let duration =
        duration_or_zero (find (λ (p : PhaseDef F). str_eq p.name "baseline") s.timeline.phases) in
      let produced =
        sum_u64 (map (λ (p : AggregatedMetricPoint F). p.ingest_events_produced) baseline) in
      if fl.lt zero_f duration then fl.div (fl.of_nat produced) duration else zero_f

  unfoldable pub ingest_violations :
      List (AggregatedMetricPoint F) → Scenario F → List (Violation F)
  unfolding achieved_eps
  ingest_violations baseline s =
      if is_empty baseline
      then []
      else if ltb 0 (baseline_target s)
      then (if fl.lt (achieved_eps baseline s) (fl.mul (fl.of_nat (baseline_target s)) (fl.lit 9 1))
          then low_ingest (achieved_eps baseline s) (baseline_target s) ∷ []
          else [])
      else []

  overlap_warnings : List (AggregatedMetricPoint F) → Option (PhaseDef F) → List (Warning F)
  overlap_warnings overlap none = []
  overlap_warnings overlap (some p) =
      let executed = sum_u64 (map (λ (q : AggregatedMetricPoint F). q.query_executed) overlap) in
      let achieved =
        if ltb 0 p.duration_seconds
        then fl.div (fl.of_nat executed) (fl.of_nat p.duration_seconds)
        else zero_f in
      if is_empty overlap
      then []
      else if fl.lt achieved (fl.mul p.query.target_qps (fl.lit 5 1))
      then low_queries achieved p.query.target_qps ∷ []
      else []

  unfoldable pub warnings : List (AggregatedMetricPoint F) → Scenario F → List (Warning F)
  unfolding overlap_warnings
  warnings points s =
      overlap_warnings (in_phase "overlap" points)
        (find (λ (p : PhaseDef F). str_eq p.name "overlap") s.timeline.phases)
      ++ (if any (λ (p : AggregatedMetricPoint F). p.harness_saturated) points
          then saturated ∷ []
          else [])

  -- `partial_cmp(b).unwrap()` panics on a NaN, which a sort of two values or more meets.
  unfoldable pub sortable : List F → Bool
  sortable values = ltb (length values) 2 || all (λ x. fl.le x x) values

  module _ (split_whitespace : String → List String) (parse : String → Option F) where
    -- `evaluate_criteria_rule`: whether the condition is violated.
    unfoldable pub evaluate_criteria_rule : String → DerivedMetrics F → Bool
    unfolding check_parts
    evaluate_criteria_rule condition d = check_parts parse (split_whitespace condition) d

    unfoldable pub rule_violations : DerivedMetrics F → List ValidRunRule → List (Violation F)
    unfolding evaluate_criteria_rule
    rule_violations d [] = []
    rule_violations d (r ∷ rest) =
        let later = rule_violations d rest in
        if evaluate_criteria_rule r.condition d
        then (if str_eq r.message ""
            then broken_rule r.name r.condition
            else broken_rule_message r.name r.message)
          ∷ later
        else later

    unfoldable pub all_violations : List (AggregatedMetricPoint F) → Scenario F → List (Violation F)
    unfolding baseline_violations ingest_violations rule_violations
    all_violations points s =
        baseline_violations (in_phase "baseline" points)
        ++ (ingest_violations (in_phase "baseline" points) s
            ++ rule_violations (compute_derived points) s.valid_run_criteria)

    -- `evaluate_validity`, with `none` for the panic.
    unfoldable pub evaluate_validity :
        List (AggregatedMetricPoint F) → Scenario F → Option (Verdict F)
    unfolding all_violations warnings sortable
    evaluate_validity points s =
        if sortable (p99s (in_phase "baseline" points))
        then some (record {
          valid = is_empty (all_violations points s);
          violations = all_violations points s;
          warnings = warnings points s;
        })
        else none
