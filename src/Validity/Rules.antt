-- ===== src/Validity/Rules.antt =====
-- A rule of a scenario: when it is violated.
use incident_bench.Base.{
  ◌≡◌, refl, sym, ◌∙◌, ◌↔◌, String, Bool, true, false, not, ◌||◌, Option, none, some, List, [], ◌∷◌,
  F64, drop, lookup, str_eq, eq_iff, Bool-cases, inl, inr, if◌then◌else◌, arith,
}
use incident_bench.Metrics.Derived.{DerivedMetrics}
use incident_bench.Validity.{
  metric, compare_by, negated, check_metric, check_parts, evaluate_criteria_rule,
}

module _ {ℓ} {F : Type ℓ} ⦃fl : F64 F⦄ where
  -- The metrics that a condition can name, with their values in a run.
  abbrev pub named : DerivedMetrics F → List (String × F)
  named d =
      ("query_error_rate_overlap", d.query_error_rate_overlap)
      ∷ ("query_p99_ratio", d.query_p99_ratio)
      ∷ ("p99_degradation_ratio", d.query_p99_ratio)
      ∷ ("ingest_peak_backlog", fl.of_nat d.ingest_peak_backlog)
      ∷ ("peak_backlog", fl.of_nat d.ingest_peak_backlog)
      ∷ ("ingest_backlog_drain_time_s", d.ingest_backlog_drain_time_s)
      ∷ ("backlog_drain_time_s", d.ingest_backlog_drain_time_s)
      ∷ ("recovery_time_to_baseline_s", d.recovery_time_to_baseline_s)
      ∷ ("recovery_time_s", d.recovery_time_to_baseline_s)
      ∷ ("query_baseline_p99", d.query_baseline_p99)
      ∷ ("baseline_p99_ms", d.query_baseline_p99)
      ∷ ("query_overlap_p99", d.query_overlap_p99)
      ∷ ("overlap_p99_ms", d.query_overlap_p99)
      ∷ ("query_throughput_ratio", d.query_throughput_ratio)
      ∷ ("ingest_throughput_ratio", d.ingest_throughput_ratio)
      ∷ []

  -- What each operator says of the value and the threshold; two values are equal that are less than
  -- the machine epsilon apart.
  pub data Says (operator : String) (actual threshold : F) (met : Bool) : Type ℓ where
    less : operator ≡ "<" → fl.lt actual threshold ≡ met → Says operator actual threshold met
    at_most : operator ≡ "<=" → fl.le actual threshold ≡ met → Says operator actual threshold met
    greater : operator ≡ ">" → fl.lt threshold actual ≡ met → Says operator actual threshold met
    at_least : operator ≡ ">=" → fl.le threshold actual ≡ met → Says operator actual threshold met
    equal :
        operator ≡ "=="
        → fl.lt (fl.abs (fl.sub actual threshold)) (fl.lit 22204460492503131 32) ≡ met
        → Says operator actual threshold met

  -- A condition in force: the name of a metric, an operator and a threshold; and what it says.
  pub record Gives (parse : String → Option F) (parts : List String) (d : DerivedMetrics F)
      (met : Bool) : Type ℓ where
    pub name : String
    pub operator : String
    pub literal : String
    pub actual : F
    pub threshold : F
    pub three : parts ≡ name ∷ operator ∷ literal ∷ []
    pub known : lookup name (named d) ≡ some actual
    pub parsed : parse literal ≡ some threshold
    pub said : Says operator actual threshold met

  one_name :
      (name j : String) (v : F) (m : List (String × F)) (other : Option F)
      → other ≡ lookup name m
      → (if str_eq name j then some v else other) ≡ lookup name ((j, v) ∷ m)
  unfolding lookup
  one_name name j v m other h = ground (arith, eq_iff name j, eq_iff j name, h)

  two_names :
      (name j k : String) (v : F) (m : List (String × F)) (other : Option F)
      → other ≡ lookup name m
      → (if str_eq name j || str_eq name k then some v else other)
        ≡ lookup name ((j, v) ∷ (k, v) ∷ m)
  two_names name j k v m other h =
      let later = one_name name j v ((k, v) ∷ m) _ (one_name name k v m other h) in
      elim (Bool-cases (str_eq name j)) [
        | inl e ↦ rw e (rw e at later)
        | inr e ↦ rw e (rw e at later)
      ]

  metric-lookup : (name : String) (d : DerivedMetrics F) → metric name d ≡ lookup name (named d)
  unfolding metric lookup
  metric-lookup name d = one_name name _ _ (drop 1 (named d)) _ (
      two_names name _ _ _ (drop 3 (named d)) _ (
        two_names name _ _ _ (drop 5 (named d)) _ (
          two_names name _ _ _ (drop 7 (named d)) _ (
            two_names name _ _ _ (drop 9 (named d)) _ (
              two_names name _ _ _ (drop 11 (named d)) _ (
                two_names name _ _ _ (drop 13 (named d)) _ (
                  one_name name _ _ (drop 14 (named d)) _
                    (one_name name _ _ (drop 15 (named d)) _ refl))))))))

  compare_by-Says :
      (operator : String) (a t : F) (met : Bool)
      → compare_by operator a t ≡ some met
      → Says operator a t met
  unfolding compare_by
  compare_by-Says operator a t met h = elim (Bool-cases (str_eq operator "<")) [
    | inl e ↦ less ((eq_iff operator "<").0 e) (let g = rw e at h in cc)
    | inr n1 ↦ elim (Bool-cases (str_eq operator "<=")) [
      | inl e ↦ at_most ((eq_iff operator "<=").0 e) (let g = rw (n1, e) at h in cc)
      | inr n2 ↦ elim (Bool-cases (str_eq operator ">")) [
        | inl e ↦ greater ((eq_iff operator ">").0 e) (let g = rw (n1, n2, e) at h in cc)
        | inr n3 ↦ elim (Bool-cases (str_eq operator ">=")) [
          | inl e ↦ at_least ((eq_iff operator ">=").0 e) (let g = rw (n1, n2, n3, e) at h in cc)
          | inr n4 ↦ elim (Bool-cases (str_eq operator "==")) [
            | inl e ↦ equal ((eq_iff operator "==").0 e) (let g = rw (n1, n2, n3, n4, e) at h in cc)
            | inr n5 ↦ absurd (let g = rw (n1, n2, n3, n4, n5) at h in cc)
          ]
        ]
      ]
    ]
  ]

  Says-compare_by :
      (operator : String) (a t : F) (met : Bool)
      → Says operator a t met
      → compare_by operator a t ≡ some met
  unfolding compare_by
  Says-compare_by operator a t met (less e h) = rw (e, h) refl
  Says-compare_by operator a t met (at_most e h) = rw (e, h) refl
  Says-compare_by operator a t met (greater e h) = rw (e, h) refl
  Says-compare_by operator a t met (at_least e h) = rw (e, h) refl
  Says-compare_by operator a t met (equal e h) = rw (e, h) refl

negated-true : (o : Option Bool) → negated o ≡ true → o ≡ some false
negated-true none h = cc
negated-true (some true) h = cc
negated-true (some false) h = refl

module _ {ℓ} {F : Type ℓ} ⦃fl : F64 F⦄ where
  parts-Gives :
      (parse : String → Option F) (name operator literal : String) (d : DerivedMetrics F)
      (t a : Option F)
      → parse literal ≡ t
      → metric name d ≡ a
      → check_metric t a operator ≡ true
      → Gives parse (name ∷ operator ∷ literal ∷ []) d false
  unfolding check_metric
  parts-Gives parse name operator literal d none a p m h = cc
  parts-Gives parse name operator literal d (some t) none p m h = cc
  parts-Gives parse name operator literal d (some t) (some a) p m h = record {
    name = name;
    operator = operator;
    literal = literal;
    actual = a;
    threshold = t;
    three = refl;
    known = sym (metric-lookup name d) ∙ m;
    parsed = p;
    said = compare_by-Says operator a t false (negated-true (compare_by operator a t) h);
  }

  check_parts-Gives :
      (parse : String → Option F) (parts : List String) (d : DerivedMetrics F)
      → check_parts parse parts d ≡ true
      → Gives parse parts d false
  unfolding check_parts
  check_parts-Gives parse [] d h = cc
  check_parts-Gives parse (a ∷ []) d h = cc
  check_parts-Gives parse (a ∷ b ∷ []) d h = cc
  check_parts-Gives parse (a ∷ b ∷ c ∷ []) d h =
      parts-Gives parse a b c d (parse c) (metric a d) refl refl h
  check_parts-Gives parse (a ∷ b ∷ c ∷ e ∷ rest) d h = cc

  Gives-check_parts :
      (parse : String → Option F) (parts : List String) (d : DerivedMetrics F) (met : Bool)
      → Gives parse parts d met
      → check_parts parse parts d ≡ not met
  unfolding check_parts check_metric
  Gives-check_parts parse parts d met g =
      let k = metric-lookup g.name d ∙ g.known in
      let c = Says-compare_by g.operator g.actual g.threshold met g.said in
      rw (g.three, g.parsed, k, c) refl

  -- A rule is violated exactly when its condition has three parts, of which the first is one of the
  -- fifteen names of metrics, the second one of the five operators and the third a number, and the
  -- metric of that name does not stand to the number as the operator says. Any other condition is
  -- passed over and violates nothing.
  pub evaluate_criteria_rule-violated_iff :
      (split_whitespace : String → List String) (parse : String → Option F) (condition : String)
      (d : DerivedMetrics F)
      → (evaluate_criteria_rule split_whitespace parse condition d ≡ true)
        ↔ Gives parse (split_whitespace condition) d false
  unfolding evaluate_criteria_rule
  evaluate_criteria_rule-violated_iff split_whitespace parse condition d = (
    check_parts-Gives parse (split_whitespace condition) d,
    Gives-check_parts parse (split_whitespace condition) d false,
  )
