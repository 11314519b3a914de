-- ===== src/Examples/Verdicts.antt =====
-- The verdict on a run of four seconds, and a rule on it.
use incident_bench.Base.{
  ◌≡◌, refl, ◌↔◌, String, true, false, Option, none, some, List, [], ◌∷◌, if◌then◌else◌, str_eq,
}
use incident_bench.Scenario.{Scenario}
use incident_bench.Metrics.Derived.{in_phase, compute_derived}
use incident_bench.Validity.{Verdict, p99s, evaluate_validity, evaluate_criteria_rule}
use incident_bench.Validity.Rules.{Gives, evaluate_criteria_rule-violated_iff}
use incident_bench.Validity.Sound.{IsStable, RulesHold, evaluate_validity-valid_iff}
use incident_bench.Validity.Target.{MeetsTarget}
use incident_bench.Examples.Milli.{Milli, milli, milli-IsOrdered, leb_refl}
use incident_bench.Examples.Loads.{incident}
use incident_bench.Examples.Reports.{four_points}

abbrev split : String → List String
split text =
    if str_eq text "peak_backlog < 100" then "peak_backlog" ∷ "<" ∷ "100" ∷ [] else text ∷ []

abbrev parse : String → Option Milli
parse text = if str_eq text "100" then some (record { thousandths = 100_000 }) else none

abbrev judged : Scenario Milli
judged = record incident {
  valid_run_criteria =
      record { name = "backlog"; condition = "peak_backlog < 100"; message = "" } ∷ [];
}

doubled :
    (x : Milli)
    → milli.le x x ≡ true
    → milli.le (milli.mul x (milli.lit 2 0)) (milli.mul x (milli.lit 2 0)) ≡ true
doubled x h = leb_refl (milli.mul x (milli.lit 2 0)).thousandths

evaluate_validity-valid_iff_example :
    (v : Verdict Milli) × (evaluate_validity split parse four_points judged ≡ some v)
    × ((v.valid ≡ true) ↔ (
        IsStable (p99s (in_phase "baseline" four_points))
        × (MeetsTarget (in_phase "baseline" four_points) judged
            × RulesHold split parse (compute_derived four_points) judged.valid_run_criteria)))
evaluate_validity-valid_iff_example =
    evaluate_validity-valid_iff milli-IsOrdered doubled split parse four_points judged (refl, tt)

evaluate_criteria_rule-violated_iff_example :
    (evaluate_criteria_rule split parse "peak_backlog < 100" (compute_derived four_points) ≡ true)
    ↔ Gives parse ("peak_backlog" ∷ "<" ∷ "100" ∷ []) (compute_derived four_points) false
evaluate_criteria_rule-violated_iff_example =
    evaluate_criteria_rule-violated_iff split parse "peak_backlog < 100"
      (compute_derived four_points)
