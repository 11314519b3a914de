-- ===== src/Examples/Loads.antt =====
-- A scenario with one stream of three replicas and two query workers, and a mix of three queries.
use incident_bench.Base.{
  ℕ, ◌≤◌, ◌≡◌, refl, ◌↔◌, ◌≢◌, String, none, some, List, [], ◌∷◌, map, All, get_elem?, arith,
  lookup,
}
use incident_bench.Scenario.{
  FieldType, StreamPhaseIngest, DataStream, sequential, QueryDef, PhaseDef, Scenario, target_of,
}
use incident_bench.Scenario.Rates.{
  compute_ingest_rate_table, compute_query_rate_table, total_mqps, sum_below, eps_at, mqps_at,
}
use incident_bench.Scenario.Rates.Division.{sum_below-ingest_eps, sum_below-query_mqps}
use incident_bench.Scenario.Validate.{validate, expected_phases}
use incident_bench.Scenario.Validate.Emptiness.{In, Distinct}
use incident_bench.Scenario.Validate.Sound.{IsValid, validate-eq-nil_iff}
use incident_bench.Scenario.Scaling.{with_scaling}
use incident_bench.Scenario.Scaling.Keeps.{SameShape, with_scaling-SameShape, with_scaling-one}
use incident_bench.Scenario.Session.{SessionCategory, auto_session}
use incident_bench.Scenario.Session.RoundRobin.{
  run_batches, from_cursor, advance, run_batches_sequential,
}
use incident_bench.Scenario.Session.Grouping.{members, sequential_category, auto_session-partition}
use incident_bench.Examples.Milli.{Milli, milli, milli-IsExact}

abbrev pub rate : ℕ → StreamPhaseIngest
rate n = record { target_eps = n; batch_size = 500 }

abbrev pub logs : DataStream
logs = record {
  name = "logs";
  schema = record {
    index_name = "logs";
    timestamp_field = "ts";
    fields = record { name = "ts"; field_type = FieldType.timestamp; generator = "now" } ∷ [];
  };
  kafka_partitions = none;
  ingest_replicas = 3;
  ingest = map (λ phase. (phase, rate 1000)) expected_phases;
}

abbrev pub query_of : String → String → QueryDef
query_of name category = record {
  name = name;
  query_type = "search";
  template = "{}";
  index = "logs";
  sort = none;
  limit = none;
  timeout_ms = 5000;
  sql = none;
  sql_file = none;
  category = some category;
  variables = [];
}

abbrev pub queries : List QueryDef
queries = query_of "errors" "triage" ∷ query_of "traces" "drill" ∷ query_of "counts" "triage" ∷ []

abbrev pub phase_of : String → PhaseDef Milli
phase_of name = record {
  name = name;
  duration_seconds = 60;
  query = record { target_qps = record { thousandths = 2501 }; mix_override = none };
}

abbrev pub phases : List (PhaseDef Milli)
phases = map phase_of expected_phases

abbrev pub incident : Scenario Milli
incident = record {
  data_streams = some (logs ∷ []);
  query_mix = record { queries = queries };
  query_groups = none;
  timeline = record { phases = phases };
  valid_run_criteria = [];
  default_timeout_ms = 5000;
  query_session = none;
}

validate-eq-nil_iff_example : (validate incident ≡ []) ↔ IsValid incident
validate-eq-nil_iff_example = validate-eq-nil_iff incident

sum_below-ingest_eps_example :
    sum_below 3 (λ i. eps_at (get_elem? (compute_ingest_rate_table incident logs i).phases 3))
    ≡ 1000
unfolding target_of lookup
sum_below-ingest_eps_example = sum_below-ingest_eps incident 3 {p = phase_of "overlap"} refl logs

sum_below-query_mqps_example :
    sum_below 2 (λ i. mqps_at (get_elem? (compute_query_rate_table incident 2 i).phases 3)) ≡ 2501
unfolding total_mqps
sum_below-query_mqps_example = sum_below-query_mqps incident 3 {p = phase_of "overlap"} refl 2

with_scaling-SameShape_example :
    let scaled =
      with_scaling (record { thousandths = 10 }) (record { thousandths = 2000 }) incident in
    SameShape incident scaled
    × All (λ (p : PhaseDef Milli). 1 ≤ p.duration_seconds) scaled.timeline.phases
with_scaling-SameShape_example =
    with_scaling-SameShape (record { thousandths = 10 }) (record { thousandths = 2000 }) incident

abbrev short : Scenario Milli
short = record incident {
  timeline = record { phases = phase_of "baseline" ∷ [] };
  data_streams = some (record logs { ingest = ("baseline", rate 1000) ∷ [] } ∷ []);
}

with_scaling-one_example :
    with_scaling (record { thousandths = 1000 }) (record { thousandths = 1000 }) short ≡ short
with_scaling-one_example =
    with_scaling-one milli-IsExact short ((omega arith, omega arith, refl), tt)
      ((omega arith, tt), tt)

auto_session-partition_example :
    (order : List String) × ((auto_session queries).categories
      ≡ map (sequential_category queries) order)
    × Distinct order
    × ((k : String) → In k order ↔ (members k queries ≢ []))
auto_session-partition_example = auto_session-partition queries

abbrev triage : SessionCategory
triage = record {
  name = "triage";
  queries = queries;
  iteration = sequential;
  parallelism = 2;
  cursor = 1;
}

run_batches_sequential_example :
    run_batches 2 (λ len i. 0) triage ≡ some (from_cursor triage 4, advance 4 triage)
run_batches_sequential_example = run_batches_sequential 2 (λ len i. 0) triage refl (omega arith)
