-- ===== src/Operator/Deploying/Handover.antt =====
-- What the preparation hands to the deployment.
use incident_bench.Base.{◌≡◌, refl, String, some, List, lookup}
use incident_bench.Crd.{IncidentBenchRun}
use incident_bench.Cluster.Objects.{Platform}
use incident_bench.Resources.ConfigMaps.{build_prepare_result_configmap}
use incident_bench.Operator.Deploying.{read_map, parse_map}

module _ {F J : Type 0} ⦃pf : Platform J⦄ where
  -- Where the JSON text of each of the two maps reads back as the map, the deployment reads from the
  -- prepare config map the consumer groups and the query endpoints that the adapter returned.
  pub read_map-build_prepare_result_configmap :
      (run : IncidentBenchRun F J) (name : String) (groups endpoints : List (String × String))
      → pf.map_from_json (pf.map_to_json groups) ≡ some groups
      → pf.map_from_json (pf.map_to_json endpoints) ≡ some endpoints
      → (read_map "consumer_groups" (build_prepare_result_configmap name groups endpoints run).files
          ≡ groups)
        × (read_map "query_endpoints"
              (build_prepare_result_configmap name groups endpoints run).files
            ≡ endpoints)
  unfolding read_map parse_map build_prepare_result_configmap lookup
  read_map-build_prepare_result_configmap run name groups endpoints h k = (rw h refl, rw k refl)
