-- ===== src/Scenario/Scaling.antt =====
-- `Scenario::with_scaling` and `Scenario::resolve_group_query_mix` of
-- crates/incidentbench-common/src/scenario.rs.
pub mod Keeps
use incident_bench.Base.{
  ℕ, max, String, Option, none, some, List, [], ◌∷◌, map, F64, filter, is_some, lookup,
}
use incident_bench.Scenario.{
  StreamPhaseIngest, DataStream, QueryDef, QueryMix, QueryConfig, QueryGroup, PhaseDef, Timeline,
  Scenario,
}

module _ {ℓ} {F : Type ℓ} ⦃fl : F64 F⦄ where
  -- `((n as f64) * scale).round() as u64`.
  unfoldable pub scale_nat : F → ℕ → ℕ
  scale_nat scale n = fl.to_u64 (fl.round (fl.mul (fl.of_nat n) scale))

  unfoldable pub scale_phase : F → F → PhaseDef F → PhaseDef F
  scale_phase duration_scale rate_scale p = record p {
    duration_seconds = max (scale_nat duration_scale p.duration_seconds) 1;
    query = record p.query { target_qps = fl.mul p.query.target_qps rate_scale };
  }

  unfoldable pub scale_ingest : F → String × StreamPhaseIngest → String × StreamPhaseIngest
  scale_ingest rate_scale (phase, i) =
      (phase, record i { target_eps = scale_nat rate_scale i.target_eps })

  unfoldable pub scale_stream : F → DataStream → DataStream
  scale_stream rate_scale d = record d { ingest = map (scale_ingest rate_scale) d.ingest }

  unfoldable pub scale_streams : F → Option (List DataStream) → Option (List DataStream)
  scale_streams rate_scale none = none
  scale_streams rate_scale (some streams) = some (map (scale_stream rate_scale) streams)

  -- `Scenario::with_scaling`.
  unfoldable pub with_scaling : F → F → Scenario F → Scenario F
  with_scaling duration_scale rate_scale s = record s {
    timeline = record { phases = map (scale_phase duration_scale rate_scale) s.timeline.phases };
    data_streams = scale_streams rate_scale s.data_streams;
  }

-- `Scenario::resolve_group_query_mix`.
resolve_mix {ℓ} : {F : Type ℓ} → QueryMix → Option (List (String × F)) → QueryMix
resolve_mix mix none = mix
resolve_mix mix (some overrides) = record {
  queries = filter (λ (q : QueryDef). is_some (lookup q.name overrides)) mix.queries;
}

unfoldable pub resolve_group_query_mix {ℓ} : {F : Type ℓ} → Scenario F → QueryGroup F → QueryMix
unfolding resolve_mix
resolve_group_query_mix s group = resolve_mix s.query_mix group.mix_override
