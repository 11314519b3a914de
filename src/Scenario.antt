-- ===== src/Scenario.antt =====
-- The scenario of crates/incidentbench-common/src/scenario.rs: the authoring format and the
-- simple queries on it. A field that no modelled code reads is left out: descriptions, display
-- names, the JSON configuration of a field's generator and of a stream's data generator, and the
-- report configuration.
pub mod Rates
pub mod Validate
pub mod Scaling
pub mod Session
use incident_bench.Base.{
  ℕ, ◌*◌, String, Bool, true, false, not, ◌&&◌, Option, none, some, List, [], ◌∷◌, map, sum_u64,
  sum_u32, mul_u64, unwrap_or, is_some, is_empty, all, lookup,
}

pub data FieldType : Type 0 where
  timestamp keyword text int long float ip : FieldType

-- `FieldType::to_mapping_type`.
unfoldable pub to_mapping_type : FieldType → String
to_mapping_type timestamp = "date"
to_mapping_type keyword = "keyword"
to_mapping_type text = "text"
to_mapping_type int = "integer"
to_mapping_type long = "long"
to_mapping_type float = "float"
to_mapping_type ip = "ip"

pub record FieldDef : Type 0 where
  pub name : String
  pub field_type : FieldType
  pub generator : String

pub record Schema : Type 0 where
  pub index_name : String
  pub timestamp_field : String
  pub fields : List FieldDef

pub record StreamPhaseIngest : Type 0 where
  pub target_eps : ℕ
  pub batch_size : ℕ

pub record DataStream : Type 0 where
  pub name : String
  pub schema : Schema
  pub kafka_partitions : Option ℕ
  pub ingest_replicas : ℕ
  pub ingest : List (String × StreamPhaseIngest)

pub data IterationMode : Type 0 where
  sequential weighted_random : IterationMode

pub record QueryDef : Type 0 where
  pub name : String
  pub query_type : String
  pub template : String
  pub index : String
  pub sort : Option String
  pub limit : Option ℕ
  pub timeout_ms : ℕ
  pub sql : Option String
  pub sql_file : Option String
  pub category : Option String
  -- variable name to the `source` of its definition
  pub variables : List (String × String)

pub record QueryCategory : Type 0 where
  pub name : String
  pub queries : List QueryDef
  pub iteration : IterationMode
  pub parallelism : ℕ

pub record QuerySession : Type 0 where
  pub categories : List QueryCategory
  pub think_time_ms : ℕ

-- `QueryMix`: the list of its queries.
pub record QueryMix : Type 0 where
  pub queries : List QueryDef

pub record QueryGroup {ℓ} (F : Type ℓ) : Type ℓ where
  pub name : String
  pub weight : F
  pub mix_override : Option (List (String × F))

pub record QueryConfig {ℓ} (F : Type ℓ) : Type ℓ where
  pub target_qps : F
  pub mix_override : Option (List (String × F))

pub record PhaseDef {ℓ} (F : Type ℓ) : Type ℓ where
  pub name : String
  pub duration_seconds : ℕ
  pub query : QueryConfig F

pub record Timeline {ℓ} (F : Type ℓ) : Type ℓ where
  pub phases : List (PhaseDef F)

pub record ValidRunRule : Type 0 where
  pub name : String
  pub condition : String
  pub message : String

pub record Scenario {ℓ} (F : Type ℓ) : Type ℓ where
  pub data_streams : Option (List DataStream)
  pub query_mix : QueryMix
  pub query_groups : Option (List (QueryGroup F))
  pub timeline : Timeline F
  pub valid_run_criteria : List ValidRunRule
  pub default_timeout_ms : ℕ
  pub query_session : Option QuerySession

-- `self.data_streams.as_deref().unwrap_or(&[])`.
abbrev pub streams_of {ℓ} : {F : Type ℓ} → Scenario F → List DataStream
streams_of s = unwrap_or s.data_streams []

abbrev pub phase_names {ℓ} : {F : Type ℓ} → Scenario F → List String
phase_names s = map (λ (p : PhaseDef _). p.name) s.timeline.phases

has_streams : Option (List DataStream) → Bool
has_streams none = false
has_streams (some streams) = not (is_empty streams)

-- `Scenario::has_ingest`.
unfoldable pub has_ingest {ℓ} : {F : Type ℓ} → Scenario F → Bool
unfolding has_streams
has_ingest s = has_streams s.data_streams

auto_session : Option QuerySession → List QueryDef → Bool
auto_session (some session) queries = true
auto_session none queries = not (is_empty queries) && all (λ q. is_some q.category) queries

-- `Scenario::is_session_mode`.
unfoldable pub is_session_mode {ℓ} : {F : Type ℓ} → Scenario F → Bool
unfolding auto_session
is_session_mode s = auto_session s.query_session s.query_mix.queries

-- `Scenario::total_duration_seconds`.
unfoldable pub total_duration_seconds {ℓ} : {F : Type ℓ} → Scenario F → ℕ
total_duration_seconds s = sum_u64 (map (λ (p : PhaseDef _). p.duration_seconds) s.timeline.phases)

abbrev target_or_zero : Option StreamPhaseIngest → ℕ
target_or_zero none = 0
target_or_zero (some i) = i.target_eps

-- The target of a stream in a phase, 0 where the phase has no entry.
unfoldable pub target_of : DataStream → String → ℕ
target_of stream phase = target_or_zero (lookup phase stream.ingest)

-- `Scenario::total_events_at_target`.
stream_events {ℓ} : {F : Type ℓ} → List (PhaseDef F) → DataStream → ℕ
stream_events phases stream =
    sum_u64 (map (λ (p : PhaseDef _). mul_u64 (target_of stream p.name) p.duration_seconds) phases)

unfoldable pub total_events_at_target {ℓ} : {F : Type ℓ} → Scenario F → ℕ
unfolding stream_events
total_events_at_target s = sum_u64 (map (stream_events s.timeline.phases) (streams_of s))

-- `Scenario::total_ingest_replicas`.
unfoldable pub total_ingest_replicas {ℓ} : {F : Type ℓ} → Scenario F → ℕ
total_ingest_replicas s = sum_u32 (map (λ (d : DataStream). d.ingest_replicas) (streams_of s))
