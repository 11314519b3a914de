-- ===== src/Scenario/Validate.antt =====
-- `Scenario::validate` of crates/incidentbench-common/src/scenario.rs. A message is a constructor
-- with the values that its format string prints; the list keeps the order of the pushes.

pub mod Emptiness
pub mod Streams
pub mod Groups
pub mod Sound
use incident_bench.Base.{
  ℕ, String, Bool, true, false, not, ◌&&◌, Option, none, some, List, [], ◌∷◌, ◌++◌, map, ltb, leb,
  ◌==◌, if◌then◌else◌, is_empty, any, all, contains, lookup, keys, is_some, str_eq, F64, zero_f,
  one_f,
}
use incident_bench.Scenario.{
  FieldDef, DataStream, QueryDef, QueryGroup, PhaseDef, Scenario, has_ingest, phase_names,
}

pub data ValidationError {ℓ} (F : Type ℓ) : Type ℓ where
  no_streams : ValidationError F
  duplicate_stream : String → ValidationError F
  duplicate_index : String → ValidationError F
  no_fields : String → ValidationError F
  no_timestamp : String → String → ValidationError F
  no_replicas : String → ValidationError F
  no_ingest : String → String → ValidationError F
  no_phases : ValidationError F
  wrong_phases : List String → List String → ValidationError F
  short_phase : String → ℕ → ValidationError F
  unknown_index : String → String → List String → ValidationError F
  no_groups : ValidationError F
  group_weights : F → ValidationError F
  duplicate_group : String → ValidationError F
  group_weight : String → F → ValidationError F
  unknown_query : String → String → ValidationError F
  override_weights : String → F → ValidationError F

-- `if !ok { errors.push(e) }`.
abbrev pub check {ℓ} : {E : Type ℓ} → Bool → E → List E
check true e = []
check false e = e ∷ []

-- The errors of a loop body, one item after another.
abbrev pub for_each {ℓ κ} : {A : Type ℓ} {E : Type κ} → (A → List E) → List A → List E
for_each f [] = []
for_each f (x ∷ xs) = f x ++ for_each f xs

-- `HashSet::insert`, without its result.
abbrev pub add_name : String → List String → List String
add_name a seen = if contains seen a then seen else a ∷ seen

abbrev pub expected_phases : List String
expected_phases =
    "baseline" ∷ "incident_trigger" ∷ "ingestion_surge" ∷ "overlap" ∷ "recovery" ∷ "post_incident"
    ∷ []

-- `==` of two lists of strings.
abbrev pub same_names : List String → List String → Bool
same_names [] [] = true
same_names (x ∷ xs) (y ∷ ys) = str_eq x y && same_names xs ys
same_names _ _ = false

module _ {ℓ} {F : Type ℓ} where
  -- The part of the loop body over the streams that looks at one stream alone.
  unfoldable pub stream_errors : List String → DataStream → List (ValidationError F)
  stream_errors phases stream =
      check (not (is_empty stream.schema.fields)) (no_fields stream.name)
      ++ (check
            (any (λ (f : FieldDef). str_eq f.name stream.schema.timestamp_field)
              stream.schema.fields)
            (no_timestamp stream.name stream.schema.timestamp_field)
          ++ (check (not (stream.ingest_replicas == 0)) (no_replicas stream.name)
              ++ for_each (λ p. check (is_some (lookup p stream.ingest)) (no_ingest stream.name p))
                  phases))

  -- The loop over the streams, with the two sets of names seen so far; it also returns the set of
  -- index names.
  unfoldable pub streams_errors :
      List String
      → List String
      → List String
      → List DataStream
      → List (ValidationError F) × List String
  streams_errors phases names indexes [] = ([], indexes)
  streams_errors phases names indexes (stream ∷ rest) =
      let (errors, all_indexes) =
        streams_errors phases (add_name stream.name names)
          (add_name stream.schema.index_name indexes) rest in
      (
        check (not (contains names stream.name)) (duplicate_stream stream.name)
            ++ (check (not (contains indexes stream.schema.index_name))
                  (duplicate_index stream.schema.index_name)
                ++ (stream_errors phases stream ++ errors)),
        all_indexes,
      )

  -- The block `if let Some(streams) = &self.data_streams`.
  unfoldable pub data_stream_errors :
      List String → Option (List DataStream) → List (ValidationError F) × List String
  data_stream_errors phases none = ([], [])
  data_stream_errors phases (some streams) =
      let (errors, indexes) = streams_errors phases [] [] streams in
      (check (not (is_empty streams)) no_streams ++ errors, indexes)

  unfoldable pub phase_errors : Scenario F → List (ValidationError F)
  phase_errors s =
      check (not (is_empty s.timeline.phases)) no_phases
      ++ ((if has_ingest s
            then check (same_names (phase_names s) expected_phases)
                (wrong_phases expected_phases (phase_names s))
            else [])
          ++ for_each
              (λ (p : PhaseDef F).
                check (leb 30 p.duration_seconds) (short_phase p.name p.duration_seconds))
              s.timeline.phases)

  unfoldable pub index_errors : List String → Scenario F → List (ValidationError F)
  index_errors indexes s =
      if has_ingest s
      then for_each
          (λ (q : QueryDef).
            check (contains indexes q.index) (unknown_index q.name q.index indexes))
          s.query_mix.queries
      else []

module _ {ℓ} {F : Type ℓ} ⦃fl : F64 F⦄ where
  -- `iter().sum::<f64>()`.
  abbrev pub sum_f_from : F → List F → F
  sum_f_from acc [] = acc
  sum_f_from acc (x ∷ xs) = sum_f_from (fl.add acc x) xs

  abbrev pub sum_f : List F → F
  sum_f xs = sum_f_from zero_f xs

  -- The sum is within 0.01 of 1: `!((sum - 1.0).abs() > 0.01)`.
  abbrev pub sums_to_one : List F → Bool
  sums_to_one ws = not (fl.lt (fl.lit 1 2) (fl.abs (fl.sub (sum_f ws) one_f)))

  abbrev pub query_names : Scenario F → List String
  query_names s = map (λ (q : QueryDef). q.name) s.query_mix.queries

  unfoldable pub override_errors :
      Scenario F → String → Option (List (String × F)) → List (ValidationError F)
  override_errors s group none = []
  override_errors s group (some overrides) =
      for_each (λ key. check (contains (query_names s) key) (unknown_query group key))
        (keys overrides)
      ++ check (sums_to_one (map (λ (o : String × F). o.1) overrides))
          (override_weights group (sum_f (map (λ (o : String × F). o.1) overrides)))

  -- The loop over the groups, with the set of names seen so far.
  unfoldable pub groups_errors :
      Scenario F → List String → List (QueryGroup F) → List (ValidationError F)
  groups_errors s seen [] = []
  groups_errors s seen (g ∷ rest) =
      check (not (contains seen g.name)) (duplicate_group g.name)
      ++ (check (not (fl.le g.weight zero_f)) (group_weight g.name g.weight)
          ++ (override_errors s g.name g.mix_override
              ++ groups_errors s (add_name g.name seen) rest))

  unfoldable pub group_errors : Scenario F → Option (List (QueryGroup F)) → List (ValidationError F)
  group_errors s none = []
  group_errors s (some groups) =
      check (not (is_empty groups)) no_groups
      ++ (check (sums_to_one (map (λ (g : QueryGroup F). g.weight) groups))
            (group_weights (sum_f (map (λ (g : QueryGroup F). g.weight) groups)))
          ++ groups_errors s [] groups)

  -- `Scenario::validate`.
  unfoldable pub validate : Scenario F → List (ValidationError F)
  validate s =
      let (errors, indexes) = data_stream_errors (phase_names s) s.data_streams in
      errors ++ (phase_errors s ++ (index_errors indexes s ++ group_errors s s.query_groups))
