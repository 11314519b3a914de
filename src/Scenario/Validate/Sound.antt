-- ===== src/Scenario/Validate/Sound.antt =====
-- `validate` against an independent description of a valid scenario.
use incident_bench.Base.{
  ℕ, ◌≤◌, ◌≡◌, refl, ◌↔◌, ◌≢◌, true, String, List, [], ◌∷◌, All, F64, eq_iff, arith, leb, contains,
}
use incident_bench.Scenario.{QueryDef, PhaseDef, Scenario, has_ingest, phase_names, streams_of}
use incident_bench.Scenario.Validate.{
  ValidationError, check, unknown_index, short_phase, expected_phases, same_names,
  data_stream_errors, phase_errors, index_errors, validate,
}
use incident_bench.Scenario.Validate.Emptiness.{
  In, check_iff, append_iff, guard_iff, for_each_iff, is_empty_iff,
}
use incident_bench.Scenario.Validate.Streams.{
  StreamsValid, index_names, data_stream_errors_iff, data_stream_errors_indexes,
}
use incident_bench.Scenario.Validate.Groups.{GroupsValid, group_errors_iff}

-- A scenario that may run: its streams are well formed; it has a phase, and each lasts 30 seconds
-- or more; with ingest, its phases are the six expected ones in order and each query names the
-- index of a stream; its query groups, if any, are valid.
pub record IsValid {ℓ} {F : Type ℓ} ⦃fl : F64 F⦄ (s : Scenario F) : Type ℓ where
  pub streams : StreamsValid (phase_names s) s.data_streams
  pub some_phase : s.timeline.phases ≢ []
  pub six_phases : has_ingest s ≡ true → phase_names s ≡ expected_phases
  pub long_phases : All (λ (p : PhaseDef F). 30 ≤ p.duration_seconds) s.timeline.phases
  pub known_indexes :
      has_ingest s ≡ true
      → All (λ (q : QueryDef). In q.index (index_names (streams_of s))) s.query_mix.queries
  pub groups : GroupsValid s s.query_groups

same_names_iff : (xs ys : List String) → (same_names xs ys ≡ true) ↔ (xs ≡ ys)
same_names_iff [] [] = (λ _. refl, λ _. refl)
same_names_iff [] (y ∷ ys) = (λ q. cc, λ q. cc)
same_names_iff (x ∷ xs) [] = (λ q. cc, λ q. cc)
same_names_iff (x ∷ xs) (y ∷ ys) = ground (arith, eq_iff x y, same_names_iff xs ys)

leb_iff : (a b : ℕ) → (leb a b ≡ true) ↔ (a ≤ b)
leb_iff a b = ground arith

module _ {ℓ} {F : Type ℓ} (s : Scenario F) where
  phase_errors_iff : (phase_errors s ≡ []) ↔ (
      (s.timeline.phases ≢ [])
      × ((has_ingest s ≡ true → phase_names s ≡ expected_phases)
          × All (λ (p : PhaseDef F). 30 ≤ p.duration_seconds) s.timeline.phases))
  unfolding phase_errors
  phase_errors_iff = append_iff _ _ (check_iff _ _ (is_empty_iff s.timeline.phases)) (
      append_iff _ _
        (guard_iff (has_ingest s) _
          (check_iff _ _ (same_names_iff (phase_names s) expected_phases)))
        (for_each_iff {E = ValidationError F} (λ (p : PhaseDef F). 30 ≤ p.duration_seconds)
          (λ (p : PhaseDef F).
            check (leb 30 p.duration_seconds) (short_phase p.name p.duration_seconds))
          (λ p. check_iff _ _ (leb_iff 30 p.duration_seconds)) s.timeline.phases))

  index_errors_iff :
      let indexes = (data_stream_errors {F = F} (phase_names s) s.data_streams).1 in
      (index_errors indexes s ≡ []) ↔ (
        has_ingest s ≡ true
        → All (λ (q : QueryDef). In q.index (index_names (streams_of s))) s.query_mix.queries)
  unfolding index_errors
  index_errors_iff =
      let indexes = (data_stream_errors {F = F} (phase_names s) s.data_streams).1 in
      guard_iff (has_ingest s) _ (
        for_each_iff {E = ValidationError F}
          (λ (q : QueryDef). In q.index (index_names (streams_of s)))
          (λ (q : QueryDef).
            check (contains indexes q.index) (unknown_index q.name q.index indexes))
          (λ q. check_iff _ _ (data_stream_errors_indexes F (phase_names s) s.data_streams q.index))
          s.query_mix.queries)

module _ {ℓ} {F : Type ℓ} ⦃fl : F64 F⦄ where
  -- `validate` reports no error exactly when the scenario is valid.
  pub validate-eq-nil_iff : (s : Scenario F) → (validate s ≡ []) ↔ IsValid s
  unfolding validate
  validate-eq-nil_iff s =
      let e = append_iff _ _ (data_stream_errors_iff (phase_names s) s.data_streams) (
        append_iff _ _ (phase_errors_iff s)
          (append_iff _ _ (index_errors_iff s) (group_errors_iff s s.query_groups))) in
      (
        λ q.
            let (a, b) = e.0 q in
            record {
              streams = a;
              some_phase = b.0.0;
              six_phases = b.0.1.0;
              long_phases = b.0.1.1;
              known_indexes = b.1.0;
              groups = b.1.1;
            },
        λ v. e.1 (
          v.streams,
          ((v.some_phase, (v.six_phases, v.long_phases)), (v.known_indexes, v.groups)),
        ),
      )
