-- ===== src/Scenario/Validate/Streams.antt =====
-- The checks on data streams report nothing exactly when the streams are well formed.
use incident_bench.Base.{
  ℕ, ◌≤◌, ◌≡◌, refl, ◌↔◌, ◌⊎◌, inl, inr, ◌≢◌, true, String, Option, none, some, List, [], ◌∷◌, map,
  All, arith, unwrap_or, ◌==◌, not, is_some, lookup, keys, contains,
}
use incident_bench.Scenario.{FieldDef, DataStream}
use incident_bench.Scenario.Validate.{
  ValidationError, no_ingest, check, stream_errors, streams_errors, data_stream_errors, add_name,
}
use incident_bench.Scenario.Validate.Emptiness.{
  In, Distinct, check_iff, append_iff, for_each_iff, contains_iff, not_iff, is_empty_iff,
  any-eq_iff, is_some-lookup_iff, Holds, With, add_name-Holds, Fresh, Fresh-nothing_iff,
}

-- A stream, on its own: it has a field, its timestamp is one of them, it has a replica, and it has
-- an ingest rate for each phase.
pub record IsWellFormed (phases : List String) (stream : DataStream) : Type 0 where
  pub some_field : stream.schema.fields ≢ []
  pub timestamp :
      In stream.schema.timestamp_field (map (λ (f : FieldDef). f.name) stream.schema.fields)
  pub replicated : 1 ≤ stream.ingest_replicas
  pub rated : All (λ p. In p (keys stream.ingest)) phases

abbrev pub stream_names : List DataStream → List String
stream_names streams = map (λ (d : DataStream). d.name) streams

abbrev pub index_names : List DataStream → List String
index_names streams = map (λ (d : DataStream). d.schema.index_name) streams

-- The streams together: names and indexes tell them apart.
pub record AreWellFormed (phases : List String) (streams : List DataStream) : Type 0 where
  pub some_stream : streams ≢ []
  pub names : Distinct (stream_names streams)
  pub indexes : Distinct (index_names streams)
  pub each : All (IsWellFormed phases) streams

abbrev pub StreamsValid : List String → Option (List DataStream) → Type 0
StreamsValid phases none = Unit
StreamsValid phases (some streams) = AreWellFormed phases streams

positive_iff : (n : ℕ) → (not (n == 0) ≡ true) ↔ (1 ≤ n)
positive_iff n = ground arith

module _ {ℓ} {F : Type ℓ} where
  stream_errors_iff :
      (phases : List String) (stream : DataStream)
      → (stream_errors {F = F} phases stream ≡ []) ↔ IsWellFormed phases stream
  unfolding stream_errors
  stream_errors_iff phases stream =
      let e = append_iff _ _ (check_iff _ _ (is_empty_iff stream.schema.fields)) (
        append_iff _ _
          (check_iff _ _ (
            any-eq_iff (λ (f : FieldDef). f.name) stream.schema.timestamp_field
              stream.schema.fields))
          (append_iff _ _ (check_iff _ _ (positive_iff stream.ingest_replicas)) (
            for_each_iff {E = ValidationError F} (λ p. In p (keys stream.ingest))
              (λ p. check (is_some (lookup p stream.ingest)) (no_ingest stream.name p))
              (λ p. check_iff _ _ (is_some-lookup_iff p stream.ingest)) phases))) in
      (
        λ q.
            let (a, b) = e.0 q in
            record { some_field = a; timestamp = b.0; replicated = b.1.0; rated = b.1.1 },
        λ w. e.1 (w.some_field, (w.timestamp, (w.replicated, w.rated))),
      )

  -- The loop, from any sets of names that are held already.
  streams_errors_iff :
      (phases names indexes : List String) (N I : String → Type 0)
      → Holds names N
      → Holds indexes I
      → (streams : List DataStream)
      → ((streams_errors {F = F} phases names indexes streams).0 ≡ []) ↔ (
          Fresh N (stream_names streams)
          × Fresh I (index_names streams)
          × All (IsWellFormed phases) streams)
  unfolding streams_errors
  streams_errors_iff phases names indexes N I hn hi [] = (λ _. (tt, tt, tt), λ _. refl)
  streams_errors_iff phases names indexes N I hn hi (stream ∷ rest) =
      let ih =
        streams_errors_iff phases (add_name stream.name names)
          (add_name stream.schema.index_name indexes) (With stream.name N)
          (With stream.schema.index_name I) (add_name-Holds names N stream.name hn)
          (add_name-Holds indexes I stream.schema.index_name hi) rest in
      let e = append_iff _ _ (check_iff _ _ (not_iff _ (hn stream.name))) (
        append_iff _ _ (check_iff _ _ (not_iff _ (hi stream.schema.index_name)))
          (append_iff _ _ (stream_errors_iff phases stream) ih)) in
      (
        λ q. let (a, b) = e.0 q in ((a, b.1.1.0), (b.0, b.1.1.1), (b.1.0, b.1.1.2)),
        λ p. e.1 (p.0.0, (p.1.0, (p.2.0, (p.0.1, p.1.1, p.2.1)))),
      )

  pub data_stream_errors_iff :
      (phases : List String) (streams : Option (List DataStream))
      → ((data_stream_errors {F = F} phases streams).0 ≡ []) ↔ StreamsValid phases streams
  unfolding data_stream_errors
  data_stream_errors_iff phases none = (λ _. tt, λ _. refl)
  data_stream_errors_iff phases (some streams) =
      let e = append_iff _ _ (check_iff _ _ (is_empty_iff streams)) (
        streams_errors_iff phases [] [] (λ _. ⊥) (λ _. ⊥) (contains_iff []) (contains_iff [])
          streams) in
      (
        λ q.
            let (a, b) = e.0 q in
            record {
              some_stream = a;
              names = (Fresh-nothing_iff (stream_names streams)).0 b.0;
              indexes = (Fresh-nothing_iff (index_names streams)).0 b.1;
              each = b.2;
            },
        λ w. e.1 (
          w.some_stream,
          (
            (Fresh-nothing_iff (stream_names streams)).1 w.names,
            (Fresh-nothing_iff (index_names streams)).1 w.indexes,
            w.each,
          ),
        ),
      )

module _ {ℓ} (F : Type ℓ) where
  -- The set of index names that the loop ends with.
  streams_errors_indexes :
      (phases names indexes : List String) (I : String → Type 0)
      → Holds indexes I
      → (streams : List DataStream) (a : String)
      → (contains (streams_errors {F = F} phases names indexes streams).1 a ≡ true)
        ↔ (I a ⊎ In a (index_names streams))
  unfolding streams_errors
  streams_errors_indexes phases names indexes I hi [] a =
      ((λ q. inl ((hi a).0 q)), λ p. elim p [ inl i ↦ (hi a).1 i | inr n ↦ absurd n ])
  streams_errors_indexes phases names indexes I hi (stream ∷ rest) a =
      let ih =
        streams_errors_indexes phases (add_name stream.name names)
          (add_name stream.schema.index_name indexes) (With stream.schema.index_name I)
          (add_name-Holds indexes I stream.schema.index_name hi) rest a in
      (
        λ q. elim (ih.0 q) [
          | inl w ↦ elim w [ inl e ↦ inr (inl e) | inr i ↦ inl i ]
          | inr n ↦ inr (inr n)
        ],
        λ p. ih.1 (elim p [
          | inl i ↦ inl (inr i)
          | inr w ↦ elim w [ inl e ↦ inl (inl e) | inr n ↦ inr n ]
        ]),
      )

  -- The index names that the later checks read are those of the streams.
  pub data_stream_errors_indexes :
      (phases : List String) (streams : Option (List DataStream)) (a : String)
      → (contains (data_stream_errors {F = F} phases streams).1 a ≡ true)
        ↔ In a (index_names (unwrap_or streams []))
  unfolding data_stream_errors
  data_stream_errors_indexes phases none a = contains_iff [] a
  data_stream_errors_indexes phases (some streams) a =
      let e = streams_errors_indexes phases [] [] (λ _. ⊥) (contains_iff []) streams a in
      (λ q. elim (e.0 q) [ inl n ↦ absurd n | inr i ↦ i ], λ i. e.1 (inr i))
