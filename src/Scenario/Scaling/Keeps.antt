-- ===== src/Scenario/Scaling/Keeps.antt =====
-- What scaling keeps, and that scaling by 1 keeps everything.
use incident_bench.Base.{
  unwrap_or, ℕ, ◌^◌, ◌≤◌, max, ◌≡◌, refl, ap, ◌∙◌, String, Option, none, some, List, [], ◌∷◌, map,
  All, arith, F64, IsNumber, IsExact,
}
use incident_bench.Scenario.{
  StreamPhaseIngest, DataStream, PhaseDef, Scenario, has_ingest, is_session_mode, phase_names,
  streams_of,
}
use incident_bench.Scenario.Validate.Streams.{stream_names, index_names}
use incident_bench.Scenario.Scaling.{
  scale_nat, scale_phase, scale_ingest, scale_stream, scale_streams, with_scaling,
}

map-fixed {ℓ κ} :
    {A : Type ℓ} (P : A → Type κ) (f : A → A)
    → ((x : A) → P x → f x ≡ x)
    → (xs : List A) → All P xs
    → map f xs ≡ xs
map-fixed P f h [] all = refl
map-fixed P f h (x ∷ xs) all = λ i. h x all.0 i ∷ map-fixed P f h xs all.1 i

map-same {ℓ κ} :
    {A : Type ℓ} {B : Type κ} (g : A → B) (f : A → A)
    → ((x : A) → g (f x) ≡ g x)
    → (xs : List A) → map g (map f xs) ≡ map g xs
map-same g f h [] = refl
map-same g f h (x ∷ xs) = λ i. h x i ∷ map-same g f h xs i

-- What a run reads of a scenario besides its rates and durations.
pub record SameShape {ℓ} {F : Type ℓ} (s t : Scenario F) : Type ℓ where
  pub ingest : has_ingest t ≡ has_ingest s
  pub session : is_session_mode t ≡ is_session_mode s
  pub phases : phase_names t ≡ phase_names s
  pub streams : stream_names (streams_of t) ≡ stream_names (streams_of s)
  pub indexes : index_names (streams_of t) ≡ index_names (streams_of s)
  pub replicas :
      map (λ (d : DataStream). d.ingest_replicas) (streams_of t)
      ≡ map (λ (d : DataStream). d.ingest_replicas) (streams_of s)

module _ {ℓ} {F : Type ℓ} ⦃fl : F64 F⦄ where
  scale_streams-map {κ} :
      {B : Type κ} (g : DataStream → B) (b : F)
      → ((d : DataStream) → g (scale_stream b d) ≡ g d)
      → (streams : Option (List DataStream))
      → map g (unwrap_or (scale_streams b streams) []) ≡ map g (unwrap_or streams [])
  unfolding scale_streams
  scale_streams-map g b h none = refl
  scale_streams-map g b h (some streams) = map-same g (scale_stream b) h streams

  has_ingest-scale :
      (a b : F) (s : Scenario F) (streams : Option (List DataStream))
      → s.data_streams ≡ streams
      → has_ingest (with_scaling a b s) ≡ has_ingest s
  unfolding has_ingest with_scaling scale_streams
  has_ingest-scale a b s none e = rw e
  has_ingest-scale a b s (some []) e = rw e
  has_ingest-scale a b s (some (d ∷ rest)) e = rw e

  -- Whatever the two factors, scaling keeps the names and the order of phases, streams and indexes,
  -- the replicas, whether there is ingest and whether workers run sessions; and each phase of the
  -- scaled scenario lasts a second or more.
  pub with_scaling-SameShape :
      (a b : F) (s : Scenario F)
      → SameShape s (with_scaling a b s)
        × All (λ (p : PhaseDef F). 1 ≤ p.duration_seconds) (with_scaling a b s).timeline.phases
  unfolding with_scaling is_session_mode
  with_scaling-SameShape a b s = (
    record {
      ingest = has_ingest-scale a b s s.data_streams refl;
      session = refl;
      phases =
          unfold scale_phase in
          map-same (λ (p : PhaseDef F). p.name) (scale_phase a b) (λ p. refl) s.timeline.phases;
      streams =
          unfold scale_stream in
          scale_streams-map (λ (d : DataStream). d.name) b (λ d. refl) s.data_streams;
      indexes =
          unfold scale_stream in
          scale_streams-map (λ (d : DataStream). d.schema.index_name) b (λ d. refl) s.data_streams;
      replicas =
          unfold scale_stream in
          scale_streams-map (λ (d : DataStream). d.ingest_replicas) b (λ d. refl) s.data_streams;
    },
    long s.timeline.phases,
  )
    where
      long :
          (ps : List (PhaseDef F))
          → All (λ (p : PhaseDef F). 1 ≤ p.duration_seconds) (map (scale_phase a b) ps)
      long [] = tt
      long (p ∷ ps) = (unfold scale_phase in omega arith, long ps)

module _ {ℓ} {F : Type ℓ} ⦃fl : F64 F⦄ (laws : IsExact F) where
  -- The numbers of a scenario that the scaling computes with are exact.
  abbrev pub PhaseExact : PhaseDef F → Type 0
  PhaseExact p =
      (1 ≤ p.duration_seconds) × (p.duration_seconds ≤ 2 ^ 53) × IsNumber p.query.target_qps

  abbrev pub IngestExact : String × StreamPhaseIngest → Type 0
  IngestExact (phase, i) = i.target_eps ≤ 2 ^ 53

  scale_nat-one : (n : ℕ) → n ≤ 2 ^ 53 → scale_nat (fl.lit 1 0) n ≡ n
  unfolding scale_nat
  scale_nat-one n h =
      ap (λ x. fl.to_u64 (fl.round x)) (laws.mul_one (fl.of_nat n) (laws.of_nat_number n))
      ∙ ap fl.to_u64 (laws.round-of_nat n h)
      ∙ laws.to_u64-of_nat n h

  scale_phase-one : (p : PhaseDef F) → PhaseExact p → scale_phase (fl.lit 1 0) (fl.lit 1 0) p ≡ p
  unfolding scale_phase
  scale_phase-one p h =
      let d : max (scale_nat (fl.lit 1 0) p.duration_seconds) 1 ≡ p.duration_seconds =
        omega (arith, scale_nat-one p.duration_seconds h.1) in
      λ i. record p {
        duration_seconds = d i;
        query = record p.query { target_qps = laws.mul_one p.query.target_qps h.2 i };
      }

  scale_ingest-one :
      (e : String × StreamPhaseIngest) → IngestExact e → scale_ingest (fl.lit 1 0) e ≡ e
  unfolding scale_ingest
  scale_ingest-one (phase, r) h =
      λ i. (phase, record r { target_eps = scale_nat-one r.target_eps h i })

  scale_streams-one :
      (streams : Option (List DataStream))
      → All (λ (d : DataStream). All IngestExact d.ingest) (unwrap_or streams [])
      → scale_streams (fl.lit 1 0) streams ≡ streams
  unfolding scale_streams scale_stream
  scale_streams-one none h = refl
  scale_streams-one (some streams) h = ap some (
      map-fixed (λ (d : DataStream). All IngestExact d.ingest) (scale_stream (fl.lit 1 0))
        (λ d g. λ i. record d {
          ingest = map-fixed IngestExact (scale_ingest (fl.lit 1 0)) scale_ingest-one d.ingest g i;
        })
        streams h)

  -- Scaling by 1 and 1 changes nothing, if each phase lasts a second or more, durations and targets
  -- are at most 2^53, and each QPS target is a number.
  pub with_scaling-one :
      (s : Scenario F)
      → All PhaseExact s.timeline.phases
      → All (λ (d : DataStream). All IngestExact d.ingest) (streams_of s)
      → with_scaling (fl.lit 1 0) (fl.lit 1 0) s ≡ s
  unfolding with_scaling
  with_scaling-one s hp hs = λ i. record s {
    timeline = record {
      phases =
          map-fixed PhaseExact (scale_phase (fl.lit 1 0) (fl.lit 1 0)) scale_phase-one
            s.timeline.phases hp i;
    };
    data_streams = scale_streams-one s.data_streams hs i;
  }
