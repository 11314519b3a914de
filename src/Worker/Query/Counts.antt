-- ===== src/Worker/Query/Counts.antt =====
-- What a worker counts of the results of its queries.
use mathlib.Core.List.{append-nil}
use incident_bench.Base.{
  ℕ, ◌+◌, String, Bool, true, false, Bool-cases, ◌||◌, Option, none, some, List, [], ◌∷◌, ◌++◌,
  length-append, unwrap_or, is_some, add_u64, F64, ◌≡◌, refl, sym, inl, inr, arith,
}
use incident_bench.Cluster.{Result, ok, err}
use incident_bench.Scenario.{QueryDef}
use incident_bench.Aggregator.Snapshots.{QueryErrorRecord}
use incident_bench.Worker.Query.{
  QueryResult, Tally, count_executed, count_error, message_of, record_query, record_session,
}
use incident_bench.Worker.Query.Errors.{
  Origin, error_record, query_error_record_parts, truncate_error_message,
}
use incident_bench.Worker.Query.Moves.{
  here_count-zero, count_of-count_at, or_true, bit, Moves, Moves-trans, count_executed-Moves,
  push_both-Moves, push_latency-Moves, push_timeout-Moves, here-nil,
}

module _ {F : Type 0} where
  -- A step of the count that does not panic.
  abbrev pub Steps : String → ℕ → ℕ → List F → Tally F → Option (Tally F) → Type 0
  Steps name e f l t none = ⊥
  Steps name e f l t (some u) = Moves name e f l t u

  count_error-Steps :
      (name : String) (r : Option (QueryErrorRecord F)) (t : Tally F)
      → is_some r ≡ true
      → Steps name 0 1 [] t (count_error name r t)
  unfolding count_error add_u64
  count_error-Steps name none t h = cc
  count_error-Steps name (some r) t h = record {
    executed_lt = λ h. omega arith;
    errors_lt = λ h. omega arith;
    executed = omega arith;
    errors = omega arith;
    executed_at = λ n. omega (arith, here_count-zero name n);
    errors_at = λ n. count_of-count_at name n t.per_query_errors;
    latencies = λ n. sym (rw (here-nil name n) (append-nil _));
    records = length-append t.pending_error_records (r ∷ []);
  }

  Steps-trans :
      (name : String) (e f : ℕ) (l : List F) (e' f' : ℕ) (l' : List F) (t u : Tally F)
      (r : Option (Tally F))
      → Moves name e f l t u
      → Steps name e' f' l' u r
      → Steps name (e + e') (f + f') (l ++ l') t r
  Steps-trans name e f l e' f' l' t u none a b = b
  Steps-trans name e f l e' f' l' t u (some v) a b = Moves-trans name e f l e' f' l' t u v a b

  -- The record of an error is made where its message can be cut.
  parts-is_some :
      (name category : String) (o : Origin) (x : F) (timed_out : Bool) (message : String)
      → is_some (truncate_error_message message) ≡ true
      → is_some (query_error_record_parts name category o x timed_out message) ≡ true
  unfolding query_error_record_parts
  parts-is_some name category o x timed_out message h =
      elim (truncate_error_message message)
          as (λ c.
            is_some c ≡ true
            → is_some (error_record name category o x timed_out message c) ≡ true) [
              | none ↦ λ h. cc
              | some c ↦ λ h. refl
            ]
        h

  -- Whether a result counts as an error, and the latencies that it has.
  abbrev pub is_failure : Result String (QueryResult F) → Bool
  is_failure (ok qr) = is_some qr.error || qr.timed_out
  is_failure (err message) = true

  abbrev pub durations : Result String (QueryResult F) → List F
  durations (ok qr) = qr.duration_ms ∷ []
  durations (err message) = []

  -- The message of a failure can be cut to its length.
  abbrev pub CanCut : Result String (QueryResult F) → Type 0
  CanCut (ok qr) = is_some (truncate_error_message (message_of qr)) ≡ true
  CanCut (err message) = is_some (truncate_error_message message) ≡ true

  pub record_query-Steps :
      (o : Origin) (q : QueryDef) (x : F) (r : Result String (QueryResult F)) (t : Tally F)
      → CanCut r
      → Steps q.name 1 (bit (is_failure r)) (durations r) t (record_query o q x r t)
  unfolding record_query
  record_query-Steps o q x (ok qr) t h =
      let a = count_executed-Moves q.name t in
      let b = push_both-Moves q.name qr.duration_ms (count_executed q.name t) in
      let ab = Moves-trans q.name 1 0 [] 0 0 (qr.duration_ms ∷ []) t _ _ a b in
      elim (Bool-cases (is_some qr.error || qr.timed_out)) [
        | inl e ↦ rw e (
            Steps-trans q.name 1 0 (qr.duration_ms ∷ []) 0 1 [] t _ _ ab (
              count_error-Steps q.name _ _
                (parts-is_some q.name _ o qr.duration_ms qr.timed_out (message_of qr) h)))
        | inr e ↦ rw e ab
      ]
  record_query-Steps o q x (err message) t h =
      Steps-trans q.name 1 0 [] 0 1 [] t _ _ (count_executed-Moves q.name t)
        (count_error-Steps q.name _ _ (parts-is_some q.name _ o x _ message h))

  pub record_session-Steps :
      ⦃fl : F64 F⦄ (o : Origin) (category : String) (q : QueryDef) (timeout_ms : ℕ)
      (r : Result String (QueryResult F)) (t : Tally F)
      → CanCut r
      → Steps q.name 1
          (bit (is_failure r))
          (durations r)
          t
          (record_session o category q timeout_ms r t)
  unfolding record_session
  record_session-Steps o category q timeout_ms (ok qr) t h =
      let a = count_executed-Moves q.name t in
      let b = push_latency-Moves q.name qr.duration_ms (count_executed q.name t) in
      let ab = Moves-trans q.name 1 0 [] 0 0 (qr.duration_ms ∷ []) t _ _ a b in
      elim (Bool-cases qr.timed_out) [
        | inl e ↦
            let p : is_some (truncate_error_message (unwrap_or qr.error "query timed out")) ≡ true =
              rw e at h in
            rw (e, or_true (is_some qr.error))
              (Steps-trans q.name 1 0 (qr.duration_ms ∷ []) 0 1 [] t _ _
                (Moves-trans q.name 1 0 (qr.duration_ms ∷ []) 0 0 [] t _ _ ab
                  (push_timeout-Moves q.name _ _))
                (count_error-Steps q.name _ _ (
                  parts-is_some q.name category o qr.duration_ms true
                    (unwrap_or qr.error "query timed out") p)))
        | inr e ↦
            let p : is_some (truncate_error_message (unwrap_or qr.error "query failed")) ≡ true =
              rw e at h in
            elim (Bool-cases (is_some qr.error)) [
              | inl s ↦
                  rw (e, s)
                    (Steps-trans q.name 1 0 (qr.duration_ms ∷ []) 0 1 [] t _ _ ab (
                      count_error-Steps q.name _ _ (
                        parts-is_some q.name category o qr.duration_ms false
                          (unwrap_or qr.error "query failed") p)))
              | inr s ↦ rw (e, s) ab
            ]
      ]
  record_session-Steps o category q timeout_ms (err message) t h =
      Steps-trans q.name 1 0 [] 0 1 [] t _ _ (count_executed-Moves q.name t)
        (count_error-Steps q.name _ _ (parts-is_some q.name category o _ _ message h))
