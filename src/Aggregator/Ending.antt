-- ===== src/Aggregator/Ending.antt =====
-- The end of a run for the aggregator: the last stream closes.
use incident_bench.Base.{
  ℕ, ◌+◌, ◌-◌, ◌≤◌, ◌<◌, ◌≡◌, refl, ◌⊎◌, inl, inr, ◌≢◌, ◌∙◌, String, Bool, true, false, ◌&&◌, none,
  List, [], ◌∷◌, arith, length, ltb, u32_mod, add_u32, F64, is_some,
}
use incident_bench.Aggregator.{
  AggState, collecting, complete, AggregatorState, new, open_stream, receive, complete_from,
  complete_aggregation, close_stream, record_lag,
}
use incident_bench.Aggregator.Service.{Replied, reply_from, get_results}
use incident_bench.Aggregator.Runs.{Event, opened, snapshot, closed, polled, asked, apply, run}
use incident_bench.Aggregator.Lifetime.{receive-counts}

module _ {ℓ} {F : Type ℓ} where
  -- Streams close no more often than they open: from `n` open streams to none.
  abbrev pub WellNested : ℕ → List (Event F) → Type 0
  WellNested n [] = n ≡ 0
  WellNested n (opened ∷ es) = WellNested (n + 1) es
  WellNested n (closed ∷ es) = (1 ≤ n) × WellNested (n - 1) es
  WellNested n (snapshot snap ∷ es) = WellNested n es
  WellNested n (polled stream lag ∷ es) = WellNested n es
  WellNested n (asked ∷ es) = WellNested n es

  -- As many workers are connected as streams are open, and with none the aggregation is complete.
  record IsOpen (n : ℕ) (s : AggregatorState F) : Type ℓ where
    connected : s.connected_workers ≡ n
    had : s.had_workers ≡ true
    ended : (1 ≤ n) ⊎ (s.state ≡ complete)

  complete_from-ends :
      (st : AggState) (s : AggregatorState F)
      → s.state ≡ st
      → ((complete_from st s).0.state ≡ complete)
        × ((complete_from st s).0.connected_workers ≡ s.connected_workers)
        × ((complete_from st s).0.had_workers ≡ s.had_workers)
  unfolding complete_from
  complete_from-ends complete s h = (h, refl, refl)
  complete_from-ends collecting s h = (refl, refl, refl)

  close_stream-IsOpen :
      (n : ℕ) (s : AggregatorState F) → 1 ≤ n → IsOpen n s → IsOpen (n - 1) (close_stream s).0
  unfolding close_stream complete_aggregation
  close_stream-IsOpen n s h o =
      let k =
        complete_from-ends s.state (record s { connected_workers = s.connected_workers - 1 })
          refl in
      ground (arith, k, o.connected, o.had)

  open_stream-IsOpen :
      (n : ℕ) (s : AggregatorState F)
      → n + 1 < u32_mod
      → s.connected_workers ≡ n
      → IsOpen (n + 1) (open_stream s)
  unfolding open_stream add_u32
  open_stream-IsOpen n s b c = record {
    connected = omega arith;
    had = refl;
    ended = inl (omega arith);
  }

module _ {ℓ} {F : Type ℓ} ⦃fl : F64 F⦄ where
  abbrev pub Branches : Replied F → AggregatorState F → Type ℓ
  Branches r s =
      ((s.state ≢ complete)
        × ((s.had_workers ≡ false) ⊎ (s.total_snapshots ≡ 0))
        × (r.reply ≡ none)
        × (r.state ≡ s))
      ⊎ (((s.state ≡ complete) ⊎ ((s.had_workers ≡ true) × (1 ≤ s.total_snapshots)))
          × (is_some r.reply ≡ true)
          × (r.state.state ≡ complete))

  reply_from-ends :
      (n : ℕ) (st : AggState) (s : AggregatorState F)
      → s.state ≡ st
      → IsOpen n s
      → IsOpen n (reply_from st s).state
  unfolding reply_from complete_aggregation
  reply_from-ends n complete s h o = o
  reply_from-ends n collecting s h o =
      let k = complete_from-ends s.state s refl in ground (arith, k, o.connected, o.had, o.ended)

  run-IsOpen :
      (n : ℕ) (es : List (Event F)) (s : AggregatorState F)
      → n + length es < u32_mod
      → WellNested n es
      → IsOpen n s
      → (run es s).state ≡ complete
  unfolding run apply get_results
  run-IsOpen n [] s b w o = elim o.ended [ inl p ↦ absurd (omega (arith, w)) | inr e ↦ e ]
  run-IsOpen n (opened ∷ es) s b w o =
      run-IsOpen (n + 1) es (open_stream s) (omega arith) w
        (open_stream-IsOpen n s (omega arith) o.connected)
  run-IsOpen n (snapshot snap ∷ es) s b w o =
      let k = receive-counts snap s in
      run-IsOpen n es (receive snap s).state (omega arith) w (record {
        connected = k.2 ∙ o.connected;
        had = k.3 ∙ o.had;
        ended = elim o.ended [ inl p ↦ inl p | inr e ↦ inr (k.4 ∙ e) ];
      })
  run-IsOpen n (closed ∷ es) s b w o =
      run-IsOpen (n - 1) es (close_stream s).0 (omega (arith, w.0)) w.1
        (close_stream-IsOpen n s w.0 o)
  run-IsOpen n (polled stream lag ∷ es) s b w o =
      run-IsOpen n es (record_lag stream lag s) (omega arith) w
        (unfold record_lag in record { connected = o.connected; had = o.had; ended = o.ended })
  run-IsOpen n (asked ∷ es) s b w o =
      run-IsOpen n es (reply_from s.state s).state (omega arith) w
        (reply_from-ends n s.state s refl o)

  -- When a worker has opened a stream first, and in the calls that follow, fewer than 2^32 - 1, the
  -- streams close no more often than they open and all are closed at the end, then the aggregation
  -- is complete.
  pub run-complete :
      (path : String) (es : List (Event F))
      → length es + 1 < u32_mod
      → WellNested 1 es
      → (run (opened ∷ es) (new path)).state ≡ complete
  run-complete path es b w =
      unfold run apply in
      run-IsOpen 1 es (open_stream (new path)) (omega arith) w
        (open_stream-IsOpen 0 (new path) (omega arith) (unfold new in refl))

  answered :
      (b : Bool) (s : AggregatorState F)
      → s.state ≢ complete
      → (s.had_workers && ltb 0 s.total_snapshots) ≡ b
      → Branches (reply_from collecting s) s
  unfolding reply_from complete_aggregation
  answered true s n e =
      let k = complete_from-ends s.state s refl in
      rw e (inr (inr (ground arith, ground arith), refl, k.0))
  answered false s n e = rw e (inl (n, ground arith, refl, refl))

  reply_from-Branches :
      (st : AggState) (s : AggregatorState F) → s.state ≡ st → Branches (reply_from st s) s
  unfolding reply_from
  reply_from-Branches complete s h = inr (inl h, refl, h)
  reply_from-Branches collecting s h =
      answered (s.had_workers && ltb 0 s.total_snapshots) s (λ e. cc) refl

  -- `get_results` refuses just a state that is not complete and has had no worker or no snapshot,
  -- and leaves it as it is; in any other case it answers and the state is complete.
  pub get_results-Branches : (s : AggregatorState F) → Branches (get_results s) s
  unfolding get_results
  get_results-Branches s = reply_from-Branches s.state s refl
