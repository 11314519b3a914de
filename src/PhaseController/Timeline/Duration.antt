-- ===== src/PhaseController/Timeline/Duration.antt =====
-- How long the timeline takes, and what it checkpoints.
use mathlib.Core.Path.{subst}
use incident_bench.Base.{
  ℕ, zero, suc, ◌+◌, ◌-◌, ◌*◌, ◌≤◌, ◌≡◌, refl, String, true, Option, none, some, List, [], ◌∷◌,
  ◌++◌, map, ℤ, arith, ltb, length, drop, drop-nil, sum, Bool-cases, inl, inr,
}
use incident_bench.PhaseController.{PhaseSpec, Workers}
use incident_bench.PhaseController.Timeline.{
  ControllerMessage, prepare_transition, run_complete, Action, checkpoint, enter, send, sleep_ms,
  complete, remove_checkpoint, Surroundings, broadcast, send_transitions, transition_time,
  write_checkpoint, send_prepare, name_before, run_phase, run_phases, clean_up, run_timeline,
}

abbrev slept_in : Action → ℕ
slept_in (sleep_ms n) = n
slept_in (checkpoint path i) = 0
slept_in (enter i) = 0
slept_in (send c m) = 0
slept_in complete = 0
slept_in (remove_checkpoint path) = 0

-- The milliseconds that a list of actions sleeps.
abbrev pub total_sleep : List Action → ℕ
total_sleep [] = 0
total_sleep (a ∷ rest) = slept_in a + total_sleep rest

abbrev pub durations : List PhaseSpec → ℕ
durations phases = sum (map (λ (p : PhaseSpec). p.duration_seconds) phases)

total_sleep-append :
    (xs ys : List Action) → total_sleep (xs ++ ys) ≡ total_sleep xs + total_sleep ys
total_sleep-append [] ys = omega arith
total_sleep-append (x ∷ xs) ys = omega (arith, total_sleep-append xs ys)

total_sleep-broadcast : (m : ControllerMessage) (ws : Workers) → total_sleep (broadcast m ws) ≡ 0
unfolding broadcast
total_sleep-broadcast m [] = refl
total_sleep-broadcast m ((id, (mode, c)) ∷ ws) = omega (arith, total_sleep-broadcast m ws)

total_sleep-send_transitions :
    (from : String) (phase : PhaseSpec) (time : ℤ) (ws : Workers)
    → total_sleep (send_transitions from phase time ws) ≡ 0
unfolding send_transitions
total_sleep-send_transitions from phase time [] = refl
total_sleep-send_transitions from phase time ((id, (mode, c)) ∷ ws) =
    omega (arith, total_sleep-send_transitions from phase time ws)

-- The pause behind the prepare messages.
abbrev pub pause : Option PhaseSpec → ℕ
pause none = 0
pause (some p) = 100

-- How many of the phases from `resume` on have a phase before them.
abbrev pub prepared : ℕ → List PhaseSpec → ℕ
prepared zero [] = 0
prepared zero (p ∷ rest) = length rest
prepared (suc n) phases = length (drop (suc n) phases)

module _ (path : Option String) (around : Surroundings) where
  total_sleep-write_checkpoint :
      (p : Option String) (i : ℕ) → total_sleep (write_checkpoint p i) ≡ 0
  unfolding write_checkpoint
  total_sleep-write_checkpoint none i = refl
  total_sleep-write_checkpoint (some p) i = refl

  total_sleep-clean_up : (p : Option String) → total_sleep (clean_up p) ≡ 0
  unfolding clean_up
  total_sleep-clean_up none = refl
  total_sleep-clean_up (some p) = refl

  total_sleep-send_prepare :
      (i : ℕ) (previous : Option PhaseSpec) (phase : PhaseSpec)
      → total_sleep (send_prepare around i previous phase) ≡ pause previous
  unfolding send_prepare
  total_sleep-send_prepare i none phase = refl
  total_sleep-send_prepare i (some p) phase = omega (
    arith,
    total_sleep-append (broadcast (prepare_transition p.name phase.name) (around.at_prepare i))
        (sleep_ms 100 ∷ []),
    total_sleep-broadcast (prepare_transition p.name phase.name) (around.at_prepare i),
  )

  total_sleep-run_phase :
      (i : ℕ) (previous : Option PhaseSpec) (phase : PhaseSpec)
      → total_sleep (run_phase path around i previous phase)
        ≡ pause previous + phase.duration_seconds * 1000
  unfolding run_phase
  total_sleep-run_phase i previous phase =
      let sends =
        send_transitions (name_before previous) phase (transition_time (around.clock i))
          (around.at_transition i) in
      let behind = sends ++ sleep_ms (phase.duration_seconds * 1000) ∷ [] in
      omega (
        arith,
        total_sleep-append (write_checkpoint path i)
            (enter i ∷ (send_prepare around i previous phase ++ behind)),
        total_sleep-append (send_prepare around i previous phase) behind,
        total_sleep-append sends (sleep_ms (phase.duration_seconds * 1000) ∷ []),
        total_sleep-write_checkpoint path i,
        total_sleep-send_prepare i previous phase,
        total_sleep-send_transitions (name_before previous) phase (transition_time (around.clock i))
            (around.at_transition i),
      )

  run_phases_due :
      (resume i : ℕ) (q : PhaseSpec) (phases : List PhaseSpec)
      → resume ≤ i
      → total_sleep (run_phases path around resume i (some q) phases)
        ≡ 100 * length phases + durations phases * 1000
  unfolding run_phases
  run_phases_due resume i q [] h = omega arith
  run_phases_due resume i q (phase ∷ rest) h = ground (
    arith,
    total_sleep-append (run_phase path around i (some q) phase)
        (run_phases path around resume (i + 1) (some phase) rest),
    total_sleep-run_phase i (some q) phase,
    run_phases_due resume (i + 1) phase rest,
  )

  run_phases_sleep :
      (resume i : ℕ) (q : PhaseSpec) (phases : List PhaseSpec)
      → total_sleep (run_phases path around resume i (some q) phases)
        ≡ 100 * length (drop (resume - i) phases) + durations (drop (resume - i) phases) * 1000
  unfolding run_phases
  run_phases_sleep resume i q [] =
      let e : drop {A = PhaseSpec} (resume - i) [] ≡ [] = drop-nil (resume - i) in rw e
  run_phases_sleep resume i q (phase ∷ rest) = elim (Bool-cases (ltb i resume)) [
    | inl early ↦
        let d : resume - i ≡ suc (resume - (i + 1)) = ground arith in
        rw (early, d) (run_phases_sleep resume (i + 1) phase rest)
    | inr due ↦
        let d : resume - i ≡ 0 = ground arith in
        rw (due, d)
          (omega (
            arith,
            total_sleep-append (run_phase path around i (some q) phase)
                (run_phases path around resume (i + 1) (some phase) rest),
            total_sleep-run_phase i (some q) phase,
            run_phases_due resume (i + 1) phase rest (ground arith),
          ))
  ]

  total_sleep-ending :
      total_sleep (
        complete
        ∷ (broadcast run_complete around.at_end ++ (clean_up path ++ sleep_ms 10_000 ∷ [])))
      ≡ 10_000
  total_sleep-ending = omega (
    arith,
    total_sleep-append (broadcast run_complete around.at_end)
        (clean_up path ++ sleep_ms 10_000 ∷ []),
    total_sleep-append (clean_up path) (sleep_ms 10_000 ∷ []),
    total_sleep-broadcast run_complete around.at_end,
    total_sleep-clean_up path,
  )

  run_phases_first :
      (resume : ℕ) (phases : List PhaseSpec)
      → total_sleep (run_phases path around resume 0 none phases)
        ≡ 100 * prepared resume phases + durations (drop resume phases) * 1000
  unfolding run_phases
  run_phases_first zero [] = refl
  run_phases_first zero (phase ∷ rest) = omega (
    arith,
    total_sleep-append (run_phase path around 0 none phase)
        (run_phases path around 0 (0 + 1) (some phase) rest),
    total_sleep-run_phase 0 none phase,
    run_phases_due 0 (0 + 1) phase rest (omega arith),
  )
  run_phases_first (suc resume) [] = refl
  run_phases_first (suc resume) (phase ∷ rest) =
      let e : suc resume - 1 ≡ resume = omega arith in
      let t : ltb 0 (suc resume) ≡ true = ground arith in
      rw t (
        subst
          (λ n.
            total_sleep (run_phases path around (suc resume) 1 (some phase) rest)
            ≡ 100 * length (drop n rest) + durations (drop n rest) * 1000)
          e (run_phases_sleep (suc resume) 1 phase rest))

  -- The timeline sleeps the durations of the phases that are not skipped, 100 ms before each of these
  -- but the very first phase, and ten seconds at the end; it does so for any workers and clock.
  pub total_sleep-run_timeline :
      (resume : ℕ) (phases : List PhaseSpec)
      → total_sleep (run_timeline path around resume phases)
        ≡ 100 * prepared resume phases + durations (drop resume phases) * 1000 + 10_000
  unfolding run_timeline
  total_sleep-run_timeline resume phases = omega (
    arith,
    total_sleep-append (run_phases path around resume 0 none phases) (
        complete
        ∷ (broadcast run_complete around.at_end ++ (clean_up path ++ sleep_ms 10_000 ∷ []))),
    run_phases_first resume phases,
    total_sleep-ending,
  )
