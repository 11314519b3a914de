-- ===== src/PhaseController/Timeline/Recovery.antt =====
-- A conductor that is stopped and started again.
use mathlib.Core.List.{append-nil}
use mathlib.Core.Path.{subst}
use incident_bench.Base.{
  ℕ, zero, suc, ◌+◌, ◌-◌, ◌<◌, ◌≤◌, ◌≡◌, refl, sym, ap, ◌∙◌, ◌⊎◌, inl, inr, String, true, false,
  Bool-cases, Option, none, some, List, [], ◌∷◌, ◌++◌, arith, ltb, length, take,
}
use incident_bench.PhaseController.{PhaseSpec, PhaseControllerConfig}
use incident_bench.PhaseController.Timeline.{
  Action, checkpoint, enter, Surroundings, run_phases, run_timeline,
}
use incident_bench.PhaseController.Timeline.Launch.{
  resume_from, file_after, run_controller, RunError,
}
use incident_bench.Cluster.{Result, ok, err}
use incident_bench.PhaseController.Timeline.Entered.{
  entered, indices, AllQuiet, entered-quiet, file_after-quiet, take-append, take-append_le,
  take-AllQuiet, behind_entry, behind_entry-AllQuiet, indices-append, take-indices,
  take-indices-suc, length-indices, from_phase, skips, runs, entered-run_timeline,
}

module _ (path : String) (around : Surroundings) (resume : ℕ) where
  module _ (show : ℕ → String) where
    -- Cut anywhere, the actions have left the file alone and entered nothing, or the file has the
    -- phase that is under way, which is entered or about to be.
    abbrev Stopped : ℕ → ℕ → Option String → List Action → Type 0
    Stopped i m file actions =
        ((file_after show file actions ≡ file) × (entered actions ≡ []))
        ⊎ ((k : ℕ) × (k < m)
            × (file_after show file actions ≡ some (show (i + k)))
            × ((entered actions ≡ indices i k) ⊎ (entered actions ≡ indices i (suc k))))

    Stopped-later :
        (i m : ℕ) (file : Option String) (quiet actions : List Action)
        → AllQuiet quiet
        → Stopped (i + 1) m (some (show i)) actions
        → Stopped i (suc m) file (checkpoint path i ∷ enter i ∷ (quiet ++ actions))
    unfolding file_after
    Stopped-later i m file quiet actions q (inl (f, e)) =
        let z : i + 0 ≡ i = omega arith in
        inr (
          0,
          omega arith,
          file_after-quiet show (some (show i)) quiet actions q
              ∙ f
              ∙ ap (λ j. some (show j)) (sym z),
          inr (ap (◌∷◌ i) (entered-quiet quiet actions q ∙ e)),
        )
    Stopped-later i m file quiet actions q (inr (k, l, f, e)) =
        let z : i + 1 + k ≡ i + suc k = omega arith in
        inr (
          suc k,
          omega arith,
          file_after-quiet show (some (show i)) quiet actions q ∙ f ∙ ap (λ j. some (show j)) z,
          (elim e [
            | inl e ↦ inl (ap (◌∷◌ i) (entered-quiet quiet actions q ∙ e))
            | inr e ↦ inr (ap (◌∷◌ i) (entered-quiet quiet actions q ∙ e))
          ]),
        )

    cut-due :
        (n i : ℕ) (previous : Option PhaseSpec) (phases : List PhaseSpec) (file : Option String)
        → resume ≤ i
        → Stopped i (length phases) file (take n (from_phase path around resume i previous phases))
    cut-due zero i previous phases file h = unfold file_after in inl (refl, refl)
    cut-due (suc n) i previous [] file h =
        unfold run_phases in unfold file_after in inl (refl, refl)
    cut-due (suc zero) i previous (phase ∷ rest) file h =
        let due : ltb i resume ≡ false = ground arith in
        let z : i + 0 ≡ i = omega arith in
        subst (λ l. Stopped i (length (phase ∷ rest)) file (take 1 l))
          (sym (runs path around resume i previous phase rest due))
          (unfold file_after in inr (0, omega arith, ap (λ j. some (show j)) (sym z), inl refl))
    cut-due (suc (suc n)) i previous (phase ∷ rest) file h =
        let due : ltb i resume ≡ false = ground arith in
        let quiet = behind_entry around i previous phase in
        let q = behind_entry-AllQuiet around i previous phase in
        let later = from_phase path around resume (i + 1) (some phase) rest in
        let m = length rest in
        subst (λ l. Stopped i (suc m) file (take (suc (suc n)) l))
          (sym (runs path around resume i previous phase rest due))
          (elim (take-append n quiet later) [
            | inl e ↦
                subst (λ l. Stopped i (suc m) file (checkpoint path i ∷ enter i ∷ l))
                  (append-nil (take n quiet) ∙ sym e)
                  (Stopped-later i m file (take n quiet) [] (take-AllQuiet n quiet q)
                    (unfold file_after in inl (refl, refl)))
            | inr (k, e) ↦
                subst (λ l. Stopped i (suc m) file (checkpoint path i ∷ enter i ∷ l)) (sym e)
                  (Stopped-later i m file quiet (take k later) q
                    (cut-due k (i + 1) (some phase) rest (some (show i)) (omega arith)))
          ])

    cut :
        (n i : ℕ) (previous : Option PhaseSpec) (phases : List PhaseSpec) (file : Option String)
        → i ≤ resume
        → Stopped resume
            (length phases - (resume - i))
            file
            (take n (from_phase path around resume i previous phases))
    cut zero i previous [] file h = unfold run_phases in unfold file_after in inl (refl, refl)
    cut (suc n) i previous [] file h = unfold run_phases in unfold file_after in inl (refl, refl)
    cut n i previous (phase ∷ rest) file h = elim (Bool-cases (ltb i resume)) [
      | inl early ↦
          let e : length rest - (resume - (i + 1)) ≡ length (phase ∷ rest) - (resume - i) =
            ground arith in
          subst (λ l. Stopped resume (length (phase ∷ rest) - (resume - i)) file (take n l))
            (sym (skips path around resume i previous phase rest early))
            (subst
              (λ m.
                Stopped resume m file
                  (take n (from_phase path around resume (i + 1) (some phase) rest)))
              e (cut n (i + 1) (some phase) rest file (ground arith)))
      | inr due ↦
          let s : i ≡ resume = ground arith in
          let e : length (phase ∷ rest) ≡ length (phase ∷ rest) - (resume - i) = omega (arith, s) in
          subst
            (λ m.
              Stopped resume m file
                (take n (from_phase path around resume i previous (phase ∷ rest))))
            e
            (subst
              (λ j.
                Stopped j (length (phase ∷ rest)) file
                  (take n (from_phase path around resume i previous (phase ∷ rest))))
              s (cut-due n i previous (phase ∷ rest) file (omega (arith, s))))
    ]

-- What a run does once it has its workers.
abbrev pub actions_of : Result RunError (List Action) → List Action
actions_of (ok actions) = actions
actions_of (err e) = []

-- The conductor started at `start` and did `before`; it is started again at `again` and does `resumed`,
-- which goes on with what it would have done, `whole`.
abbrev pub Resumes : ℕ → ℕ → List Action → List Action → List Action → Type 0
Resumes start again before resumed whole =
    (start ≤ again)
    × (length (entered before) ≤ again - start + 1)
    × (take (again - start) (entered before) ++ entered resumed ≡ entered whole)

-- What a conductor does whose checkpoint is `path`, with the text `file` in it, and whose workers all
-- get ready in time.
abbrev pub conducted :
    (String → Option ℕ)
    → PhaseControllerConfig
    → String
    → Option String
    → Surroundings
    → List Action
conducted parse config path file around = actions_of (
    run_controller parse (record config { checkpoint_path = some path })
      record { contents = file; all_ready = true; ready_workers = (0, 0) } around)

module _ (parse : String → Option ℕ) (show : ℕ → String)
    (reads : (i : ℕ) → parse (show i) ≡ some i) where
  Stopped-Resumes :
      (path : String) (around around' : Surroundings) (phases : List PhaseSpec)
      (file : Option String) (before : List Action)
      → let start = resume_from parse (some path) file in
        let again = resume_from parse (some path) (file_after show file before) in
        Stopped path around start show start (length phases - start) file before
        → Resumes start again before
            (run_timeline (some path) around' again phases)
            (run_timeline (some path) around start phases)
  unfolding resume_from
  Stopped-Resumes path around around' phases file before (inl (f, e)) =
      let start = resume_from parse (some path) file in
      let z : start - start ≡ 0 = omega arith in
      rw (f, e, z)
        (
          omega arith,
          omega arith,
          entered-run_timeline path around' start phases
              ∙ sym (entered-run_timeline path around start phases),
        )
  Stopped-Resumes path around around' phases file before (inr (k, l, f, e)) =
      let start = resume_from parse (some path) file in
      let m = length phases - start in
      let z : start + k - start ≡ k = omega arith in
      let d : length phases - (start + k) ≡ m - k = omega arith in
      let w : k + (m - k) ≡ m = omega arith in
      let whole : indices start k ++ indices (start + k) (m - k)
          ≡ entered (run_timeline (some path) around start phases) =
        sym (indices-append start k (m - k))
        ∙ ap (indices start) w
        ∙ sym (entered-run_timeline path around start phases) in
      let resumed : entered (run_timeline (some path) around' (start + k) phases)
          ≡ indices (start + k) (m - k) =
        entered-run_timeline path around' (start + k) phases ∙ ap (indices (start + k)) d in
      elim e [
        | inl e ↦
            rw (f, reads (start + k), e, z, take-indices start k, resumed)
              (omega arith, omega (arith, length-indices start k), whole)
        | inr e ↦
            rw (f, reads (start + k), e, z, take-indices-suc start k, resumed)
              (omega arith, omega (arith, length-indices (start + 1) k), whole)
      ]

  -- A conductor that is stopped at any point before its last phase is over, and started again, goes
  -- on with the phase that it was in, where the workers get ready in time, each write of the
  -- checkpoint succeeds and a number reads back from its text: the phases that the first one has
  -- entered and left, and all those that the second one enters, are together those that the first
  -- would have entered undisturbed, in order; and at most one phase is entered twice.
  pub restart-Resumes :
      (config : PhaseControllerConfig) (path : String) (around around' : Surroundings)
      (file : Option String) (n : ℕ)
      → n
        ≤ length (
            run_phases (some path) around (resume_from parse (some path) file) 0 none config.phases)
      → let whole = conducted parse config path file around in
        let left = file_after show file (take n whole) in
        Resumes
          (resume_from parse (some path) file)
          (resume_from parse (some path) left)
          (take n whole)
          (conducted parse config path left around')
          whole
  unfolding run_controller run_timeline
  restart-Resumes config path around around' file n h =
      let start = resume_from parse (some path) file in
      let phases = config.phases in
      let z : length phases - (start - 0) ≡ length phases - start = omega arith in
      rw (take-append_le n (run_phases (some path) around start 0 none phases) _ h) (
        Stopped-Resumes path around around' phases file
          (take n (run_phases (some path) around start 0 none phases))
          (rw z at (cut path around start show n 0 none phases file (omega arith))))
