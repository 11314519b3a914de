-- ===== src/PhaseController/Timeline/Entered.antt =====
-- The phases that a conductor enters, and where its actions can be cut.
use mathlib.Core.List.{append-nil}
use incident_bench.Base.{
  ℕ, zero, suc, ◌+◌, ◌-◌, ◌*◌, ◌≤◌, ◌≡◌, refl, sym, ap, ◌∙◌, ◌⊎◌, inl, inr, String, Bool, true,
  false, Bool-cases, Option, none, some, List, [], ◌∷◌, ◌++◌, ℤ, arith, ltb, length, take, All,
  All-append,
}
use incident_bench.PhaseController.{PhaseSpec, Workers}
use incident_bench.PhaseController.Timeline.{
  ControllerMessage, Action, checkpoint, enter, send, sleep_ms, complete, remove_checkpoint,
  Surroundings, broadcast, send_transitions, transition_time, write_checkpoint, send_prepare,
  name_before, run_phase, run_phases, clean_up, run_timeline, run_complete,
}
use incident_bench.PhaseController.Timeline.Launch.{file_after}

-- The phases that a list of actions enters.
abbrev pub entered : List Action → List ℕ
entered [] = []
entered (enter i ∷ rest) = i ∷ entered rest
entered (checkpoint path i ∷ rest) = entered rest
entered (send c m ∷ rest) = entered rest
entered (sleep_ms n ∷ rest) = entered rest
entered (complete ∷ rest) = entered rest
entered (remove_checkpoint path ∷ rest) = entered rest

-- Neither enters a phase nor touches the checkpoint.
abbrev pub is_quiet : Action → Bool
is_quiet (send c m) = true
is_quiet (sleep_ms n) = true
is_quiet complete = true
is_quiet (enter i) = false
is_quiet (checkpoint path i) = false
is_quiet (remove_checkpoint path) = false

abbrev pub AllQuiet : List Action → Type 0
AllQuiet actions = All (λ a. is_quiet a ≡ true) actions

pub entered-quiet : (xs ys : List Action) → AllQuiet xs → entered (xs ++ ys) ≡ entered ys
entered-quiet [] ys h = refl
entered-quiet (send c m ∷ xs) ys (_, h) = entered-quiet xs ys h
entered-quiet (sleep_ms n ∷ xs) ys (_, h) = entered-quiet xs ys h
entered-quiet (complete ∷ xs) ys (_, h) = entered-quiet xs ys h
entered-quiet (enter i ∷ xs) ys (h, _) = cc
entered-quiet (checkpoint path i ∷ xs) ys (h, _) = cc
entered-quiet (remove_checkpoint path ∷ xs) ys (h, _) = cc

pub file_after-quiet :
    (show : ℕ → String) (file : Option String) (xs ys : List Action)
    → AllQuiet xs
    → file_after show file (xs ++ ys) ≡ file_after show file ys
unfolding file_after
file_after-quiet show file [] ys h = refl
file_after-quiet show file (send c m ∷ xs) ys (_, h) = file_after-quiet show file xs ys h
file_after-quiet show file (sleep_ms n ∷ xs) ys (_, h) = file_after-quiet show file xs ys h
file_after-quiet show file (complete ∷ xs) ys (_, h) = file_after-quiet show file xs ys h
file_after-quiet show file (enter i ∷ xs) ys (h, _) = cc
file_after-quiet show file (checkpoint path i ∷ xs) ys (h, _) = cc
file_after-quiet show file (remove_checkpoint path ∷ xs) ys (h, _) = cc

-- Where a list of two parts is cut.
pub take-append :
    (n : ℕ) (xs ys : List Action)
    → (take n (xs ++ ys) ≡ take n xs) ⊎ ((m : ℕ) × (take n (xs ++ ys) ≡ xs ++ take m ys))
take-append n [] ys = inr (n, refl)
take-append zero (x ∷ xs) ys = inl refl
take-append (suc n) (x ∷ xs) ys = elim (take-append n xs ys) [
  | inl e ↦ inl (ap (◌∷◌ x) e)
  | inr (m, e) ↦ inr (m, ap (◌∷◌ x) e)
]

pub take-append_le : (n : ℕ) (xs ys : List Action) → n ≤ length xs → take n (xs ++ ys) ≡ take n xs
take-append_le zero [] ys h = refl
take-append_le (suc n) [] ys h = absurd (omega (arith, h))
take-append_le zero (x ∷ xs) ys h = refl
take-append_le (suc n) (x ∷ xs) ys h = ap (◌∷◌ x) (take-append_le n xs ys (omega arith))

pub take-AllQuiet : (n : ℕ) (xs : List Action) → AllQuiet xs → AllQuiet (take n xs)
take-AllQuiet zero xs h = tt
take-AllQuiet (suc n) [] h = tt
take-AllQuiet (suc n) (x ∷ xs) (q, h) = (q, take-AllQuiet n xs h)

broadcast-AllQuiet : (m : ControllerMessage) (ws : Workers) → AllQuiet (broadcast m ws)
unfolding broadcast
broadcast-AllQuiet m [] = tt
broadcast-AllQuiet m ((id, (mode, c)) ∷ ws) = (refl, broadcast-AllQuiet m ws)

send_transitions-AllQuiet :
    (from : String) (phase : PhaseSpec) (time : ℤ) (ws : Workers)
    → AllQuiet (send_transitions from phase time ws)
unfolding send_transitions
send_transitions-AllQuiet from phase time [] = tt
send_transitions-AllQuiet from phase time ((id, (mode, c)) ∷ ws) =
    (refl, send_transitions-AllQuiet from phase time ws)

send_prepare-AllQuiet :
    (around : Surroundings) (i : ℕ) (previous : Option PhaseSpec) (phase : PhaseSpec)
    → AllQuiet (send_prepare around i previous phase)
unfolding send_prepare
send_prepare-AllQuiet around i none phase = tt
send_prepare-AllQuiet around i (some p) phase =
    All-append _ _ _ (broadcast-AllQuiet _ (around.at_prepare i)) (refl, tt)

-- What a phase does behind its checkpoint and its entry.
abbrev pub behind_entry : Surroundings → ℕ → Option PhaseSpec → PhaseSpec → List Action
behind_entry around i previous phase =
    send_prepare around i previous phase
    ++ (send_transitions (name_before previous) phase (transition_time (around.clock i))
          (around.at_transition i)
        ++ sleep_ms (phase.duration_seconds * 1000) ∷ [])

pub behind_entry-AllQuiet :
    (around : Surroundings) (i : ℕ) (previous : Option PhaseSpec) (phase : PhaseSpec)
    → AllQuiet (behind_entry around i previous phase)
behind_entry-AllQuiet around i previous phase =
    All-append _ (send_prepare around i previous phase) _
      (send_prepare-AllQuiet around i previous phase)
      (All-append _
        (send_transitions (name_before previous) phase (transition_time (around.clock i))
          (around.at_transition i))
        _
        (send_transitions-AllQuiet (name_before previous) phase (transition_time (around.clock i))
          (around.at_transition i))
        (refl, tt))

-- `k` indices from `i` on.
abbrev pub indices : ℕ → ℕ → List ℕ
indices i zero = []
indices i (suc k) = i ∷ indices (i + 1) k

pub indices-append : (i k l : ℕ) → indices i (k + l) ≡ indices i k ++ indices (i + k) l
indices-append i zero l =
    let a : 0 + l ≡ l = omega arith in
    let b : i ≡ i + 0 = omega arith in ap (indices i) a ∙ ap (λ j. indices j l) b
indices-append i (suc k) l =
    let a : suc k + l ≡ suc (k + l) = omega arith in
    let b : i + 1 + k ≡ i + suc k = omega arith in
    ap (indices i) a
    ∙ ap (◌∷◌ i) (indices-append (i + 1) k l ∙ ap (λ j. indices (i + 1) k ++ indices j l) b)

pub take-indices : (i k : ℕ) → take k (indices i k) ≡ indices i k
take-indices i zero = refl
take-indices i (suc k) = ap (◌∷◌ i) (take-indices (i + 1) k)

pub take-indices-suc : (i k : ℕ) → take k (indices i (suc k)) ≡ indices i k
take-indices-suc i zero = refl
take-indices-suc i (suc k) = ap (◌∷◌ i) (take-indices-suc (i + 1) k)

pub length-indices : (i k : ℕ) → length (indices i k) ≡ k
length-indices i zero = refl
length-indices i (suc k) = omega (arith, length-indices (i + 1) k)

module _ (path : String) (around : Surroundings) (resume : ℕ) where
  abbrev pub from_phase : ℕ → Option PhaseSpec → List PhaseSpec → List Action
  from_phase i previous phases = run_phases (some path) around resume i previous phases

  pub skips :
      (i : ℕ) (previous : Option PhaseSpec) (phase : PhaseSpec) (rest : List PhaseSpec)
      → ltb i resume ≡ true
      → from_phase i previous (phase ∷ rest) ≡ from_phase (i + 1) (some phase) rest
  unfolding run_phases
  skips i previous phase rest h = rw h refl

  pub runs :
      (i : ℕ) (previous : Option PhaseSpec) (phase : PhaseSpec) (rest : List PhaseSpec)
      → ltb i resume ≡ false
      → from_phase i previous (phase ∷ rest)
        ≡ checkpoint path i
          ∷ enter i
          ∷ (behind_entry around i previous phase ++ from_phase (i + 1) (some phase) rest)
  unfolding run_phases run_phase write_checkpoint
  runs i previous phase rest h = rw h refl

  entered-due :
      (i : ℕ) (previous : Option PhaseSpec) (phases : List PhaseSpec)
      → resume ≤ i
      → entered (from_phase i previous phases) ≡ indices i (length phases)
  entered-due i previous [] h = unfold run_phases in refl
  entered-due i previous (phase ∷ rest) h =
      let due : ltb i resume ≡ false = ground arith in
      ap entered (runs i previous phase rest due)
      ∙ ap (◌∷◌ i) (
          entered-quiet (behind_entry around i previous phase)
            (from_phase (i + 1) (some phase) rest) (behind_entry-AllQuiet around i previous phase)
          ∙ entered-due (i + 1) (some phase) rest (omega arith))

  -- All phases but those that are skipped.
  entered-from_phase :
      (i : ℕ) (previous : Option PhaseSpec) (phases : List PhaseSpec)
      → i ≤ resume
      → entered (from_phase i previous phases) ≡ indices resume (length phases - (resume - i))
  entered-from_phase i previous [] h =
      let e : 0 - (resume - i) ≡ 0 = omega arith in unfold run_phases in rw e refl
  entered-from_phase i previous (phase ∷ rest) h = elim (Bool-cases (ltb i resume)) [
    | inl early ↦
        let e : length (phase ∷ rest) - (resume - i) ≡ length rest - (resume - (i + 1)) =
          ground arith in
        ap entered (skips i previous phase rest early)
        ∙ entered-from_phase (i + 1) (some phase) rest (ground arith)
        ∙ ap (indices resume) (sym e)
    | inr due ↦
        let s : i ≡ resume = ground arith in
        let e : length (phase ∷ rest) - (resume - i) ≡ length (phase ∷ rest) = omega (arith, s) in
        entered-due i previous (phase ∷ rest) (omega (arith, s))
        ∙ ap (λ j. indices j (length (phase ∷ rest))) s
        ∙ ap (indices resume) (sym e)
  ]

entered-append : (xs ys : List Action) → entered (xs ++ ys) ≡ entered xs ++ entered ys
entered-append [] ys = refl
entered-append (enter i ∷ xs) ys = ap (◌∷◌ i) (entered-append xs ys)
entered-append (checkpoint path i ∷ xs) ys = entered-append xs ys
entered-append (send c m ∷ xs) ys = entered-append xs ys
entered-append (sleep_ms n ∷ xs) ys = entered-append xs ys
entered-append (complete ∷ xs) ys = entered-append xs ys
entered-append (remove_checkpoint path ∷ xs) ys = entered-append xs ys

-- The whole timeline enters the phases from the one at which it resumes on.
pub entered-run_timeline :
    (path : String) (around : Surroundings) (resume : ℕ) (phases : List PhaseSpec)
    → entered (run_timeline (some path) around resume phases)
      ≡ indices resume (length phases - resume)
unfolding run_timeline clean_up
entered-run_timeline path around resume phases =
    let z : length phases - (resume - 0) ≡ length phases - resume = omega arith in
    entered-append (run_phases (some path) around resume 0 none phases) _
    ∙ ap (λ l. entered (run_phases (some path) around resume 0 none phases) ++ l)
        (entered-quiet (broadcast run_complete around.at_end) _
          (broadcast-AllQuiet run_complete around.at_end))
    ∙ append-nil _
    ∙ entered-from_phase path around resume 0 none phases (omega arith)
    ∙ ap (indices resume) z
