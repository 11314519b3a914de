-- ===== src/Operator/Lifecycle/Gate.antt =====
-- What a run has passed when it leaves `pending`.
use mathlib.Core.Path.{subst}
use incident_bench.Base.{
  ◌≡◌, refl, sym, ◌⊎◌, inl, inr, Bool, true, false, Option, none, some, is_some, Bool-cases, List,
  [], ◌∷◌, F64,
}
use incident_bench.Crd.{IncidentBenchRun}
use incident_bench.Crd.Status.{
  IncidentBenchRunStatus, LifecyclePhase, Failure, completed, failed, pending, preparing,
  merge_patch, merge_entry,
}
use incident_bench.Cluster.{Prog}
use incident_bench.Cluster.Objects.{Platform}
use incident_bench.Cluster.Paths.{
  Ends, Ends-bind, Ends-quiet, Ends-ret, Ends-call, Ends-patch, AnyReply,
}
use incident_bench.Cluster.Server.{Server, IsLawful, exec-Ends}
use incident_bench.Scenario.{Scenario}
use incident_bench.Scenario.Validate.{validate, ValidationError}
use incident_bench.Operator.{phase_of, reconcile, reconcile_in}
use incident_bench.Operator.Steps
use incident_bench.Operator.Preparation
use incident_bench.Operator.Lifecycle.{reconciled}
use incident_bench.Operator.Lifecycle.Early.{add_finalizer-IsQuiet}

module _ {F J : Type 0} ⦃fl : F64 F⦄ where
  -- The run has an inline scenario, and the validation finds nothing in it.
  abbrev pub Valid : IncidentBenchRun F J → Type 0
  Valid run = (s : Scenario F) × (run.spec.scenario ≡ some s) × (validate s ≡ [])

  -- How a reconciliation of a pending run ends: with the phase that it had, or by what the run is.
  abbrev pub Verdict : IncidentBenchRun F J → LifecyclePhase → Type 0
  Verdict run p =
      (p ≡ pending)
      ⊎ (((p ≡ failed) × (¬ Valid run))
          ⊎ (Valid run
              × (((p ≡ completed) × (run.spec.dry_run ≡ true))
                  ⊎ ((p ≡ preparing) × (run.spec.dry_run ≡ false)))))

  abbrev Judges :
      {A : Type 0} → IncidentBenchRun F J → Option (IncidentBenchRunStatus F) → Prog F J A → Type 0
  Judges run st m = Ends AnyReply (λ st' _. Verdict run (phase_of st')) st m

  refuse-Judges :
      (run : IncidentBenchRun F J) (st : Option (IncidentBenchRunStatus F)) (e : Failure F)
      → phase_of st ≡ pending
      → ¬ Valid run
      → Judges run st (Steps.update_phase_failed {J = J} e)
  unfolding Steps.update_phase_failed merge_patch merge_entry phase_of
  refuse-Judges run st e h invalid =
      Ends-call _ _ st _ _ λ time g. Ends-patch _ _ st _ (inr (inl (refl, invalid))) λ e' g'. inl h

  start_or_complete-Judges :
      (run : IncidentBenchRun F J) (st : Option (IncidentBenchRunStatus F)) (scenario : Scenario F)
      (dry : Bool)
      → phase_of st ≡ pending
      → Valid run
      → run.spec.dry_run ≡ dry
      → Judges run st (Preparation.start_or_complete dry run scenario)
  unfolding Preparation.start_or_complete Preparation.complete_dry_run Preparation.start_run
      merge_patch merge_entry phase_of
  start_or_complete-Judges run st scenario true h valid d =
      Ends-call _ _ st _ _
        λ time g. Ends-patch _ _ st _ (inr (inr (valid, inl (refl, d)))) λ e g'. inl h
  start_or_complete-Judges run st scenario false h valid d = Ends-call _ _ st _ _ λ id g.
      Ends-quiet _ _ st (Preparation.add_finalizer _) _ (add_finalizer-IsQuiet F J _)
        (λ _. Ends-call _ _ st _ _ λ start g'.
          Ends-call _ _ st _ _
            λ time g''. Ends-patch _ _ st _ (inr (inr (valid, inr (refl, d)))) λ e g3. inl h)
        (λ e. inl h)

  validated-Judges :
      (run : IncidentBenchRun F J) (st : Option (IncidentBenchRunStatus F)) (scenario : Scenario F)
      (errors : List (ValidationError F))
      → phase_of st ≡ pending
      → run.spec.scenario ≡ some scenario
      → validate scenario ≡ errors
      → Judges run st (Preparation.validated run scenario errors)
  unfolding Preparation.validated
  validated-Judges run st scenario [] h inline found =
      start_or_complete-Judges run st scenario _ h (scenario, inline, found) refl
  validated-Judges run st scenario (x ∷ errors) h inline found = refuse-Judges run st _ h λ v.
      let same : scenario ≡ v.0 = cc in let none_found : validate scenario ≡ [] = rw same v.2 in cc

  pending_with-Judges :
      (run : IncidentBenchRun F J) (st : Option (IncidentBenchRunStatus F))
      (inline : Option (Scenario F))
      → phase_of st ≡ pending
      → run.spec.scenario ≡ inline
      → Judges run st
          (Preparation.pending_with run (Steps.resolve inline (is_some run.spec.scenario_ref)))
  unfolding Preparation.pending_with Steps.resolve
  pending_with-Judges run st (some scenario) h e = validated-Judges run st scenario _ h e refl
  pending_with-Judges run st none h e = elim (Bool-cases (is_some run.spec.scenario_ref)) [
    | inl b ↦ rw b (unfold Steps.unresolved in refuse-Judges run st _ h λ v. cc)
    | inr b ↦ rw b (unfold Steps.unresolved in refuse-Judges run st _ h λ v. cc)
  ]

module _ {F J : Type 0} ⦃fl : F64 F⦄ ⦃pf : Platform J⦄ where
  -- One reconciliation of a pending run, against a lawful server, ends in one of these: the run is
  -- still pending; it has failed, and it has no inline scenario that the validation accepts; it has
  -- such a scenario, and is prepared next, or has completed if it is a dry run.
  pub pending_verdict :
      (sv : Server F J)
      → IsLawful sv
      → (run : IncidentBenchRun F J) (s : sv.State) → phase_of (sv.status s) ≡ pending
      → Verdict run (phase_of (sv.status (reconciled sv run s)))
  unfolding reconciled reconcile
  pending_verdict sv lawful run s h =
      exec-Ends sv AnyReply (λ st' _. Verdict run (phase_of st')) lawful (λ _ _. tt)
        (reconcile_in (phase_of (sv.status s)) (record run { status = sv.status s })) s
        (subst
          (λ p. Judges run (sv.status s) (reconcile_in p (record run { status = sv.status s })))
          (sym h)
          (unfold reconcile_in Preparation.handle_pending Steps.resolve_scenario in
            Ends-bind _ _ _ (sv.status s) _ _
              (pending_with-Judges (record run { status = sv.status s }) (sv.status s) _ h refl)
              (λ st' _ v. Ends-ret _ _ st' _ v) (λ st' e v. v)))
