-- ===== src/Operator/Lifecycle/Once.antt =====
-- The cleanup is done once.
use incident_bench.Base.{◌≡◌, refl, Bool, true, false, Option, F64}
use incident_bench.Crd.{IncidentBenchRun}
use incident_bench.Crd.Status.{
  IncidentBenchRunStatus, LifecyclePhase, completed, failed, pending, preparing, initializing,
  running, aggregating, reporting, merge_patch, merge_entry, read_condition,
}
use incident_bench.Cluster.{Prog, ok, ret, try}
use incident_bench.Cluster.Objects.{Platform}
use incident_bench.Cluster.Paths.{
  Ends, Ends-bind, Ends-quiet, Ends-ret, Ends-call, Ends-patch, AnyReply,
}
use incident_bench.Cluster.Server.{Server, IsLawful, exec, exec-Ends}
use incident_bench.Operator.{
  Action, await_change, phase_of, is_cleaned, finish, reconcile, reconcile_in,
}
use incident_bench.Operator.Cleaning
use incident_bench.Operator.Lifecycle.{is_terminal, reconciled}
use incident_bench.Operator.Lifecycle.Rounds.{Follows-rank_le, reconciled-Follows}
use incident_bench.Operator.Lifecycle.Quiet.{try-IsQuiet}
use incident_bench.Operator.Lifecycle.Closing.{
  delete_all-IsQuiet, delete_topics_of-IsQuiet, clean_target-IsQuiet,
}

module _ {F J : Type 0} where
  -- A program that returns leaves the run marked.
  abbrev Marks : {A : Type 0} → Option (IncidentBenchRunStatus F) → Prog F J A → Type 0
  Marks {A} st m = Ends AnyReply (λ st' r. (a : A) → r ≡ ok a → is_cleaned st' ≡ true) st m

module _ (F J : Type 0) where
  mark_cleaned-Marks :
      (st : Option (IncidentBenchRunStatus F)) → Marks st (Cleaning.mark_cleaned {F = F} {J = J})
  unfolding Cleaning.mark_cleaned merge_patch merge_entry read_condition is_cleaned
  mark_cleaned-Marks st = Ends-call _ _ st _ _ λ reply g.
      Ends-quiet _ _ st (try reply) _ (try-IsQuiet F J reply)
        (λ _. Ends-call _ _ st _ _ λ time g'. Ends-patch _ _ st _ (λ a h. refl) λ e g'' a h. cc)
        (λ e a h. cc)

module _ {F J : Type 0} ⦃fl : F64 F⦄ ⦃pf : Platform J⦄ where
  handle_cleanup-Marks :
      (st : Option (IncidentBenchRunStatus F)) (run : IncidentBenchRun F J)
      → Marks st (Cleaning.handle_cleanup run)
  unfolding Cleaning.handle_cleanup
  handle_cleanup-Marks st run =
      Ends-quiet _ _ st (Cleaning.delete_all run) _ (delete_all-IsQuiet F J run)
        (λ _.
          Ends-quiet _ _ st (Cleaning.clean_target run run.spec.scenario) _
            (clean_target-IsQuiet F J run _)
            (λ _.
              Ends-quiet _ _ st (Cleaning.delete_topics_of run run.spec.scenario) _
                (delete_topics_of-IsQuiet F J run _) (λ _. mark_cleaned-Marks F J st) (λ e a h. cc))
            (λ e a h. cc))
        (λ e a h. cc)

  finish-Marks :
      (st : Option (IncidentBenchRunStatus F)) (run : IncidentBenchRun F J) (cleaned : Bool)
      → is_cleaned st ≡ cleaned
      → Marks st (finish cleaned run)
  unfolding finish
  finish-Marks st run true e = Ends-ret _ _ st _ λ a h. e
  finish-Marks st run false e =
      Ends-bind _ _ _ st _ _ (handle_cleanup-Marks st run)
        (λ st' u h. Ends-ret _ _ st' _ λ a k. h u refl) (λ st' x h a k. cc)

  reconcile_in-Marks :
      (p : LifecyclePhase) (run : IncidentBenchRun F J)
      → is_terminal p ≡ true
      → Marks run.status (reconcile_in p run)
  unfolding reconcile_in
  reconcile_in-Marks pending run t = cc
  reconcile_in-Marks preparing run t = cc
  reconcile_in-Marks initializing run t = cc
  reconcile_in-Marks running run t = cc
  reconcile_in-Marks aggregating run t = cc
  reconcile_in-Marks reporting run t = cc
  reconcile_in-Marks completed run t = finish-Marks run.status run _ refl
  reconcile_in-Marks failed run t = finish-Marks run.status run _ refl

  finish_cleaned :
      (b : Bool) (run : IncidentBenchRun F J) → b ≡ true → finish b run ≡ ret await_change
  unfolding finish
  finish_cleaned true run h = refl
  finish_cleaned false run h = cc

  rests_in :
      (p : LifecyclePhase) (run : IncidentBenchRun F J)
      → is_terminal p ≡ true
      → is_cleaned run.status ≡ true
      → reconcile_in p run ≡ ret await_change
  unfolding reconcile_in
  rests_in pending run t h = cc
  rests_in preparing run t h = cc
  rests_in initializing run t h = cc
  rests_in running run t h = cc
  rests_in aggregating run t h = cc
  rests_in reporting run t h = cc
  rests_in completed run t h = finish_cleaned _ run h
  rests_in failed run t h = finish_cleaned _ run h

  -- A run that has completed or failed is cleaned up once: where a reconciliation of it returns,
  -- against a lawful server, every later one makes no request and waits for a change.
  pub cleaned_once :
      (sv : Server F J)
      → IsLawful sv
      → (run later : IncidentBenchRun F J) (s : sv.State) (a : Action)
      → is_terminal (phase_of (sv.status s)) ≡ true
      → (exec sv (reconcile (record run { status = sv.status s })) s).0 ≡ ok a
      → reconcile (record later { status = sv.status (reconciled sv run s) }) ≡ ret await_change
  unfolding reconcile reconciled
  cleaned_once sv lawful run later s a t returned =
      let stays = (Follows-rank_le _ _ (reconciled-Follows sv lawful run s)).1 t in
      rests_in (phase_of (sv.status (reconciled sv run s)))
        (record later { status = sv.status (reconciled sv run s) }) (rw stays t)
        (exec-Ends sv AnyReply (λ st' r. (a : Action) → r ≡ ok a → is_cleaned st' ≡ true) lawful
          (λ _ _. tt) (reconcile_in (phase_of (sv.status s)) (record run { status = sv.status s }))
          s (reconcile_in-Marks (phase_of (sv.status s)) (record run { status = sv.status s }) t) a
          returned)
