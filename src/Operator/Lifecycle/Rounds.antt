-- ===== src/Operator/Lifecycle/Rounds.antt =====
-- One reconciliation and many against a lawful server.
use incident_bench.Base.{
  ℕ, zero, suc, ◌≤◌, ◌≡◌, refl, ◌∙◌, sym, inl, inr, Bool, true, false, Option, F64, arith,
}
use incident_bench.Crd.{IncidentBenchRun}
use incident_bench.Crd.Status.{
  LifecyclePhase, IncidentBenchRunStatus, pending, preparing, initializing, running, aggregating,
  reporting, completed, failed,
}
use incident_bench.Cluster.{Prog, ret, ◌>>=◌}
use incident_bench.Cluster.Objects.{Platform}
use incident_bench.Cluster.Paths.{Ends-ret, Ends-bind, AnyReply}
use incident_bench.Cluster.Server.{Server, IsLawful, exec-Ends}
use incident_bench.Operator.{requeue_seconds, phase_of, finish, reconcile, reconcile_in}
use incident_bench.Operator.Lifecycle.{
  Follows, Moves, rank, is_terminal, reconciled, rounds, validated, dry_run, prepared, deployed,
  timeline_complete, collected, reported, pending_failed, preparing_failed, initializing_failed,
  running_failed,
}
use incident_bench.Operator.Lifecycle.Early.{handle_pending-Moves, handle_preparing-Moves}
use incident_bench.Operator.Lifecycle.Late.{
  handle_initializing-Moves, handle_running-Moves, handle_aggregating-Moves,
}
use incident_bench.Operator.Lifecycle.Closing.{handle_reporting-Moves, handle_cleanup-Moves}

pub Follows-rank_le :
    (p q : LifecyclePhase) → Follows p q → (rank p ≤ rank q) × (is_terminal p ≡ true → q ≡ p)
Follows-rank_le p q (inl e) = (rw e (ground arith), λ _. e)
Follows-rank_le _ _ (inr validated) = (ground arith, λ h. cc)
Follows-rank_le _ _ (inr dry_run) = (ground arith, λ h. cc)
Follows-rank_le _ _ (inr prepared) = (ground arith, λ h. cc)
Follows-rank_le _ _ (inr deployed) = (ground arith, λ h. cc)
Follows-rank_le _ _ (inr timeline_complete) = (ground arith, λ h. cc)
Follows-rank_le _ _ (inr collected) = (ground arith, λ h. cc)
Follows-rank_le _ _ (inr reported) = (ground arith, λ h. cc)
Follows-rank_le _ _ (inr pending_failed) = (ground arith, λ h. cc)
Follows-rank_le _ _ (inr preparing_failed) = (ground arith, λ h. cc)
Follows-rank_le _ _ (inr initializing_failed) = (ground arith, λ h. cc)
Follows-rank_le _ _ (inr running_failed) = (ground arith, λ h. cc)

chain :
    (p q r : LifecyclePhase)
    → (rank p ≤ rank q) × (is_terminal p ≡ true → q ≡ p)
    → Follows q r
    → (rank p ≤ rank r) × (is_terminal p ≡ true → r ≡ p)
chain p q r (le, stays) step =
    let (le', stays') = Follows-rank_le q r step in
    (ground arith, λ h. stays' (rw (stays h) h) ∙ stays h)

module _ {F J : Type 0} ⦃fl : F64 F⦄ ⦃pf : Platform J⦄ where
  then_requeue :
      (p : LifecyclePhase) (st : Option (IncidentBenchRunStatus F)) (m : Prog F J (Unit {0}))
      → Moves p st m
      → Moves p st (m >>= λ _. ret (requeue_seconds 5))
  then_requeue p st m h =
      Ends-bind _ _ _ st m _ h (λ st' _ moved. Ends-ret _ _ st' _ moved) (λ st' e moved. moved)

  finish-Moves :
      (p : LifecyclePhase) (st : Option (IncidentBenchRunStatus F)) (cleaned : Bool)
      (run : IncidentBenchRun F J)
      → phase_of st ≡ p
      → Moves p st (finish cleaned run)
  unfolding finish
  finish-Moves p st true run h = Ends-ret _ _ st _ (inl h)
  finish-Moves p st false run h =
      Ends-bind _ _ _ st _ _ (handle_cleanup-Moves F J p st run h)
        (λ st' _ moved. Ends-ret _ _ st' _ moved) (λ st' e moved. moved)

  reconcile_in-Moves :
      (p : LifecyclePhase) (st : Option (IncidentBenchRunStatus F)) (run : IncidentBenchRun F J)
      → phase_of st ≡ p
      → Moves p st (reconcile_in p run)
  unfolding reconcile_in
  reconcile_in-Moves pending st run h =
      then_requeue pending st _ (handle_pending-Moves F J st run h)
  reconcile_in-Moves preparing st run h =
      then_requeue preparing st _ (handle_preparing-Moves F J st run h)
  reconcile_in-Moves initializing st run h =
      then_requeue initializing st _ (handle_initializing-Moves F J st run h)
  reconcile_in-Moves running st run h =
      then_requeue running st _ (handle_running-Moves F J st run h)
  reconcile_in-Moves aggregating st run h =
      then_requeue aggregating st _ (handle_aggregating-Moves F J st run h)
  reconcile_in-Moves reporting st run h =
      then_requeue reporting st _ (handle_reporting-Moves F J st run h)
  reconcile_in-Moves completed st run h = finish-Moves completed st _ run h
  reconcile_in-Moves failed st run h = finish-Moves failed st _ run h

  module _ (sv : Server F J) (lawful : IsLawful sv) where
    -- Against a lawful server, whatever it replies, one reconciliation of the stored run leaves the
    -- stored phase as it is, or moves it to one that `Step` lets follow it.
    pub reconciled-Follows :
        (run : IncidentBenchRun F J) (s : sv.State)
        → Follows (phase_of (sv.status s)) (phase_of (sv.status (reconciled sv run s)))
    unfolding reconciled reconcile
    reconciled-Follows run s =
        exec-Ends sv AnyReply (λ st' _. Follows (phase_of (sv.status s)) (phase_of st')) lawful
          (λ _ _. tt) (reconcile_in (phase_of (sv.status s)) (record run { status = sv.status s }))
          s (reconcile_in-Moves (phase_of (sv.status s)) (sv.status s) _ refl)

    -- Over any number of reconciliations of a run, against a lawful server, with other actors that keep
    -- the run's status in between: the phase never goes back, and a run that has completed or failed
    -- stays so.
    pub rounds-rank_le :
        (runs : ℕ → IncidentBenchRun F J) (others : ℕ → sv.State → sv.State)
        → ((n : ℕ) (s : sv.State) → sv.status (others n s) ≡ sv.status s)
        → (n : ℕ) (s : sv.State)
        → (rank (phase_of (sv.status s)) ≤ rank (phase_of (sv.status (rounds sv runs others n s))))
          × (is_terminal (phase_of (sv.status s)) ≡ true
              → phase_of (sv.status (rounds sv runs others n s)) ≡ phase_of (sv.status s))
    unfolding rounds
    rounds-rank_le runs others keeps zero s = (ground arith, λ _. refl)
    rounds-rank_le runs others keeps (suc n) s =
        let s' = others n (rounds sv runs others n s) in
        chain (phase_of (sv.status s)) (phase_of (sv.status (rounds sv runs others n s)))
          (phase_of (sv.status (reconciled sv (runs n) s'))) (rounds-rank_le runs others keeps n s)
          (rw (sym (keeps n (rounds sv runs others n s))) (reconciled-Follows (runs n) s'))
