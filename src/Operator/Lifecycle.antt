-- ===== src/Operator/Lifecycle.antt =====
-- The life of a run: which phase may follow which, and what one reconciliation does to the stored
-- phase.
pub mod Quiet
pub mod Early
pub mod Late
pub mod Closing
pub mod Rounds
pub mod Once
pub mod Gate
use incident_bench.Base.{ℕ, zero, suc, ◌≡◌, ◌⊎◌, Bool, true, false, Option, F64}
use incident_bench.Crd.{IncidentBenchRun}
use incident_bench.Crd.Status.{
  LifecyclePhase, IncidentBenchRunStatus, pending, preparing, initializing, running, aggregating,
  reporting, completed, failed,
}
use incident_bench.Cluster.{Prog}
use incident_bench.Cluster.Server.{Server, exec}
use incident_bench.Cluster.Objects.{Platform}
use incident_bench.Cluster.Paths.{Ends, AnyReply}
use incident_bench.Operator.{phase_of, reconcile}

-- One move of the phase.
pub data Step : LifecyclePhase → LifecyclePhase → Type 0 where
  validated : Step pending preparing
  dry_run : Step pending completed
  prepared : Step preparing initializing
  deployed : Step initializing running
  timeline_complete : Step running aggregating
  collected : Step aggregating reporting
  reported : Step reporting completed
  pending_failed : Step pending failed
  preparing_failed : Step preparing failed
  initializing_failed : Step initializing failed
  running_failed : Step running failed

abbrev pub Follows : LifecyclePhase → LifecyclePhase → Type 0
Follows p q = (q ≡ p) ⊎ Step p q

module _ {F J : Type 0} where
  -- Every path of a program leads from the phase `p` to one that may follow it.
  abbrev pub Moves :
      {A : Type 0} → LifecyclePhase → Option (IncidentBenchRunStatus F) → Prog F J A → Type 0
  Moves p st m = Ends AnyReply (λ st' _. Follows p (phase_of st')) st m

-- How far a run has come.
abbrev pub rank : LifecyclePhase → ℕ
rank pending = 0
rank preparing = 1
rank initializing = 2
rank running = 3
rank aggregating = 4
rank reporting = 5
rank completed = 6
rank failed = 6

abbrev pub is_terminal : LifecyclePhase → Bool
is_terminal completed = true
is_terminal failed = true
is_terminal _ = false

module _ {F J : Type 0} ⦃fl : F64 F⦄ ⦃pf : Platform J⦄ (sv : Server F J) where
  -- The controller reconciles the stored run: any metadata and specification, with the stored status.
  unfoldable pub reconciled : IncidentBenchRun F J → sv.State → sv.State
  reconciled run s = (exec sv (reconcile (record run { status = sv.status s })) s).1

  -- Reconciliations in turn, the last one first: what the run is at each, and what others do to the
  -- state before it.
  unfoldable pub rounds :
      (ℕ → IncidentBenchRun F J) → (ℕ → sv.State → sv.State) → ℕ → sv.State → sv.State
  rounds runs others zero s = s
  rounds runs others (suc n) s = reconciled (runs n) (others n (rounds runs others n s))
