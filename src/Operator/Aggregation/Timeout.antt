-- ===== src/Operator/Aggregation/Timeout.antt =====
-- An aggregation that does not end.
use mathlib.Core.Path.{subst}
use incident_bench.Base.{
  ℤ, if◌then◌else◌, pos, leb_ℤ, ◌≡◌, refl, sym, false, Option, none, some, unwrap_or, F64, String,
}
use incident_bench.Crd.{IncidentBenchRun}
use incident_bench.Crd.Status.{
  IncidentBenchRunStatus, aggregating, reporting, merge_patch, merge_entry,
}
use incident_bench.Cluster.{
  Prog, Request, Reply, Result, ok, err, ret, patch_status, connect, get_aggregation_status,
  elapsed_since,
}
use incident_bench.Cluster.Objects.{Platform}
use incident_bench.Cluster.Paths.{Ends, Ends-bind, Ends-ret, Ends-call, Ends-patch, if-Ends}
use incident_bench.Cluster.Server.{Server, IsLawful, exec-Ends}
use incident_bench.Aggregator.Service.{AggregationStatus}
use incident_bench.Operator.{phase_of, reconcile, reconcile_in}
use incident_bench.Operator.Aggregation.{
  collect_results, wait_or_force, seconds_since, marked_since, aggregating_too_long,
  aggregation_status, connected, handle_aggregating,
}
use incident_bench.Operator.Lifecycle.{reconciled}

abbrev pub IsOk {ℓ κ} : {E : Type ℓ} {A : Type κ} → Result E A → Type 0
IsOk (ok _) = Unit {0}
IsOk (err _) = ⊥

abbrev Long : Option ℤ → Type 0
Long none = ⊥
Long (some n) = leb_ℤ n (pos 120) ≡ false

module _ {F J : Type 0} where
  -- The aggregator answers, in whatever state it is and whether it gives its results or not, the time
  -- since the mark is over 120 seconds, and the status can be patched.
  abbrev pub Overdue : (r : Request F J) → Reply r → Type 0
  Overdue (connect _ _) x = IsOk x
  Overdue (get_aggregation_status _) x = IsOk x
  Overdue (elapsed_since _) x = Long x
  Overdue (patch_status _) x = IsOk x
  Overdue _ x = Unit {0}

  abbrev Collects : {A : Type 0} → Option (IncidentBenchRunStatus F) → Prog F J A → Type 0
  Collects st m = Ends Overdue (λ st' _. phase_of st' ≡ reporting) st m

module _ {F J : Type 0} ⦃fl : F64 F⦄ where
  collect_results-Collects :
      (st : Option (IncidentBenchRunStatus F)) (run : IncidentBenchRun F J)
      → Collects st (collect_results run)
  unfolding collect_results merge_patch merge_entry phase_of
  collect_results-Collects st run =
      Ends-call _ _ st _ _ λ reply g. Ends-patch _ _ st _ refl λ e g'. elim g' [ ]

  forced-Collects :
      (st : Option (IncidentBenchRunStatus F)) (run : IncidentBenchRun F J) (elapsed : Option ℤ)
      → Long elapsed
      → Collects st
          (if aggregating_too_long (unwrap_or elapsed (pos 0)) then collect_results run else ret tt)
  unfolding aggregating_too_long
  forced-Collects st run none h = elim h [ ]
  forced-Collects st run (some n) h = rw h (collect_results-Collects st run)

  wait_or_force-Collects :
      (st : Option (IncidentBenchRunStatus F)) (run : IncidentBenchRun F J) (since : String)
      → marked_since run ≡ some since
      → Collects st (wait_or_force run)
  unfolding wait_or_force seconds_since
  wait_or_force-Collects st run since e =
      rw e (Ends-call _ _ st _ _ λ elapsed g. forced-Collects st run elapsed g)

  aggregation_status-Collects :
      (st : Option (IncidentBenchRunStatus F)) (run : IncidentBenchRun F J) (since : String)
      → marked_since run ≡ some since
      → (reply : Result String AggregationStatus) → IsOk reply
      → Collects st (aggregation_status run reply)
  unfolding aggregation_status
  aggregation_status-Collects st run since e (err x) h = elim h [ ]
  aggregation_status-Collects st run since e (ok s) h =
      if-Ends _ _ st _ _ _ (collect_results-Collects st run) (wait_or_force-Collects st run since e)

  connected-Collects :
      (st : Option (IncidentBenchRunStatus F)) (run : IncidentBenchRun F J) (since : String)
      → marked_since run ≡ some since
      → (channel : Result String (Unit {0})) → IsOk channel
      → Collects st (connected run channel)
  unfolding connected
  connected-Collects st run since e (err x) h = elim h [ ]
  connected-Collects st run since e (ok _) h =
      Ends-call _ _ st _ _ λ reply g. aggregation_status-Collects st run since e reply g

module _ {F J : Type 0} ⦃fl : F64 F⦄ ⦃pf : Platform J⦄ where
  -- An aggregation cannot hold up a run: where the run is marked with the time at which it began to
  -- aggregate, and that was over 120 seconds ago, a reconciliation moves it on to reporting, whatever
  -- state the aggregator is in and whether or not it gives its results, provided that the aggregator
  -- can be reached and the status patched.
  pub reconciled-reporting :
      (sv : Server F J)
      → IsLawful sv
      → ((r : Request F J) (s : sv.State) → Overdue r (sv.handle r s).0)
      → (run : IncidentBenchRun F J) (since : String) (s : sv.State) → marked_since run ≡ some since
      → phase_of (sv.status s) ≡ aggregating
      → phase_of (sv.status (reconciled sv run s)) ≡ reporting
  unfolding reconciled reconcile marked_since
  reconciled-reporting sv lawful overdue run since s e h =
      exec-Ends sv Overdue (λ st' _. phase_of st' ≡ reporting) lawful overdue
        (reconcile_in (phase_of (sv.status s)) (record run { status = sv.status s })) s
        (subst (λ p. Collects (sv.status s) (reconcile_in p (record run { status = sv.status s })))
          (sym h)
          (unfold reconcile_in handle_aggregating in
            Ends-bind _ _ _ (sv.status s) _ _
              (Ends-call _ _ (sv.status s) _ _ λ channel g.
                connected-Collects (sv.status s) (record run { status = sv.status s }) since e
                  channel g)
              (λ st' _ there. Ends-ret _ _ st' _ there) (λ st' x there. there)))
