-- ===== src/Cluster/Server.antt =====
-- The API server that stores the run, and all else that replies to the operator, as an interface: a
-- step on an unknown state, with the documented effect of a merge patch on the run's status.
use incident_bench.Base.{◌≡◌, Option}
use incident_bench.Crd.Status.{IncidentBenchRunStatus}
use incident_bench.Cluster.{Request, Reply, Prog, ret, fail, call, Result, ok, err, KubeError}
use incident_bench.Cluster.Paths.{after, Ends}

pub record Server (F J : Type 0) : Type 1 where
  pub State : Type 0
  pub handle : (r : Request F J) → State → Reply r × State
  pub status : State → Option (IncidentBenchRunStatus F)

-- Only a patch of the status that succeeds changes it, and as a merge patch does.
pub record IsLawful {F J : Type 0} (sv : Server F J) : Type 0 where
  pub status-handle :
      (r : Request F J) (s : sv.State)
      → sv.status (sv.handle r s).1 ≡ after r (sv.handle r s).0 (sv.status s)

module _ {F J : Type 0} where
  -- Runs a program against a server.
  unfoldable pub exec :
      {A : Type 0} (sv : Server F J) → Prog F J A → sv.State → Result KubeError A × sv.State
  exec sv (ret a) s = (ok a, s)
  exec sv (fail e) s = (err e, s)
  exec sv (call r k) s = exec sv (k (sv.handle r s).0) (sv.handle r s).1

  -- What holds at the end of every path holds when the program has run.
  pub exec-Ends :
      {A : Type 0} (sv : Server F J) (G : (r : Request F J) → Reply r → Type 0)
      (Q : Option (IncidentBenchRunStatus F) → Result KubeError A → Type 0)
      → IsLawful sv
      → ((r : Request F J) (s : sv.State) → G r (sv.handle r s).0)
      → (m : Prog F J A) (s : sv.State) → Ends G Q (sv.status s) m
      → Q (sv.status (exec sv m s).1) (exec sv m s).0
  unfolding exec Ends
  exec-Ends sv G Q lawful good (ret a) s h = h
  exec-Ends sv G Q lawful good (fail e) s h = h
  exec-Ends sv G Q lawful good (call r k) s h =
      exec-Ends sv G Q lawful good (k (sv.handle r s).0) (sv.handle r s).1
        (rw (lawful.status-handle r s) (h (sv.handle r s).0 (good r s)))
