-- ===== src/Cluster/Paths.antt =====
-- The paths of a program: what holds at the end of each path whose replies are as expected, with the
-- stored status followed from reply to reply.
use incident_bench.Base.{
  ◌≡◌, Bool, true, false, Option, some, List, [], ◌∷◌, unwrap_or, if◌then◌else◌,
}
use incident_bench.Crd.Status.{IncidentBenchRunStatus, StatusEntry, default_status, merge_patch}
use incident_bench.Cluster.{
  Request, Reply, Prog, ret, fail, call, ◌>>=◌, for_each, Result, ok, err, KubeError, patch_status,
  set_status,
}

module _ {F J : Type 0} where
  -- The stored status after a request, by its reply.
  abbrev pub after :
      (r : Request F J)
      → Reply r
      → Option (IncidentBenchRunStatus F)
      → Option (IncidentBenchRunStatus F)
  after (patch_status entries) (ok _) st = some (merge_patch entries (unwrap_or st default_status))
  after (patch_status entries) (err _) st = st
  after _ _ st = st

  -- `Q` holds of the status and the result at the end of every path of `m` from the status `st`,
  -- where each reply is as `G` expects.
  unfoldable pub Ends :
      {A : Type 0} (G : (r : Request F J) → Reply r → Type 0)
      → (Option (IncidentBenchRunStatus F) → Result KubeError A → Type 0)
      → Option (IncidentBenchRunStatus F)
      → Prog F J A
      → Type 0
  Ends G Q st (ret a) = Q st (ok a)
  Ends G Q st (fail e) = Q st (err e)
  Ends G Q st (call r k) = (x : Reply r) → G r x → Ends G Q (after r x st) (k x)

  -- A program none of whose requests changes the status.
  abbrev pub IsQuiet : {A : Type 0} → Prog F J A → Type 0
  IsQuiet (ret a) = Unit {0}
  IsQuiet (fail e) = Unit {0}
  IsQuiet (call r k) =
      ((x : Reply r) (st : Option (IncidentBenchRunStatus F)) → after r x st ≡ st)
      × ((x : Reply r) → IsQuiet (k x))

  pub Ends-ret :
      {A : Type 0} (G : (r : Request F J) → Reply r → Type 0)
      (Q : Option (IncidentBenchRunStatus F) → Result KubeError A → Type 0)
      (st : Option (IncidentBenchRunStatus F)) (a : A)
      → Q st (ok a)
      → Ends G Q st (ret a)
  unfolding Ends
  Ends-ret G Q st a h = h

  pub Ends-call :
      {A : Type 0} (G : (r : Request F J) → Reply r → Type 0)
      (Q : Option (IncidentBenchRunStatus F) → Result KubeError A → Type 0)
      (st : Option (IncidentBenchRunStatus F)) (r : Request F J) (k : Reply r → Prog F J A)
      → ((x : Reply r) → G r x → Ends G Q (after r x st) (k x))
      → Ends G Q st (call r k)
  unfolding Ends
  Ends-call G Q st r k h = h

  pub Ends-patch :
      (G : (r : Request F J) → Reply r → Type 0)
      (Q : Option (IncidentBenchRunStatus F) → Result KubeError (Unit {0}) → Type 0)
      (st : Option (IncidentBenchRunStatus F)) (entries : List (StatusEntry F))
      → Q (some (merge_patch entries (unwrap_or st default_status))) (ok tt)
      → ((e : KubeError) → G (patch_status entries) (err e) → Q st (err e))
      → Ends G Q st (set_status entries)
  unfolding Ends
  Ends-patch G Q st entries h k (ok _) g = h
  Ends-patch G Q st entries h k (err e) g = k e g

  module _ {A B : Type 0} (G : (r : Request F J) → Reply r → Type 0) where
    pub Ends-bind :
        (R : Option (IncidentBenchRunStatus F) → Result KubeError A → Type 0)
        (Q : Option (IncidentBenchRunStatus F) → Result KubeError B → Type 0)
        (st : Option (IncidentBenchRunStatus F)) (m : Prog F J A) (f : A → Prog F J B)
        → Ends G R st m
        → ((st' : Option (IncidentBenchRunStatus F)) (a : A) → R st' (ok a) → Ends G Q st' (f a))
        → ((st' : Option (IncidentBenchRunStatus F)) (e : KubeError)
            → R st' (err e)
            → Q st' (err e))
        → Ends G Q st (m >>= f)
    unfolding Ends
    Ends-bind R Q st (ret a) f h onward stop = onward st a h
    Ends-bind R Q st (fail e) f h onward stop = stop st e h
    Ends-bind R Q st (call r k) f h onward stop =
        λ x g. Ends-bind R Q (after r x st) (k x) f (h x g) onward stop

    pub Ends-quiet :
        (Q : Option (IncidentBenchRunStatus F) → Result KubeError B → Type 0)
        (st : Option (IncidentBenchRunStatus F)) (m : Prog F J A) (f : A → Prog F J B)
        → IsQuiet m
        → ((a : A) → Ends G Q st (f a))
        → ((e : KubeError) → Q st (err e))
        → Ends G Q st (m >>= f)
    unfolding Ends
    Ends-quiet Q st (ret a) f h onward stop = onward a
    Ends-quiet Q st (fail e) f h onward stop = stop e
    Ends-quiet Q st (call r k) f (same, h) onward stop =
        λ x g. rw (same x st) (Ends-quiet Q st (k x) f (h x) onward stop)

  pub bind-IsQuiet :
      {A B : Type 0} (m : Prog F J A) (f : A → Prog F J B)
      → IsQuiet m
      → ((a : A) → IsQuiet (f a))
      → IsQuiet (m >>= f)
  bind-IsQuiet (ret a) f h k = k a
  bind-IsQuiet (fail e) f h k = tt
  bind-IsQuiet (call r m) f (same, h) k = (same, λ x. bind-IsQuiet (m x) f (h x) k)

  pub for_each-IsQuiet :
      {A : Type 0} (xs : List A) (f : A → Prog F J (Unit {0}))
      → ((a : A) → IsQuiet (f a))
      → IsQuiet (for_each xs f)
  for_each-IsQuiet [] f h = tt
  for_each-IsQuiet (x ∷ xs) f h = bind-IsQuiet (f x) _ (h x) λ _. for_each-IsQuiet xs f h

  pub if-Ends :
      {A : Type 0} (G : (r : Request F J) → Reply r → Type 0)
      (Q : Option (IncidentBenchRunStatus F) → Result KubeError A → Type 0)
      (st : Option (IncidentBenchRunStatus F)) (b : Bool) (m n : Prog F J A)
      → Ends G Q st m
      → Ends G Q st n
      → Ends G Q st (if b then m else n)
  if-Ends G Q st true m n h k = h
  if-Ends G Q st false m n h k = k

  abbrev pub AnyReply : (r : Request F J) → Reply r → Type 0
  AnyReply r x = Unit {0}
