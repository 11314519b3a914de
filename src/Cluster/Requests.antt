-- ===== src/Cluster/Requests.antt =====
-- The requests of a program: what holds of each on every path, and that one is made on every path.
use mathlib.Core.List.{Memᴰ}
use incident_bench.Base.{◌≡◌, sym, ap, ◌⊎◌, inl, inr, List, [], ◌∷◌}
use incident_bench.Cluster.{
  Request, Reply, Prog, ret, fail, call, ◌>>=◌, attempt, for_each, Result, ok, err, KubeError, try,
}

module _ {F J : Type 0} where
  -- `P` holds of every request that a path of the program makes.
  unfoldable pub Every : {A : Type 0} → (Request F J → Type 0) → Prog F J A → Type 0
  Every P (ret a) = Unit {0}
  Every P (fail e) = Unit {0}
  Every P (call r k) = P r × ((x : Reply r) → Every P (k x))

  -- Every path of the program makes the request.
  unfoldable pub Asks : {A : Type 0} → Request F J → Prog F J A → Type 0
  Asks q (ret a) = ⊥
  Asks q (fail e) = ⊥
  Asks q (call r k) = (r ≡ q) ⊎ ((x : Reply r) → Asks q (k x))

  module _ {A : Type 0} (P : Request F J → Type 0) where
    pub Every-ret : (a : A) → Every P (ret a)
    unfolding Every
    Every-ret a = tt

    pub Every-call :
        (r : Request F J) (k : Reply r → Prog F J A)
        → P r
        → ((x : Reply r) → Every P (k x))
        → Every P (call r k)
    unfolding Every
    Every-call r k h g = (h, g)

    pub Every-try : (x : Result KubeError A) → Every P (try {F = F} {J = J} x)
    unfolding Every
    Every-try (ok a) = tt
    Every-try (err e) = tt

  pub Every-bind :
      {A B : Type 0} (P : Request F J → Type 0) (m : Prog F J A) (f : A → Prog F J B)
      → Every P m
      → ((a : A) → Every P (f a))
      → Every P (m >>= f)
  unfolding Every
  Every-bind P (ret a) f h k = k a
  Every-bind P (fail e) f h k = tt
  Every-bind P (call r m) f (h, g) k = (h, λ x. Every-bind P (m x) f (g x) k)

  pub Asks-bind :
      {A B : Type 0} (q : Request F J) (m : Prog F J A) (f : A → Prog F J B)
      → Asks q m
      → Asks q (m >>= f)
  unfolding Asks
  Asks-bind q (ret a) f h = elim h [ ]
  Asks-bind q (fail e) f h = elim h [ ]
  Asks-bind q (call r k) f (inl e) = inl e
  Asks-bind q (call r k) f (inr h) = inr λ x. Asks-bind q (k x) f (h x)

  pub for_each-Asks :
      {A : Type 0} (f : A → Request F J) (x : A) (xs : List A)
      → Memᴰ x xs
      → Asks (f x) (for_each xs λ y. attempt (f y))
  unfolding Asks
  for_each-Asks f x [] m = elim m [ ]
  for_each-Asks f x (y ∷ ys) (Memᴰ.head e) = inl (ap f (sym e))
  for_each-Asks f x (y ∷ ys) (Memᴰ.tail m) = inr λ _. for_each-Asks f x ys m
