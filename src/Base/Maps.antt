-- ===== src/Base/Maps.antt =====
-- `HashMap<String, V>` as an association list with one entry for a key. The order of the list
-- stands for the order of iteration, which the source leaves open.
use Prim.Native.String.{String}
use mathlib.Core.Path.{◌≡◌, refl}
use mathlib.Core.Bool.{Bool, false, ◌||◌}
use mathlib.Core.List.{List, [], ◌∷◌, map}
use mathlib.Core.Option.{Option, none, some}
use native.Mathlib.Omega.{arith}
use text.Mathlib.Text.{◌==◌ as str_eq}
use text.Mathlib.TextEquality.{eq_iff}
use incident_bench.Base.Tests.{if◌then◌else◌}

-- `contains` of a list or a `HashSet` of strings.
abbrev pub contains : List String → String → Bool
contains [] a = false
contains (x ∷ xs) a = str_eq x a || contains xs a

module _ {ℓ} {V : Type ℓ} where
  unfoldable pub lookup : String → List (String × V) → Option V
  lookup k [] = none
  lookup k ((j, v) ∷ m) = if str_eq j k then some v else lookup k m

  unfoldable pub insert : String → V → List (String × V) → List (String × V)
  insert k v [] = (k, v) ∷ []
  insert k v ((j, w) ∷ m) = if str_eq j k then (k, v) ∷ m else (j, w) ∷ insert k v m

  unfoldable pub remove : String → List (String × V) → List (String × V)
  remove k [] = []
  remove k ((j, w) ∷ m) = let rest = remove k m in if str_eq j k then rest else (j, w) ∷ rest

  abbrev pub keys : List (String × V) → List String
  keys m = map (λ (e : String × V). e.0) m

  pub lookup-insert :
      (a b : String) (new : V) (entries : List (String × V))
      → lookup b (insert a new entries) ≡ (if str_eq a b then some new else lookup b entries)
  unfolding insert lookup
  lookup-insert a b new [] = refl
  lookup-insert a b new ((c, old) ∷ entries) =
      let same = eq_iff a b in
      let here = eq_iff c a in ground (arith, same, here, eq_iff c b, lookup-insert a b new entries)

  pub lookup-remove :
      (k j : String) (m : List (String × V))
      → lookup j (remove k m) ≡ (if str_eq k j then none else lookup j m)
  unfolding lookup remove
  lookup-remove k j [] = ground arith
  lookup-remove k j ((i, w) ∷ m) =
      ground (arith, eq_iff k j, eq_iff i k, eq_iff i j, lookup-remove k j m)
