-- ===== src/Base/Lists.antt =====
-- Lists measured and indexed by native numbers, under the library's names, and the iterator
-- methods that the source calls.
use mathlib.Core.List.{Memᴰ}
use Prim.Native.Nat.{ℕ, zero, suc, ◌+◌, min}
use mathlib.Core.Path.{◌≡◌, refl, ap, ap₂}
use mathlib.Core.Bool.{Bool, true, false, ◌&&◌, ◌||◌}
use mathlib.Core.List.{List, [], ◌∷◌, ◌++◌, map}
use mathlib.Core.Option.{Option, none, some}
use native.Mathlib.Omega.{arith}
use incident_bench.Base.Tests.{if◌then◌else◌}

module _ {ℓ} {A : Type ℓ} where
  abbrev pub length : List A → ℕ
  length [] = 0
  length (x ∷ xs) = suc (length xs)

  abbrev pub is_empty : List A → Bool
  is_empty [] = true
  is_empty (x ∷ xs) = false

  abbrev pub first : List A → Option A
  first [] = none
  first (x ∷ xs) = some x

  abbrev pub last : List A → Option A
  last [] = none
  last (x ∷ []) = some x
  last (x ∷ y ∷ ys) = last (y ∷ ys)

  abbrev pub get_elem? : List A → ℕ → Option A
  get_elem? [] i = none
  get_elem? (x ∷ xs) zero = some x
  get_elem? (x ∷ xs) (suc i) = get_elem? xs i

  abbrev pub take : ℕ → List A → List A
  take zero xs = []
  take (suc n) [] = []
  take (suc n) (x ∷ xs) = x ∷ take n xs

  abbrev pub drop : ℕ → List A → List A
  drop zero xs = xs
  drop (suc n) [] = []
  drop (suc n) (x ∷ xs) = drop n xs

  -- `filter`, `find`, `any` and `all` of an iterator, by a Boolean test.
  abbrev pub filter : (A → Bool) → List A → List A
  filter p [] = []
  filter p (x ∷ xs) = let rest = filter p xs in if p x then x ∷ rest else rest

  abbrev pub find : (A → Bool) → List A → Option A
  find p [] = none
  find p (x ∷ xs) = let rest = find p xs in if p x then some x else rest

  abbrev pub any : (A → Bool) → List A → Bool
  any p [] = false
  any p (x ∷ xs) = p x || any p xs

  abbrev pub all : (A → Bool) → List A → Bool
  all p [] = true
  all p (x ∷ xs) = p x && all p xs

  abbrev pub All {κ} : (A → Type κ) → List A → Type κ
  All P [] = Unit
  All P (x ∷ xs) = P x × All P xs

-- The plain sum, with no wrap-around.
abbrev pub sum : List ℕ → ℕ
sum [] = 0
sum (x ∷ xs) = x + sum xs

module _ {ℓ} {A : Type ℓ} where
  pub length-append : (xs ys : List A) → length (xs ++ ys) ≡ length xs + length ys
  length-append [] ys = omega arith
  length-append (x ∷ xs) ys = omega (arith, length-append xs ys)

  pub length-take : (n : ℕ) (xs : List A) → length (take n xs) ≡ min n (length xs)
  length-take zero xs = omega arith
  length-take (suc n) [] = omega arith
  length-take (suc n) (x ∷ xs) = omega (arith, length-take n xs)

  pub All-append {κ} :
      (Q : A → Type κ) (front back : List A) → All Q front → All Q back → All Q (front ++ back)
  All-append Q [] back _ q = q
  All-append Q (a ∷ front) back p q = let (head, tail) = p in (head, All-append Q front back tail q)

module _ {ℓ κ} {A : Type ℓ} {B : Type κ} (f : A → B) where
  pub get_elem?-map :
      (xs : List A) (i : ℕ) {a : A} → get_elem? xs i ≡ some a → get_elem? (map f xs) i ≡ some (f a)
  get_elem?-map [] i h = cc
  get_elem?-map (x ∷ xs) zero h = ap (λ o. elim o [ none ↦ none | some a ↦ some (f a) ]) h
  get_elem?-map (x ∷ xs) (suc i) h = get_elem?-map xs i h

-- `(i..i + left).map(f)`.
abbrev pub map_range {ℓ} : {A : Type ℓ} → (ℕ → A) → ℕ → ℕ → List A
map_range f i zero = []
map_range f i (suc left) = f i ∷ map_range f (i + 1) left

module _ {ℓ} {A : Type ℓ} where
  pub map_range-add :
      (f : ℕ → A) (i m n : ℕ) → map_range f i (m + n) ≡ map_range f i m ++ map_range f (i + m) n
  map_range-add f i zero n =
      let e : zero + n ≡ n = omega arith in let d : i + 0 ≡ i = omega arith in rw (e, d)
  map_range-add f i (suc m) n =
      let e : suc m + n ≡ suc (m + n) = omega arith in
      let d : i + suc m ≡ i + 1 + m = omega arith in
      rw (e, d) (ap (◌∷◌ (f i)) (map_range-add f (i + 1) m n))

  pub map_range-congr :
      (f g : ℕ → A) (i j n : ℕ)
      → ((k : ℕ) → f (i + k) ≡ g (j + k))
      → map_range f i n ≡ map_range g j n
  map_range-congr f g i j zero h = refl
  map_range-congr f g i j (suc n) h =
      let a : i + 0 ≡ i = omega arith in
      let b : j + 0 ≡ j = omega arith in
      ap₂ (◌∷◌) (rw (a, b) at (h 0)) (
        map_range-congr f g (i + 1) (j + 1) n (λ k.
          let c : i + 1 + k ≡ i + (k + 1) = omega arith in
          let d : j + 1 + k ≡ j + (k + 1) = omega arith in rw (c, d) (h (k + 1))))

  pub length-map_range : (f : ℕ → A) (i n : ℕ) → length (map_range f i n) ≡ n
  length-map_range f i zero = refl
  length-map_range f i (suc n) = ap suc (length-map_range f (i + 1) n)

pub drop-nil {ℓ} : {A : Type ℓ} (n : ℕ) → drop {A = A} n [] ≡ []
drop-nil zero = refl
drop-nil (suc n) = refl

pub All-map {ℓ κ μ} :
    {A : Type ℓ} {B : Type κ} (P : B → Type μ) (f : A → B) (xs : List A)
    → ((x : A) → Memᴰ x xs → P (f x))
    → All P (map f xs)
All-map P f [] h = tt
All-map P f (x ∷ xs) h = (h x (Memᴰ.head refl), All-map P f xs λ y m. h y (Memᴰ.tail m))

pub All-under {ℓ κ μ} :
    {A : Type ℓ} {B : Type κ} (P : B → Type μ) (f : A → B) (xs : List A)
    → All (λ x. P (f x)) xs
    → All P (map f xs)
All-under P f [] h = tt
All-under P f (x ∷ xs) (h, hs) = (h, All-under P f xs hs)
