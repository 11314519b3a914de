-- ===== src/Scenario/Validate/Emptiness.antt =====
-- When a list of collected errors is empty: one rule for each way in which `validate` pushes.
use mathlib.Core.Path.{subst}
use incident_bench.Base.{
  sym, ◌≡◌, refl, ◌↔◌, ◌⊎◌, inl, inr, Bool, true, false, not, String, List, [], ◌∷◌, ◌++◌, map, All,
  contains, if◌then◌else◌, str_eq, eq_iff, arith, is_empty, any, is_some, lookup, keys, ◌≢◌,
}
use incident_bench.Scenario.Validate.{check, for_each, add_name}

-- Membership and distinctness of names, with no reference to a test.
abbrev pub In : String → List String → Type 0
In a [] = ⊥
In a (x ∷ xs) = (x ≡ a) ⊎ In a xs

abbrev pub Distinct : List String → Type 0
Distinct [] = Unit
Distinct (x ∷ xs) = (¬ In x xs) × Distinct xs

module _ {ℓ κ} {E : Type ℓ} {P : Type κ} where
  pub check_iff : (b : Bool) (e : E) → (b ≡ true) ↔ P → (check b e ≡ []) ↔ P
  check_iff true e h = (λ _. h.0 refl, λ _. refl)
  check_iff false e h = (λ q. cc, λ p. let r = h.1 p in cc)

  pub guard_iff :
      (b : Bool) (xs : List E) → (xs ≡ []) ↔ P → ((if b then xs else []) ≡ []) ↔ (b ≡ true → P)
  guard_iff true xs h = (λ q _. h.0 q, λ p. h.1 (p refl))
  guard_iff false xs h = (λ q r. cc, λ p. refl)

module _ {ℓ κ μ} {E : Type ℓ} {P : Type κ} {Q : Type μ} where
  pub append_iff : (xs ys : List E) → (xs ≡ []) ↔ P → (ys ≡ []) ↔ Q → (xs ++ ys ≡ []) ↔ (P × Q)
  append_iff [] ys h k = (λ q. (h.0 refl, k.0 q), λ p. k.1 p.1)
  append_iff (x ∷ xs) ys h k = (λ q. cc, λ p. let r = h.1 p.0 in cc)

pub for_each_iff {ℓ κ μ} :
    {A : Type ℓ} {E : Type κ} (P : A → Type μ) (f : A → List E)
    → ((x : A) → (f x ≡ []) ↔ P x)
    → (xs : List A) → (for_each f xs ≡ []) ↔ All P xs
for_each_iff P f h [] = (λ _. tt, λ _. refl)
for_each_iff P f h (x ∷ xs) = append_iff (f x) (for_each f xs) (h x) (for_each_iff P f h xs)

pub contains_iff : (xs : List String) (a : String) → (contains xs a ≡ true) ↔ In a xs
contains_iff [] a = (λ q. cc, λ p. absurd p)
contains_iff (x ∷ xs) a = ground (arith, eq_iff x a, contains_iff xs a)

pub not_iff {κ} : {P : Type κ} (b : Bool) → (b ≡ true) ↔ P → (not b ≡ true) ↔ (¬ P)
not_iff true h = (λ q. cc, λ p. absurd (p (h.0 refl)))
not_iff false h = (λ _ p. let r = h.1 p in cc, λ _. refl)

pub is_empty_iff {ℓ} : {A : Type ℓ} (xs : List A) → (not (is_empty xs) ≡ true) ↔ (xs ≢ [])
is_empty_iff [] = (λ q. cc, λ p. absurd (p refl))
is_empty_iff (x ∷ xs) = (λ _ q. cc, λ _. refl)

pub any-eq_iff {ℓ} :
    {A : Type ℓ} (f : A → String) (a : String) (xs : List A)
    → (any (λ x. str_eq (f x) a) xs ≡ true) ↔ In a (map f xs)
any-eq_iff f a [] = (λ q. cc, λ p. absurd p)
any-eq_iff f a (x ∷ xs) = ground (arith, eq_iff (f x) a, any-eq_iff f a xs)

pub is_some-lookup_iff {ℓ} :
    {V : Type ℓ} (k : String) (m : List (String × V))
    → (is_some (lookup k m) ≡ true) ↔ In k (keys m)
unfolding lookup
is_some-lookup_iff k [] = (λ q. cc, λ p. absurd p)
is_some-lookup_iff k ((j, v) ∷ m) = ground (arith, eq_iff j k, is_some-lookup_iff k m)

-- The loops keep a set of names: `S` is what it holds.
abbrev pub Holds : List String → (String → Type 0) → Type 0
Holds seen S = (a : String) → (contains seen a ≡ true) ↔ S a

abbrev pub With : String → (String → Type 0) → String → Type 0
With x S a = (x ≡ a) ⊎ S a

pub add_name-Holds :
    (seen : List String) (S : String → Type 0) (x : String)
    → Holds seen S
    → Holds (add_name x seen) (With x S)
add_name-Holds seen S x h a = ground (arith, h x, h a, eq_iff x a)

abbrev pub Fresh : (String → Type 0) → List String → Type 0
Fresh S [] = Unit
Fresh S (x ∷ xs) = (¬ S x) × Fresh (With x S) xs

Fresh-iff :
    (S : String → Type 0) (xs : List String)
    → Fresh S xs ↔ (Distinct xs × ((a : String) → In a xs → ¬ S a))
Fresh-iff S [] = (λ _. (tt, λ a i. absurd i), λ _. tt)
Fresh-iff S (x ∷ xs) =
    let ih = Fresh-iff (With x S) xs in
    (
      λ f.
          let (d, h) = ih.0 f.1 in
          (
            ((λ i. h x i (inl refl)), d),
            λ a i s. elim i [ inl e ↦ f.0 (subst S (sym e) s) | inr j ↦ h a j (inr s) ],
          ),
      λ p. (
        p.1 x (inl refl),
        ih.1 (
          p.0.1,
          λ a i w. elim w [
            | inl e ↦ p.0.0 (subst (λ b. In b xs) (sym e) i)
            | inr s ↦ p.1 a (inr i) s
          ],
        ),
      ),
    )

-- From no names at all, the loop meets only new names exactly when they are distinct.
pub Fresh-nothing_iff : (xs : List String) → Fresh (λ _. ⊥) xs ↔ Distinct xs
Fresh-nothing_iff xs =
    (λ f. ((Fresh-iff (λ _. ⊥) xs).0 f).0, λ d. (Fresh-iff (λ _. ⊥) xs).1 (d, λ a i n. n))
