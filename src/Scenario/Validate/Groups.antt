-- ===== src/Scenario/Validate/Groups.antt =====
-- The checks on query groups report nothing exactly when the groups are well formed.
use incident_bench.Base.{
  ◌≡◌, refl, ◌↔◌, ◌≢◌, Bool, true, false, not, String, Option, none, some, List, [], ◌∷◌, map, All,
  keys, F64, zero_f, contains,
}
use incident_bench.Scenario.{QueryGroup, Scenario}
use incident_bench.Scenario.Validate.{
  ValidationError, unknown_query, check, sums_to_one, query_names, override_errors, groups_errors,
  group_errors, add_name,
}
use incident_bench.Scenario.Validate.Emptiness.{
  In, Distinct, check_iff, append_iff, for_each_iff, contains_iff, not_iff, is_empty_iff, Holds,
  With, add_name-Holds, Fresh, Fresh-nothing_iff,
}

abbrev pub group_names {ℓ} : {F : Type ℓ} → List (QueryGroup F) → List String
group_names groups = map (λ (g : QueryGroup _). g.name) groups

id_iff : {P : Type 0} → P ↔ P
id_iff = (λ p. p, λ p. p)

is_false_iff : (b : Bool) → (not b ≡ true) ↔ (b ≡ false)
is_false_iff true = (λ q. cc, λ q. cc)
is_false_iff false = (λ _. refl, λ _. refl)

module _ {ℓ} {F : Type ℓ} ⦃fl : F64 F⦄ where
  -- The overrides of a group name queries of the mix, and their weights add up to 1.
  abbrev pub OverridesValid : Scenario F → Option (List (String × F)) → Type 0
  OverridesValid s none = Unit
  OverridesValid s (some overrides) =
      All (λ k. In k (query_names s)) (keys overrides)
      × (sums_to_one (map (λ (o : String × F). o.1) overrides) ≡ true)

  -- A group's weight is not zero or below, and its overrides are valid.
  abbrev pub GroupValid : Scenario F → QueryGroup F → Type 0
  GroupValid s g = (fl.le g.weight zero_f ≡ false) × OverridesValid s g.mix_override

  abbrev pub GroupsValid : Scenario F → Option (List (QueryGroup F)) → Type ℓ
  GroupsValid s none = Unit
  GroupsValid s (some groups) =
      (groups ≢ [])
      × (sums_to_one (map (λ (g : QueryGroup F). g.weight) groups) ≡ true)
      × Distinct (group_names groups)
      × All (GroupValid s) groups

  override_errors_iff :
      (s : Scenario F) (group : String) (overrides : Option (List (String × F)))
      → (override_errors s group overrides ≡ []) ↔ OverridesValid s overrides
  unfolding override_errors
  override_errors_iff s group none = (λ _. tt, λ _. refl)
  override_errors_iff s group (some overrides) =
      append_iff _ _
        (for_each_iff {E = ValidationError F} (λ k. In k (query_names s))
          (λ key. check (contains (query_names s) key) (unknown_query group key))
          (λ key. check_iff _ _ (contains_iff (query_names s) key)) (keys overrides))
        (check_iff _ _ id_iff)

  groups_errors_iff :
      (s : Scenario F) (seen : List String) (N : String → Type 0)
      → Holds seen N
      → (groups : List (QueryGroup F))
      → (groups_errors s seen groups ≡ [])
        ↔ (Fresh N (group_names groups) × All (GroupValid s) groups)
  unfolding groups_errors
  groups_errors_iff s seen N hn [] = (λ _. (tt, tt), λ _. refl)
  groups_errors_iff s seen N hn (g ∷ rest) =
      let ih =
        groups_errors_iff s (add_name g.name seen) (With g.name N) (add_name-Holds seen N g.name hn)
          rest in
      let e = append_iff _ _ (check_iff _ _ (not_iff _ (hn g.name))) (
        append_iff _ _ (check_iff _ _ (is_false_iff (fl.le g.weight zero_f)))
          (append_iff _ _ (override_errors_iff s g.name g.mix_override) ih)) in
      (
        λ q. let (a, b) = e.0 q in ((a, b.1.1.0), ((b.0, b.1.0), b.1.1.1)),
        λ p. e.1 (p.0.0, (p.1.0.0, (p.1.0.1, (p.0.1, p.1.1)))),
      )

  pub group_errors_iff :
      (s : Scenario F) (groups : Option (List (QueryGroup F)))
      → (group_errors s groups ≡ []) ↔ GroupsValid s groups
  unfolding group_errors
  group_errors_iff s none = (λ _. tt, λ _. refl)
  group_errors_iff s (some groups) =
      let e = append_iff _ _ (check_iff _ _ (is_empty_iff groups)) (
        append_iff _ _ (check_iff _ _ id_iff)
          (groups_errors_iff s [] (λ _. ⊥) (contains_iff []) groups)) in
      (
        λ q.
            let (a, b) = e.0 q in (a, b.0, (Fresh-nothing_iff (group_names groups)).0 b.1.0, b.1.1),
        λ p. e.1 (p.0, (p.1, ((Fresh-nothing_iff (group_names groups)).1 p.2, p.3))),
      )
