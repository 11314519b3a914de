-- ===== src/Scenario/Session/Grouping.antt =====
-- The session that the operator derives from the categories of the query mix.
use mathlib.Core.Path.{subst}
use mathlib.Core.List.{append-nil, append_assoc}
use incident_bench.Base.{
  ◌↔◌, ◌≡◌, refl, sym, ◌∙◌, ◌⊎◌, inl, inr, ◌≢◌, String, true, List, [], ◌∷◌, ◌++◌, map, filter,
  arith, str_eq, eq_iff, if◌then◌else◌, is_some, unwrap_or, lookup, insert, remove, lookup-insert,
  lookup-remove, Bool-cases,
}
use incident_bench.Scenario.{sequential, QueryDef, QueryCategory}
use incident_bench.Scenario.Validate.Emptiness.{In, Distinct}
use incident_bench.Scenario.Session.{Groups, category_of, group_queries, take_groups, auto_session}

-- The queries of a category, in the order of the mix.
abbrev pub members : String → List QueryDef → List QueryDef
members name queries = filter (λ q. str_eq (category_of q) name) queries

abbrev pub queries_in : Groups → String → List QueryDef
queries_in groups name = unwrap_or (lookup name groups) []

abbrev pub sequential_category : List QueryDef → String → QueryCategory
sequential_category queries name = record {
  name = name;
  queries = members name queries;
  iteration = sequential;
  parallelism = 1;
}

-- The loop's state after the queries `seen`.
record Grouped (seen : List QueryDef) (order : List String) (groups : Groups) : Type 0 where
  distinct : Distinct order
  filed : (k : String) → queries_in groups k ≡ members k seen
  listed : (k : String) → is_some (lookup k groups) ≡ true → In k order
  only : (k : String) → In k order → is_some (lookup k groups) ≡ true
  full : (k : String) → is_some (lookup k groups) ≡ true → members k seen ≢ []

members-snoc :
    (k : String) (seen : List QueryDef) (q : QueryDef)
    → members k (seen ++ q ∷ [])
      ≡ (if str_eq (category_of q) k then members k seen ++ q ∷ [] else members k seen)
members-snoc k [] q = ground arith
members-snoc k (x ∷ xs) q = ground (arith, members-snoc k xs q)

snoc-ne-nil {ℓ} : {A : Type ℓ} (xs : List A) (a : A) → xs ++ a ∷ [] ≢ []
snoc-ne-nil [] a h = cc
snoc-ne-nil (x ∷ xs) a h = cc

In-append : (k : String) (xs : List String) (a : String) → In k (xs ++ a ∷ []) → In k xs ⊎ (a ≡ k)
In-append k [] a h = elim h [ inl e ↦ inr e | inr n ↦ absurd n ]
In-append k (x ∷ xs) a h = elim h [
  | inl e ↦ inl (inl e)
  | inr i ↦ elim (In-append k xs a i) [ inl j ↦ inl (inr j) | inr e ↦ inr e ]
]

append-In : (k : String) (xs : List String) (a : String) → In k xs ⊎ (a ≡ k) → In k (xs ++ a ∷ [])
append-In k [] a h = elim h [ inl n ↦ absurd n | inr e ↦ inl e ]
append-In k (x ∷ xs) a h = elim h [
  | inl i ↦ elim i [ inl e ↦ inl e | inr j ↦ inr (append-In k xs a (inl j)) ]
  | inr e ↦ inr (append-In k xs a (inr e))
]

Distinct-append :
    (xs : List String) (a : String) → Distinct xs → ¬ In a xs → Distinct (xs ++ a ∷ [])
Distinct-append [] a d n = ((λ i. i), tt)
Distinct-append (x ∷ xs) a d n = (
  λ i. elim (In-append x xs a i) [ inl j ↦ d.0 j | inr e ↦ n (inl (sym e)) ],
  Distinct-append xs a d.1 (λ i. n (inr i)),
)

abbrev step_order : List String → Groups → QueryDef → List String
step_order order groups q =
    if is_some (lookup (category_of q) groups) then order else order ++ category_of q ∷ []

abbrev step_groups : Groups → QueryDef → Groups
step_groups groups q = insert (category_of q) (queries_in groups (category_of q) ++ q ∷ []) groups

module _ (seen : List QueryDef) (order : List String) (groups : Groups) (q : QueryDef)
    (g : Grouped seen order groups) where
  abbrev grown : List QueryDef
  grown = queries_in groups (category_of q) ++ q ∷ []

  step-Distinct : Distinct (step_order order groups q)
  step-Distinct = elim (Bool-cases (is_some (lookup (category_of q) groups))) [
    | inl old ↦ rw old g.distinct
    | inr new ↦ rw new (
        Distinct-append order (category_of q) g.distinct
          λ i. let h = g.only (category_of q) i in cc)
  ]

  step-filed : (k : String) → queries_in (step_groups groups q) k ≡ members k (seen ++ q ∷ [])
  step-filed k = ground (
    arith,
    lookup-insert (category_of q) k grown groups,
    members-snoc k seen q,
    eq_iff (category_of q) k,
    g.filed k,
  )

  step-listed :
      (k : String)
      → is_some (lookup k (step_groups groups q)) ≡ true
      → In k (step_order order groups q)
  step-listed k h = ground (
    arith,
    lookup-insert (category_of q) k grown groups,
    eq_iff (category_of q) k,
    g.listed k,
    append-In k order (category_of q),
  )

  step-only :
      (k : String)
      → In k (step_order order groups q)
      → is_some (lookup k (step_groups groups q)) ≡ true
  step-only k h = ground (
    arith,
    lookup-insert (category_of q) k grown groups,
    eq_iff (category_of q) k,
    g.only k,
    In-append k order (category_of q),
  )

  step-full :
      (k : String)
      → is_some (lookup k (step_groups groups q)) ≡ true
      → members k (seen ++ q ∷ []) ≢ []
  step-full k h = ground (
    arith,
    lookup-insert (category_of q) k grown groups,
    eq_iff (category_of q) k,
    members-snoc k seen q,
    snoc-ne-nil (members k seen) q,
    g.full k,
  )

  step-Grouped : Grouped (seen ++ q ∷ []) (step_order order groups q) (step_groups groups q)
  step-Grouped = record {
    distinct = step-Distinct;
    filed = step-filed;
    listed = step-listed;
    only = step-only;
    full = step-full;
  }

group_queries-Grouped :
    (queries seen : List QueryDef) (order : List String) (groups : Groups)
    → Grouped seen order groups
    → Grouped
        (seen ++ queries)
        (group_queries order groups queries).0
        (group_queries order groups queries).1
unfolding group_queries
group_queries-Grouped [] seen order groups g = rw append-nil g
group_queries-Grouped (q ∷ rest) seen order groups g =
    subst
      (λ l.
        Grouped l (group_queries order groups (q ∷ rest)).0
          (group_queries order groups (q ∷ rest)).1)
      (append_assoc seen (q ∷ []) rest)
      (group_queries-Grouped rest (seen ++ q ∷ []) (step_order order groups q)
        (step_groups groups q) (step-Grouped seen order groups q g))

nothing-Grouped : Grouped [] [] []
unfolding lookup
nothing-Grouped = record {
  distinct = tt;
  filed = λ k. refl;
  listed = λ k h. cc;
  only = λ k i. absurd i;
  full = λ k h. cc;
}

take_groups-members :
    (queries : List QueryDef) (order : List String) (groups : Groups)
    → Distinct order
    → ((n : String) → In n order → queries_in groups n ≡ members n queries)
    → take_groups groups order ≡ map (sequential_category queries) order
unfolding take_groups
take_groups-members queries [] groups d h = refl
take_groups-members queries (name ∷ rest) groups d h = λ i.
    record { name = name; queries = h name (inl refl) i; iteration = sequential; parallelism = 1 }
    ∷ take_groups-members queries rest (remove name groups) d.1 still i
  where
    still : (n : String) → In n rest → queries_in (remove name groups) n ≡ members n queries
    still n i = elim (Bool-cases (str_eq name n)) [
      | inl same ↦ absurd (d.0 (subst (λ k. In k rest) (sym ((eq_iff name n).0 same)) i))
      | inr other ↦ rw (lookup-remove name n groups, other) (h n (inr i))
    ]

queries_in-ne-nil :
    (groups : Groups) (k : String) → queries_in groups k ≢ [] → is_some (lookup k groups) ≡ true
queries_in-ne-nil groups k h = ground arith

-- The categories of the derived session are distinct names in some order, each with just the
-- queries of the mix that carry it, in the order of the mix, fired one at a time in turn; a name is
-- among them exactly when a query of the mix carries it.
pub auto_session-partition :
    (queries : List QueryDef)
    → (order : List String) × ((auto_session queries).categories
        ≡ map (sequential_category queries) order)
      × Distinct order
      × ((k : String) → In k order ↔ (members k queries ≢ []))
unfolding auto_session
auto_session-partition queries =
    let (order, groups) = group_queries [] [] queries in
    let g : Grouped queries order groups = group_queries-Grouped queries [] [] [] nothing-Grouped in
    (
      order,
      take_groups-members queries order groups g.distinct (λ n i. g.filed n),
      g.distinct,
      λ k. (
        λ i. g.full k (g.only k i),
        λ h. g.listed k (queries_in-ne-nil groups k (λ e. h (sym (g.filed k) ∙ e))),
      ),
    )
