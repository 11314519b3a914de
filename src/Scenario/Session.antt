-- ===== src/Scenario/Session.antt =====
-- Session mode: `derive_query_session` of crates/incidentbench-operator/src/resources.rs, and
-- `SessionCategory` of crates/incidentbench-worker/src/query.rs, its sequential iteration.

pub mod RoundRobin
pub mod Grouping
pub mod Batches
use incident_bench.Base.{
  ℕ, zero, suc, ◌+◌, ◌%◌, String, Bool, true, false, Option, none, some, List, [], ◌∷◌, ◌++◌, map,
  length, ◌==◌, map_range, contains, lookup, insert, remove, unwrap_or, is_some, keys,
  if◌then◌else◌,
}
use incident_bench.Scenario.{
  IterationMode, sequential, weighted_random, QueryDef, QueryCategory, QuerySession, Scenario,
  is_session_mode,
}

abbrev pub Groups : Type 0
Groups = List (String × List QueryDef)

-- `q.category.as_deref().unwrap_or("default")`.
abbrev pub category_of : QueryDef → String
category_of q = unwrap_or q.category "default"

-- The first loop: the categories in the order in which they are seen, and the queries of each.
unfoldable pub group_queries : List String → Groups → List QueryDef → List String × Groups
group_queries order groups [] = (order, groups)
group_queries order groups (q ∷ rest) =
    group_queries
      (if is_some (lookup (category_of q) groups) then order else order ++ category_of q ∷ [])
      (insert (category_of q) (unwrap_or (lookup (category_of q) groups) [] ++ q ∷ []) groups) rest

-- The second loop takes each group out of the map.
unfoldable pub take_groups : Groups → List String → List QueryCategory
take_groups groups [] = []
take_groups groups (name ∷ rest) =
    record {
      name = name;
      queries = unwrap_or (lookup name groups) [];
      iteration = sequential;
      parallelism = 1;
    }
    ∷ take_groups (remove name groups) rest

unfoldable pub auto_session : List QueryDef → QuerySession
auto_session queries =
    let (order, groups) = group_queries [] [] queries in
    record { categories = take_groups groups order; think_time_ms = 0 }

derive {ℓ} : {F : Type ℓ} → Scenario F → Option QuerySession → Option QuerySession
derive s (some session) = some session
derive s none = if is_session_mode s then some (auto_session s.query_mix.queries) else none

-- `derive_query_session`.
unfoldable pub derive_query_session {ℓ} : {F : Type ℓ} → Scenario F → Option QuerySession
unfolding derive
derive_query_session s = derive s s.query_session

pub record SessionCategory : Type 0 where
  pub name : String
  pub queries : List QueryDef
  pub iteration : IterationMode
  pub parallelism : ℕ
  pub cursor : ℕ

-- `SessionCategory::from_query_category`.
unfoldable pub from_query_category : QueryCategory → SessionCategory
from_query_category cat = record {
  name = cat.name;
  queries = cat.queries;
  iteration = cat.iteration;
  parallelism = cat.parallelism;
  cursor = 0;
}

-- The panics: a remainder by 0, and a distribution over no weights.
pub data Batch : Type 0 where
  fired : List ℕ → SessionCategory → Batch
  panicked : Batch

-- The random draws are an argument: `sample i` is the i-th index that the generator gives for a
-- category of the given length.
unfoldable pub next_batch : IterationMode → (ℕ → ℕ → ℕ) → SessionCategory → Batch
next_batch sequential sample c =
    if length c.queries == 0
    then panicked
    else fired (map_range (λ i. (c.cursor + i) % length c.queries) 0 c.parallelism)
        (record c { cursor = (c.cursor + c.parallelism) % length c.queries })
next_batch weighted_random sample c =
    if length c.queries == 0
    then panicked
    else fired (map_range (sample (length c.queries)) 0 c.parallelism) c

-- `SessionCategory::next_batch_indices`.
unfoldable pub next_batch_indices : (ℕ → ℕ → ℕ) → SessionCategory → Batch
unfolding next_batch
next_batch_indices sample c = next_batch c.iteration sample c
