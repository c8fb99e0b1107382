-- ===== src/Runtime/Graph.antt =====
-- `DependencyGraph` of src/runtime.rs: which runtime waits for which.
pub mod Acyclic
pub mod Labels
use salsa.Base.{
  ℕ, zero, suc, Bool, true, false, Option, none, some, List, [], ◌∷◌, ◌++◌, ite, ◌==◌,
  if◌then◌else◌, ℕ_discrete,
}
use salsa.Key.{DatabaseKey, DatabaseKey-discrete}

-- The maps `edges` and `labels`; a missing label reads as the empty vector.
pub record Graph : Type 0 where
  pub edges : ℕ → Option ℕ
  pub labels : DatabaseKey → List ℕ

abbrev pub set_edge : (ℕ → Option ℕ) → ℕ → Option ℕ → ℕ → Option ℕ
set_edge edges from to p = ite (ℕ_discrete p from) to (edges p)

abbrev pub set_label : (DatabaseKey → List ℕ) → DatabaseKey → List ℕ → DatabaseKey → List ℕ
set_label labels key ids k = ite (DatabaseKey-discrete k key) ids (labels k)

-- `DependencyGraph::default`.
unfoldable pub empty : Graph
empty = record { edges = λ p. none; labels = λ k. [] }

-- The `while let` loop of `add_edge` from `p` on: whether it meets `from`. It ends where a
-- runtime waits for nobody; `none` means that the fuel ran out.
unfoldable pub walk : (ℕ → Option ℕ) → ℕ → ℕ → ℕ → Option Bool
walk edges from zero p = none
walk edges from (suc fuel) p = elim (edges p) [
  | none ↦ some false
  | some q ↦ if q == from then some true else walk edges from fuel q
]

pub data Added : Type 0 where
  added : Graph → Added
  refused : Added
  panicked : Added
  out_of_fuel : Added

unfoldable pub insert_edge : Graph → ℕ → DatabaseKey → ℕ → Graph
insert_edge g from key to = record {
  edges = set_edge g.edges from (some to);
  labels = set_label g.labels key (g.labels key ++ from ∷ []);
}

-- `DependencyGraph::add_edge`: `added` is its `true`, `refused` its `false`, after which the graph
-- is as before, and `panicked` its `assert_ne!`.
unfoldable pub add_edge : ℕ → Graph → ℕ → DatabaseKey → ℕ → Added
unfolding walk insert_edge
add_edge fuel g from key to = if from == to then panicked else (elim (walk g.edges from fuel to) [
  | none ↦ out_of_fuel
  | some true ↦ refused
  | some false ↦ added (insert_edge g from key to)
])

-- The loop of `remove_edge`; `none` stands for its `assert_eq!`.
unfoldable pub remove_all : List ℕ → ℕ → (ℕ → Option ℕ) → Option (ℕ → Option ℕ)
remove_all [] to edges = some edges
remove_all (from ∷ ids) to edges = elim (edges from) [
  | none ↦ none
  | some q ↦ if q == to then remove_all ids to (set_edge edges from none) else none
]

-- `DependencyGraph::remove_edge`.
unfoldable pub remove_edge : Graph → DatabaseKey → ℕ → Option Graph
unfolding remove_all
remove_edge g key to = elim (remove_all (g.labels key) to g.edges) [
  | none ↦ none
  | some edges ↦ some (record { edges = edges; labels = set_label g.labels key [] })
]
