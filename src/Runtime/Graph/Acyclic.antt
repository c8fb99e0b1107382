-- ===== src/Runtime/Graph/Acyclic.antt =====
-- The chains of waiting runtimes in `DependencyGraph` of src/runtime.rs, and its `add_edge`.
use salsa.Base.{
  ℕ, zero, suc, ◌<◌, ◌≡◌, ◌≢◌, sym, ◌∙◌, ◌⊎◌, inl, inr, Bool, true, false, Option, none, some,
  if_pos, if_neg, ℕ_discrete, arith, Bool-cases,
}
use salsa.Key.{DatabaseKey}
use salsa.Runtime.Graph.{Graph, set_edge, walk, add_edge, insert_edge, added, refused}

-- The chain of waits that begins at `p` ends at a runtime that waits for nobody.
pub data Ends (edges : ℕ → Option ℕ) : ℕ → Type 0 where
  running : {p : ℕ} → edges p ≡ none → Ends edges p
  waiting : {p : ℕ} (q : ℕ) → edges p ≡ some q → Ends edges q → Ends edges p

abbrev pub IsAcyclic : Graph → Type 0
IsAcyclic g = (p : ℕ) → Ends g.edges p

-- The chain does not meet `from` behind its first member.
abbrev pub Avoids : {edges : ℕ → Option ℕ} {p : ℕ} → ℕ → Ends edges p → Type 0
Avoids from (running e) = Unit {0}
Avoids from (waiting q e rest) = (q ≢ from) × Avoids from rest

abbrev pub chain : {edges : ℕ → Option ℕ} {p : ℕ} → Ends edges p → ℕ
chain (running e) = 0
chain (waiting q e rest) = suc (chain rest)

module _ (edges : ℕ → Option ℕ) (from : ℕ) where
  -- With more fuel than the chain is long, the walk answers, and it answers no exactly if the
  -- chain avoids `from`.
  walk-Avoids :
      (p : ℕ) (c : Ends edges p) (fuel : ℕ)
      → chain c < fuel
      → (met : Bool) × (walk edges from fuel p ≡ some met)
        × (met ≡ false → Avoids from c)
        × (met ≡ true → ¬ Avoids from c)
  unfolding walk
  walk-Avoids p (running e) (suc fuel) h = (false, ground arith, λ _. tt, λ y. cc)
  walk-Avoids p (waiting q e rest) (suc fuel) h = elim (ℕ_discrete q from) [
    | yes same ↦ (true, ground arith, λ n. cc, λ _ a. a.0 same)
    | no other ↦
        let (met, run, avoids, meets) = walk-Avoids q rest fuel (omega arith) in
        (met, ground arith, λ n. (other, avoids n), λ y a. meets y a.1)
  ]
  walk-Avoids p c zero h = absurd (omega arith)

  module _ (to : ℕ) where
    avoiding-Ends :
        (p : ℕ) (c : Ends edges p)
        → p ≢ from
        → Avoids from c
        → Ends (set_edge edges from (some to)) p
    avoiding-Ends p (running e) n a = running (if_neg (ℕ_discrete p from) n _ _ ∙ e)
    avoiding-Ends p (waiting q e rest) n a =
        waiting q (if_neg (ℕ_discrete p from) n _ _ ∙ e) (avoiding-Ends q rest a.0 a.1)

    insert-Ends :
        edges from ≡ none
        → Ends (set_edge edges from (some to)) to
        → (p : ℕ) (c : Ends edges p) → Ends (set_edge edges from (some to)) p
    insert-Ends free end p (running e) = elim (ℕ_discrete p from) [
      | yes same ↦ waiting to (if_pos (ℕ_discrete p from) same _ _) end
      | no other ↦ running (if_neg (ℕ_discrete p from) other _ _ ∙ e)
    ]
    insert-Ends free end p (waiting q e rest) =
        let other : p ≢ from = λ same. ground arith in
        waiting q (if_neg (ℕ_discrete p from) other _ _ ∙ e) (insert-Ends free end q rest)

-- Adding an edge to an acyclic graph, for a runtime that does not wait yet: with more fuel than
-- the chain of `to` is long it ends. It refuses only if the chain of `to` comes back to the
-- runtime, and what it adds leaves the graph acyclic.
pub add_edge-IsAcyclic :
    (g : Graph) (from : ℕ) (key : DatabaseKey) (to fuel : ℕ) (acyclic : IsAcyclic g)
    → g.edges from ≡ none
    → from ≢ to
    → chain (acyclic to) < fuel
    → ((add_edge fuel g from key to ≡ refused) × (¬ Avoids from (acyclic to)))
      ⊎ ((add_edge fuel g from key to ≡ added (insert_edge g from key to))
          × IsAcyclic (insert_edge g from key to))
unfolding add_edge
add_edge-IsAcyclic g from key to fuel acyclic free ne enough =
    let (met, run, avoids, meets) = walk-Avoids g.edges from to (acyclic to) fuel enough in
    elim (Bool-cases met) [
      | inl yes' ↦ inl (ground arith, meets yes')
      | inr no' ↦ inr (
        ground arith,
        λ p.
            insert-Ends g.edges from to free
              (avoiding-Ends g.edges from to to (acyclic to) (λ e. ne (sym e)) (avoids no')) p
              (acyclic p),
      )
    ]
