-- ===== src/Derived/Slot/Builders.antt =====
-- The strategies that the builders of src/lib.rs make, and what a sweep does with them.
use salsa.Base.{ℕ, ◌≤◌, ◌≡◌, refl, sym, ◌∙◌, ap, none, some, List, [], ◌∷◌, max, arith}
use salsa.Revision.{Revision}
use salsa.Sweep.{
  DiscardIf, DiscardWhat, SweepStrategy, never, outdated, always, values, everything, if_rank,
  what_rank, default, discard_values, discard_everything, sweep_outdated, sweep_all_revisions,
  max_if, max_what,
}
use salsa.Derived.Memo.{Memo, QueryState, memoized}
use salsa.Derived.Slot.{sweep}
use salsa.Derived.Slot.Collect.{KeepsMemo, sweep_lem}

pub data Step : Type 0 where
  to_values to_everything of_outdated of_all : Step

abbrev pub apply : Step → SweepStrategy → SweepStrategy
apply to_values s = discard_values s
apply to_everything s = discard_everything s
apply of_outdated s = sweep_outdated s
apply of_all s = sweep_all_revisions s

-- The strategy of a chain of builder calls.
abbrev pub build : List Step → SweepStrategy → SweepStrategy
build [] s = s
build (x ∷ xs) s = build xs (apply x s)

abbrev if_step : Step → ℕ
if_step of_outdated = 1
if_step of_all = 2
if_step _ = 0

abbrev what_step : Step → ℕ
what_step to_values = 1
what_step to_everything = 2
what_step _ = 0

-- The strongest call of each kind, 0 if there is none.
abbrev pub strongest_if : List Step → ℕ
strongest_if [] = 0
strongest_if (x ∷ xs) = max (if_step x) (strongest_if xs)

abbrev pub strongest_what : List Step → ℕ
strongest_what [] = 0
strongest_what (x ∷ xs) = max (what_step x) (strongest_what xs)

if_rank-max_if : (a b : DiscardIf) → if_rank (max_if a b) ≡ max (if_rank a) (if_rank b)
unfolding max_if
if_rank-max_if a b = ground arith

what_rank-max_what :
    (a b : DiscardWhat) → what_rank (max_what a b) ≡ max (what_rank a) (what_rank b)
unfolding max_what
what_rank-max_what a b = ground arith

if_rank-apply :
    (x : Step) (s : SweepStrategy)
    → if_rank (apply x s).discard_if ≡ max (if_rank s.discard_if) (if_step x)
unfolding discard_values discard_everything sweep_outdated sweep_all_revisions
if_rank-apply to_values s = omega arith
if_rank-apply to_everything s = omega arith
if_rank-apply of_outdated s = if_rank-max_if s.discard_if outdated
if_rank-apply of_all s = if_rank-max_if s.discard_if always

what_rank-apply :
    (x : Step) (s : SweepStrategy)
    → what_rank (apply x s).discard_what ≡ max (what_rank s.discard_what) (what_step x)
unfolding discard_values discard_everything sweep_outdated sweep_all_revisions
what_rank-apply to_values s = what_rank-max_what s.discard_what values
what_rank-apply to_everything s = what_rank-max_what s.discard_what everything
what_rank-apply of_outdated s = omega arith
what_rank-apply of_all s = omega arith

if_rank-build :
    (xs : List Step) (s : SweepStrategy)
    → if_rank (build xs s).discard_if ≡ max (if_rank s.discard_if) (strongest_if xs)
if_rank-build [] s = omega arith
if_rank-build (x ∷ xs) s = omega (arith, if_rank-build xs (apply x s), if_rank-apply x s)

what_rank-build :
    (xs : List Step) (s : SweepStrategy)
    → what_rank (build xs s).discard_what ≡ max (what_rank s.discard_what) (strongest_what xs)
what_rank-build [] s = omega arith
what_rank-build (x ∷ xs) s = omega (arith, what_rank-build xs (apply x s), what_rank-apply x s)

module _ {V : Type 0} where
  sweep-never :
      (now : Revision) (s : SweepStrategy) (m : Memo V)
      → if_rank s.discard_if ≡ 0
      → sweep now s (memoized m) ≡ none
  unfolding sweep if_rank
  sweep-never now s m e = go s.discard_if refl
    where
      go : (i : DiscardIf) → s.discard_if ≡ i → sweep now s (memoized m) ≡ none
      go never f = ground arith
      go outdated f = absurd (omega (arith, sym (ap if_rank f) ∙ e))
      go always f = absurd (omega (arith, sym (ap if_rank f) ∙ e))

  -- A sweep of a memo of this revision or an earlier one, by a strategy built from the default in
  -- any order: without a `sweep_` call it panics, and with one and a `discard_` call it returns.
  pub sweep-build :
      (now : Revision) (xs : List Step) (m : Memo V)
      → m.verified_at ≤ now
      → (strongest_if xs ≡ 0 → sweep now (build xs default) (memoized m) ≡ none)
        × (1 ≤ strongest_if xs
            → 1 ≤ strongest_what xs
            → (state : QueryState V) × (sweep now (build xs default) (memoized m) ≡ some state)
              × KeepsMemo m state)
  unfolding if_rank what_rank
  sweep-build now xs m le = (
    λ e. sweep-never now (build xs default) m (omega (arith, if_rank-build xs default)),
    λ h k.
        let (state, run, keeps, rest) =
          sweep_lem now (build xs default) m
            (λ e. absurd (omega (arith, ap if_rank e, if_rank-build xs default)))
            (λ e. absurd (omega (arith, ap what_rank e, what_rank-build xs default))) le in
        (state, run, keeps),
  )
