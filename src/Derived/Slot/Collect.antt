-- ===== src/Derived/Slot/Collect.antt =====
-- What a sweep or an eviction of a slot may take away.
use salsa.Base.{
  ◌≤◌, ◌≡◌, ◌≢◌, refl, ◌⊎◌, inl, inr, true, none, some, arith, ◌&&◌, ◌==◌, Bool-cases, ℕ_discrete,
}
use salsa.Revision.{Revision}
use salsa.Sweep.{
  DiscardIf, DiscardWhat, SweepStrategy, never, outdated, always, nothing, values, everything,
}
use salsa.Derived.Memo.{Memo, QueryState, not_computed, in_progress, memoized, has_untracked_input}
use salsa.Derived.Slot.{sweep}

module _ {V : Type 0} where
  -- Two states tell the same about the inputs of a query, and the second tells no other value.
  abbrev pub KeepsMemo : Memo V → QueryState V → Type 0
  KeepsMemo m not_computed = Unit {0}
  KeepsMemo m (in_progress id waiting) = ⊥
  KeepsMemo m (memoized m') =
      (m'.verified_at ≡ m.verified_at)
      × (m'.changed_at ≡ m.changed_at)
      × (m'.durability ≡ m.durability)
      × (m'.inputs ≡ m.inputs)
      × ((m'.value ≡ none) ⊎ (m'.value ≡ m.value))

  -- A sweep by a strategy that names something to discard does not panic on a memo of this
  -- revision or an earlier one, and leaves the memo, the memo without its value, or nothing. A
  -- memo of this revision stays whole if only outdated ones are discarded, or if it has an
  -- untracked input.
  pub sweep_lem :
      (now : Revision) (strategy : SweepStrategy) (m : Memo V)
      → strategy.discard_if ≢ never
      → strategy.discard_what ≢ nothing
      → m.verified_at ≤ now
      → (state : QueryState V) × (sweep now strategy (memoized m) ≡ some state)
        × KeepsMemo m state
        × (m.verified_at ≡ now
            → (strategy.discard_if ≡ outdated) ⊎ (has_untracked_input m ≡ true)
            → state ≡ memoized m)
  unfolding sweep
  sweep_lem now strategy m h w le = go strategy.discard_if strategy.discard_what refl refl
    where
      whole : KeepsMemo m (memoized m)
      whole = (refl, refl, refl, refl, inr refl)

      bare : KeepsMemo m (memoized (record m { value = none }))
      bare = (refl, refl, refl, refl, inl refl)

      go :
          (i : DiscardIf) (t : DiscardWhat)
          → strategy.discard_if ≡ i
          → strategy.discard_what ≡ t
          → (state : QueryState V) × (sweep now strategy (memoized m) ≡ some state)
            × KeepsMemo m state
            × (m.verified_at ≡ now
                → (strategy.discard_if ≡ outdated) ⊎ (has_untracked_input m ≡ true)
                → state ≡ memoized m)
      go never t e f = absurd (h e)
      go outdated nothing e f = absurd (w f)
      go outdated values e f = elim (ℕ_discrete m.verified_at now) [
        | yes p ↦ (memoized m, ground arith, whole, λ _ _. refl)
        | no p ↦ (memoized (record m { value = none }), ground arith, bare, λ q _. absurd (p q))
      ]
      go outdated everything e f = elim (ℕ_discrete m.verified_at now) [
        | yes p ↦ (memoized m, ground arith, whole, λ _ _. refl)
        | no p ↦ (not_computed, ground arith, tt, λ q _. absurd (p q))
      ]
      go always nothing e f = absurd (w f)
      go always values e f = elim (Bool-cases (has_untracked_input m && m.verified_at == now)) [
        | inl p ↦ (memoized m, ground arith, whole, λ _ _. refl)
        | inr p ↦
            (memoized (record m { value = none }), ground arith, bare, λ q c. absurd (ground arith))
      ]
      go always everything e f = elim (Bool-cases (has_untracked_input m && m.verified_at == now)) [
        | inl p ↦ (memoized m, ground arith, whole, λ _ _. refl)
        | inr p ↦ (not_computed, ground arith, tt, λ q c. absurd (ground arith))
      ]
