-- ===== src/Derived/Slot.antt =====
-- The operations of one slot of src/derived/slot.rs that run no query: eviction and sweeping.
pub mod Builders
pub mod Collect
use salsa.Base.{ℕ, ◌≡◌, refl, Bool, true, false, ◌&&◌, Option, none, some, ◌==◌, leb, if◌then◌else◌}
use salsa.Revision.{Revision}
use salsa.Sweep.{
  DiscardIf, DiscardWhat, SweepStrategy, never, outdated, always, nothing, values, everything,
}
use salsa.Derived.Memo.{Memo, QueryState, not_computed, in_progress, memoized, has_untracked_input}

module _ {V : Type 0} where
  -- `Slot::evict`.
  unfoldable pub evict : QueryState V → QueryState V
  unfolding has_untracked_input
  evict not_computed = not_computed
  evict (in_progress id waiting) = in_progress id waiting
  evict (memoized memo) =
      if has_untracked_input memo then memoized memo else memoized (record memo { value = none })

  -- The innermost match of `Slot::sweep`; `none` is `unreachable!()`.
  unfoldable pub discard : DiscardWhat → Memo V → Option (QueryState V)
  discard nothing memo = none
  discard values memo = some (memoized (record memo { value = none }))
  discard everything memo = some not_computed

  unfoldable pub sweep_memo : Revision → SweepStrategy → Memo V → Option (QueryState V)
  unfolding discard has_untracked_input
  sweep_memo revision_now strategy memo =
      if leb memo.verified_at revision_now
      then (elim strategy.discard_if [
        | never ↦ none
        | outdated ↦
            if memo.verified_at == revision_now
            then some (memoized memo)
            else discard strategy.discard_what memo
        | always ↦
            if has_untracked_input memo && memo.verified_at == revision_now
            then some (memoized memo)
            else discard strategy.discard_what memo
      ])
      else none

  -- `Slot::sweep`; `none` stands for its panics.
  unfoldable pub sweep : Revision → SweepStrategy → QueryState V → Option (QueryState V)
  unfolding sweep_memo
  sweep revision_now strategy not_computed = some not_computed
  sweep revision_now strategy (in_progress id waiting) = some (in_progress id waiting)
  sweep revision_now strategy (memoized memo) = sweep_memo revision_now strategy memo
