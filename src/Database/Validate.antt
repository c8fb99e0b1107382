-- ===== src/Database/Validate.antt =====
-- Whether a memo still holds: `Memo::check_durability` and `Memo::validate_memoized_value` of
-- src/derived/slot.rs.
use salsa.Base.{Bool, true, false, Option, none, some, List, [], ◌∷◌, leb, ◌==◌, if◌then◌else◌}
use salsa.Base.Outcome.{M, ◌>>=◌, pure, panic, unwrap}
use salsa.Revision.{Revision}
use salsa.Key.{DatabaseKey}
use salsa.Derived.Memo.{
  StampedValue, MemoInputs, tracked, no_inputs, untracked, Memo, mark_value_as_verified,
}
use salsa.Database.State.{Database, last_changed_revision}
use salsa.Database.Calls.{Calls}

module _ {V L : Type 0} where
  unfoldable pub check_durability : Memo V → M (Database V L) Bool
  unfolding last_changed_revision
  check_durability memo = do
    last_changed ← last_changed_revision memo.durability
    pure (leb last_changed memo.verified_at)

  module _ (calls : Calls V L) where
    -- `inputs.iter().filter(…).next().is_some()`: stops at the first input that changed.
    unfoldable pub any_changed : List DatabaseKey → Revision → M (Database V L) Bool
    any_changed [] revision = pure false
    any_changed (i ∷ inputs) revision = do
      changed ← calls.maybe_changed_since i revision
      if changed then pure true else any_changed inputs revision

    -- Whether the inputs make a memo invalid; untracked ones always do.
    unfoldable pub inputs_changed : MemoInputs → Revision → M (Database V L) Bool
    unfolding any_changed
    inputs_changed untracked verified_at = pure true
    inputs_changed no_inputs verified_at = pure false
    inputs_changed (tracked inputs) verified_at = any_changed inputs verified_at

    -- Whether a memo that has a value must be recomputed.
    unfoldable pub is_stale : Memo V → M (Database V L) Bool
    unfolding check_durability inputs_changed
    is_stale memo = do
      durable ← check_durability memo
      if durable then pure false else inputs_changed memo.inputs memo.verified_at

    unfoldable pub mark_verified :
        Revision → Memo V → M (Database V L) (Option (StampedValue V × Memo V))
    unfolding mark_value_as_verified
    mark_verified revision_now memo = do
      verified ← unwrap (mark_value_as_verified revision_now memo)
      pure (some verified)

    -- The value, and the memo as it is afterwards; `none` asks for a new execution.
    unfoldable pub validate_memoized_value :
        Revision → Memo V → M (Database V L) (Option (StampedValue V × Memo V))
    unfolding is_stale mark_verified
    validate_memoized_value revision_now memo = elim memo.value [
      | none ↦ pure none
      | some _ ↦ if memo.verified_at == revision_now then panic else (do
        stale ← is_stale memo
        if stale then pure none else mark_verified revision_now memo)
    ]
