-- ===== src/Derived/Memo.antt =====
-- The data of src/derived/slot.rs: memos and the states of a slot.
use salsa.Base.{ℕ, Bool, true, false, Option, none, some, List}
use salsa.Revision.{Revision}
use salsa.Durability.{Durability}
use salsa.Key.{DatabaseKey}

-- `StampedValue` of src/runtime.rs.
pub record StampedValue (V : Type 0) : Type 0 where
  pub value : V
  pub durability : Durability
  pub changed_at : Revision

pub data MemoInputs : Type 0 where
  tracked : List DatabaseKey → MemoInputs
  no_inputs : MemoInputs
  untracked : MemoInputs

pub record Memo (V : Type 0) : Type 0 where
  pub value : Option V
  pub verified_at : Revision
  pub changed_at : Revision
  pub durability : Durability
  pub inputs : MemoInputs

-- `waiting` names the runtimes whose receivers wait for the value.
pub data QueryState (V : Type 0) : Type 0 where
  not_computed : QueryState V
  in_progress : ℕ → List ℕ → QueryState V
  memoized : Memo V → QueryState V

abbrev pub untracked_inputs : MemoInputs → Bool
untracked_inputs untracked = true
untracked_inputs _ = false

module _ {V : Type 0} where
  -- `Memo::has_untracked_input`.
  unfoldable pub has_untracked_input : Memo V → Bool
  has_untracked_input memo = untracked_inputs memo.inputs

  unfoldable pub stamp : V → Memo V → StampedValue V
  stamp value memo = record {
    value = value;
    durability = memo.durability;
    changed_at = memo.changed_at;
  }

  -- `Memo::mark_value_as_verified`: the memo afterwards, and the value; `none` is its panic.
  unfoldable pub mark_value_as_verified : Revision → Memo V → Option (StampedValue V × Memo V)
  unfolding stamp
  mark_value_as_verified revision_now memo = elim memo.value [
    | none ↦ none
    | some value ↦ some (stamp value memo, record memo { verified_at = revision_now })
  ]

  -- `QueryState::in_progress`.
  unfoldable pub in_progress_by : ℕ → QueryState V
  in_progress_by id = in_progress id List.[]

  -- The memo that a query state is replaced by when its placeholder goes.
  unfoldable pub restored : Option (Memo V) → QueryState V
  restored none = not_computed
  restored (some memo) = memoized memo
