-- ===== src/Interned/Sweep.antt =====
-- The garbage collection of src/interned.rs: `InternedStorage::sweep`, `Slot::try_collect`, and
-- what becomes of the slots that memos still hold, `Slot::maybe_changed_since`. One handle.
use salsa.Base.{
  ℕ, Bool, true, false, Option, none, some, List, [], ◌∷◌, ltb, if◌then◌else◌, get_elem?, set,
}
use salsa.Base.Outcome.{M, ◌>>=◌, ◌>>◌, pure, panic, gets, modify, unwrap}
use salsa.Revision.{Revision}
use salsa.Sweep.{DiscardIf, SweepStrategy, never, outdated, always}
use salsa.InternId.{InternId, as_usize}
use salsa.Interned.{Slot, InternValue, present, free, Tables, try_update_accessed_at}

-- `Slot::try_collect`: its answer and the slot afterwards; `none` is its panic. With one handle
-- `compare_exchange` finds the value that was loaded.
unfoldable pub try_collect : Revision → Slot → Option (Bool × Slot)
try_collect last_changed slot = elim slot.accessed_at [
  | none ↦ none
  | some accessed_at ↦ some (
      if ltb accessed_at last_changed
      then (true, record slot { accessed_at = none })
      else (false, slot))
]

-- The index joins the free list.
unfoldable pub release : InternId → M Tables (Unit {0})
release index = modify (λ t. record t {
  values = set t.values (as_usize index) (free t.first_free);
  first_free = some index;
})

-- What the closure of `retain` does with the value of a key: whether the key stays.
unfoldable pub retain_value : Revision → InternId → InternValue → M Tables Bool
unfolding try_collect release
retain_value last_changed index (free next) = panic
retain_value last_changed index (present slot) = do
  collected ← unwrap (try_collect last_changed slot)
  if collected.0 then (do release index; pure false) else pure true

unfoldable pub retain_key : DiscardIf → Revision → InternId → M Tables Bool
unfolding retain_value
retain_key never last_changed index = pure true
retain_key outdated last_changed index = do
  values ← gets (λ t. t.values)
  value ← unwrap (get_elem? values (as_usize index))
  retain_value last_changed index value
retain_key always last_changed index = do
  values ← gets (λ t. t.values)
  value ← unwrap (get_elem? values (as_usize index))
  retain_value last_changed index value

-- `HashMap::retain`: the entries that stay.
unfoldable pub retain : DiscardIf → Revision → List (ℕ × InternId) → M Tables (List (ℕ × InternId))
unfolding retain_key
retain discard_if last_changed [] = pure []
retain discard_if last_changed ((key, index) ∷ map) = do
  stays ← retain_key discard_if last_changed index
  rest ← retain discard_if last_changed map
  pure (if stays then (key, index) ∷ rest else rest)

-- `InternedStorage::sweep`, for the revision in which the durability of interned keys last
-- changed.
unfoldable pub sweep_interned : SweepStrategy → Revision → M Tables (Unit {0})
unfolding retain
sweep_interned strategy last_changed = do
  map ← gets (λ t. t.map)
  kept ← retain strategy.discard_if last_changed map
  modify (λ t. record t { map = kept })

-- `Slot::maybe_changed_since`: its answer and the slot afterwards.
unfoldable pub slot_changed_since : Revision → Revision → Slot → Bool × Slot
unfolding try_update_accessed_at
slot_changed_since revision_now revision slot = elim (try_update_accessed_at revision_now slot) [
  | none ↦ (true, slot)
  | some updated ↦ (ltb revision updated.interned_at, updated)
]
