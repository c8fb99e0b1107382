-- ===== src/Database/Write.antt =====
-- Operations between queries: `Runtime::with_incremented_revision` and `synthetic_write` of
-- src/runtime.rs, `InputStorage::set` of src/input.rs, and the sweep of src/derived.rs.
use salsa.Base.{ℕ, Bool, ◌&&◌, not, Option, none, some, List, [], ◌∷◌, if◌then◌else◌}
use salsa.Base.Outcome.{M, ◌>>=◌, ◌>>◌, pure, panic, modify, gets, unwrap}
use salsa.Revision.{Revision}
use salsa.Durability.{Durability}
use salsa.Key.{input}
use salsa.Runtime.LocalState.{query_in_progress}
use salsa.Runtime.Revisions.{mark_durability_as_changed, increment}
use salsa.Sweep.{SweepStrategy}
use salsa.Derived.Memo.{StampedValue}
use salsa.Derived.Slot.{sweep}
use salsa.Database.State.{
  Database, will_change_input_value, with_counters, emit, current_revision, update,
}

module _ {V L : Type 0} where
  -- `Runtime::permits_increment`.
  unfoldable pub permits_increment : Database V L → Bool
  unfolding query_in_progress
  permits_increment db =
      not db.runtime.revision_guard && not (query_in_progress db.runtime.local_state)

  -- `Runtime::with_incremented_revision`: counts both counters up and hands the new revision on.
  -- The write lock is free, since this is the only handle.
  unfoldable pub with_incremented_revision :
      {A : Type 0} → (Revision → M (Database V L) A) → M (Database V L) A
  unfolding permits_increment increment
  with_incremented_revision op db =
      if permits_increment db
      then (let (counters, new_revision) = increment db.runtime.counters in
          (do modify (with_counters counters); r ← unwrap new_revision; op r) db)
      else panic db

  unfoldable pub mark_changed : Revision → Durability → M (Database V L) (Unit {0})
  unfolding mark_durability_as_changed
  mark_changed new_revision d =
      modify
        (λ db. with_counters (mark_durability_as_changed new_revision d db.runtime.counters) db)

  -- `Runtime::synthetic_write`.
  unfoldable pub synthetic_write : Durability → M (Database V L) (Unit {0})
  unfolding with_incremented_revision mark_changed
  synthetic_write durability =
      with_incremented_revision (λ new_revision. mark_changed new_revision durability)

  -- The write of a slot: an occupied one marks the durability that it had.
  unfoldable pub write_slot :
      ℕ → StampedValue V → Revision → Option (StampedValue V) → M (Database V L) (Unit {0})
  unfolding mark_changed
  write_slot i stamped new_revision none =
      modify (λ db. record db { inputs = update db.inputs i (some stamped) })
  write_slot i stamped new_revision (some old) = do
    mark_changed new_revision old.durability
    modify (λ db. record db { inputs = update db.inputs i (some stamped) })

  -- `InputStorage::set`, called by `QueryTableMut::set_with_durability`.
  unfoldable pub set : ℕ → V → Durability → M (Database V L) (Unit {0})
  unfolding with_incremented_revision write_slot
  set i value durability = with_incremented_revision λ new_revision. do
    modify (emit (will_change_input_value (input i)))
    slot ← gets (λ db. db.inputs i)
    write_slot i (record { value = value; durability = durability; changed_at = new_revision })
        new_revision slot

  -- One slot of `DerivedStorage::sweep`; `none` stands for a panic of the slot.
  unfoldable pub sweep_slot : SweepStrategy → ℕ → M (Database V L) (Unit {0})
  unfolding current_revision sweep
  sweep_slot strategy k = do
    revision_now ← current_revision
    state ← gets (λ db. db.slots k)
    swept ← unwrap (sweep revision_now strategy state)
    modify (λ db. record db { slots = update db.slots k swept })

  -- `DerivedStorage::sweep` over the keys of the slot map.
  unfoldable pub sweep_all : SweepStrategy → List ℕ → M (Database V L) (Unit {0})
  unfolding sweep_slot
  sweep_all strategy [] = pure tt
  sweep_all strategy (k ∷ keys) = do sweep_slot strategy k; sweep_all strategy keys
