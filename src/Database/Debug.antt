-- ===== src/Database/Debug.antt =====
-- The debug interface, src/debug.rs: `durability` and `entries` of a query table, with the
-- `durability`, `as_table_entry` and `entries` of src/derived/slot.rs, src/derived.rs and
-- src/input.rs.
use salsa.Base.{ℕ, Option, none, some, List, [], ◌∷◌, if◌then◌else◌}
use mathlib.Core.Option
use salsa.Base.Outcome.{M, ◌>>=◌, pure, panic, gets, unwrap}
use salsa.Durability.{Durability, low}
use salsa.Key.{DatabaseKey, input, derived}
use salsa.Derived.Memo.{StampedValue, QueryState, not_computed, in_progress, memoized}
use salsa.Database.State.{Database}
use salsa.Database.Validate.{check_durability}

pub record TableEntry (V : Type 0) : Type 0 where
  pub key : ℕ
  pub value : Option V

module _ {V : Type 0} where
  -- `Slot::as_table_entry`.
  unfoldable pub as_table_entry : ℕ → QueryState V → Option (TableEntry V)
  as_table_entry k not_computed = none
  as_table_entry k (in_progress id waiting) = some (record { key = k; value = none })
  as_table_entry k (memoized memo) = some (record { key = k; value = memo.value })

abbrev pub push_entry : {A : Type 0} → Option A → List A → List A
push_entry none entries = entries
push_entry (some entry) entries = entry ∷ entries

module _ {V L : Type 0} where
  -- `Slot::durability`.
  unfoldable pub slot_durability : QueryState V → M (Database V L) Durability
  unfolding check_durability
  slot_durability not_computed = pure low
  slot_durability (in_progress id waiting) = panic
  slot_durability (memoized memo) = do
    durable ← check_durability memo
    pure (if durable then memo.durability else low)

  -- `InputStorage::durability`.
  unfoldable pub input_durability : ℕ → M (Database V L) Durability
  input_durability i = do
    slot ← gets (λ db. db.inputs i)
    stamped ← unwrap slot
    pure stamped.durability

  -- `DebugQueryTable::durability`.
  unfoldable pub durability : DatabaseKey → M (Database V L) Durability
  unfolding slot_durability input_durability
  durability (input i) = input_durability i
  durability (derived k) = do state ← gets (λ db. db.slots k); slot_durability state

  -- `DerivedStorage::entries` over the keys of the slot map.
  unfoldable pub derived_entries : List ℕ → Database V L → List (TableEntry V)
  unfolding as_table_entry
  derived_entries [] db = []
  derived_entries (k ∷ keys) db =
      push_entry (as_table_entry k (db.slots k)) (derived_entries keys db)

  -- `InputStorage::entries` over the keys of its map; each of them has a value.
  unfoldable pub input_entries : List ℕ → Database V L → List (TableEntry V)
  input_entries [] db = []
  input_entries (i ∷ keys) db =
      push_entry
        (Option.map (λ (s : StampedValue V). record { key = i; value = some s.value })
          (db.inputs i))
        (input_entries keys db)
