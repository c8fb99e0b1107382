-- ===== src/Interned.antt =====
-- The tables of src/interned.rs, for one handle. Keys are numbers.
pub mod Consistent
pub mod Index
pub mod Sweep
pub mod Fetch
pub mod RoundTrip
pub mod Release
pub mod Retain
pub mod Collect
use salsa.Base.{
  ℕ, ◌≡◌, Bool, true, false, Option, none, some, List, [], ◌∷◌, ◌++◌, ◌==◌, ltb, if◌then◌else◌, ite,
  ℕ_discrete, length, get_elem?, set,
}
use salsa.Base.Outcome.{M, ◌>>=◌, ◌>>◌, pure, panic, gets, modify, unwrap}
use salsa.Revision.{Revision}
use salsa.InternId.{InternId, as_usize, from_usize}

-- `Slot`; `accessed_at` is `none` once the slot is collected.
pub record Slot : Type 0 where
  pub index : InternId
  pub value : ℕ
  pub interned_at : Revision
  pub accessed_at : Option Revision

-- `InternValue`.
pub data InternValue : Type 0 where
  present : Slot → InternValue
  free : Option InternId → InternValue

-- `InternTables`; the order of `map` is that of its iterator.
pub record Tables : Type 0 where
  pub map : List (ℕ × InternId)
  pub values : List InternValue
  pub first_free : Option InternId

-- `InternTables::default`.
abbrev pub no_tables : Tables
no_tables = record { map = []; values = []; first_free = none }

-- `HashMap::get`.
unfoldable pub find : ℕ → List (ℕ × InternId) → Option InternId
find key [] = none
find key ((k, id) ∷ map) = ite (ℕ_discrete k key) (some id) (find key map)

-- `Slot::try_update_accessed_at`: the slot afterwards; `none` is its `false`.
unfoldable pub try_update_accessed_at : Revision → Slot → Option Slot
try_update_accessed_at revision_now slot = elim slot.accessed_at [
  | none ↦ none
  | some _ ↦ some (record slot { accessed_at = some revision_now })
]

-- What `slot_for_index` does with the value that it finds.
unfoldable pub access : InternId → Revision → InternValue → M Tables Slot
unfolding try_update_accessed_at as_usize
access index revision_now (free next) = panic
access index revision_now (present slot) = do
  updated ← unwrap (try_update_accessed_at revision_now slot)
  modify (λ t. record t { values = set t.values (as_usize index) (present updated) })
  pure updated

-- `InternTables::slot_for_index`, and `lookup_value` in that revision.
unfoldable pub slot_for_index : InternId → Revision → M Tables Slot
unfolding access
slot_for_index index revision_now = do
  values ← gets (λ t. t.values)
  found ← unwrap (get_elem? values (as_usize index))
  access index revision_now found

abbrev pub create_slot : ℕ → Revision → InternId → Slot
create_slot key revision_now index = record {
  index = index;
  value = key;
  interned_at = revision_now;
  accessed_at = some revision_now;
}

-- The list that `first_free` goes on with; a present value is the panic there.
unfoldable pub next_free : InternValue → M Tables (Option InternId)
next_free (present slot) = panic
next_free (free next) = pure next

-- The choice of an index for a new key.
unfoldable pub place : ℕ → Revision → Option InternId → M Tables Slot
unfolding next_free from_usize as_usize
place key revision_now none = do
  values ← gets (λ t. t.values)
  index ← unwrap (from_usize (length values))
  modify (λ t. record t { values = values ++ present (create_slot key revision_now index) ∷ [] })
  pure (create_slot key revision_now index)
place key revision_now (some index) = do
  values ← gets (λ t. t.values)
  found ← unwrap (get_elem? values (as_usize index))
  next ← next_free found
  modify (λ t. record t {
    values = set values (as_usize index) (present (create_slot key revision_now index));
    first_free = next;
  })
  pure (create_slot key revision_now index)

-- The part of `intern_index` behind `intern_check`, for a key that is not in the map.
unfoldable pub intern_new : ℕ → Revision → M Tables Slot
unfolding place
intern_new key revision_now = do
  first_free ← gets (λ t. t.first_free)
  slot ← place key revision_now first_free
  modify (λ t. record t { map = (key, slot.index) ∷ t.map })
  pure slot

-- `InternedStorage::intern_index`, given what `map.get` finds. With one handle the key that
-- `intern_check` missed is still missing under the write lock.
unfoldable pub intern_found : ℕ → Revision → Option InternId → M Tables Slot
unfolding slot_for_index intern_new
intern_found key revision_now none = intern_new key revision_now
intern_found key revision_now (some index) = slot_for_index index revision_now

unfoldable pub intern_index : ℕ → Revision → M Tables Slot
unfolding intern_found find
intern_index key revision_now = do
  map ← gets (λ t. t.map)
  intern_found key revision_now (find key map)
