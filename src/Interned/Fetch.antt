-- ===== src/Interned/Fetch.antt =====
-- Interned queries as queries: the `try_fetch`, `entries` and `durability` of `InternedStorage`
-- and `LookupInternedStorage` in src/interned.rs.
use salsa.Base.{ℕ, List, [], ◌∷◌}
use salsa.Base.Outcome.{
  Outcome, returns, panics, aborts, blocks, out_of_fuel, M, ◌>>=◌, ◌>>◌, pure, gets, modify, unwrap,
}
use salsa.Durability.{Durability, high}
use salsa.Key.{DatabaseKey}
use salsa.Revision.{Revision}
use salsa.Sweep.{SweepStrategy}
use salsa.Runtime.Revisions
use salsa.Runtime.Revisions.{Revisions}
use salsa.Runtime.LocalState.{LocalState, report_query_read}
use salsa.InternId.{InternId}
use salsa.Interned.{Slot, Tables, intern_index, slot_for_index}
use salsa.Interned.Sweep.{sweep_interned}

-- `INTERN_DURABILITY`.
abbrev pub intern_durability : Durability
intern_durability = high

-- The part of a database that interned queries use.
pub record InternedDatabase : Type 0 where
  pub tables : Tables
  pub local_state : LocalState
  pub counters : Revisions

-- An operation on the tables alone.
abbrev pub with_tables :
    {A : Type 0} → InternedDatabase → Outcome Tables A → Outcome InternedDatabase A
with_tables db (returns a t) = returns a (record db { tables = t })
with_tables db (panics t) = panics (record db { tables = t })
with_tables db (aborts t) = aborts (record db { tables = t })
with_tables db (blocks id t) = blocks id (record db { tables = t })
with_tables db out_of_fuel = out_of_fuel

abbrev pub on_tables : {A : Type 0} → M Tables A → M InternedDatabase A
on_tables m db = with_tables db (m db.tables)

abbrev pub report : DatabaseKey → Slot → M InternedDatabase (Unit {0})
report dependency slot = modify (λ db. record db {
  local_state = report_query_read dependency intern_durability slot.interned_at db.local_state;
})

-- `key_of` names a slot among the dependencies of a query, which the code tells apart by address:
-- an index that is used again has another slot, interned in another revision.
module _ (key_of : InternId → Revision → DatabaseKey) where
  -- `InternedStorage::try_fetch`.
  unfoldable pub fetch_interned : ℕ → M InternedDatabase InternId
  unfolding intern_index Revisions.current_revision
  fetch_interned key = do
    counters ← gets (λ db. db.counters)
    revision_now ← unwrap (Revisions.current_revision counters)
    slot ← on_tables (intern_index key revision_now)
    report (key_of slot.index slot.interned_at) slot
    pure slot.index

  -- `LookupInternedStorage::try_fetch`, with `lookup_value`.
  unfoldable pub fetch_lookup : InternId → M InternedDatabase ℕ
  unfolding slot_for_index Revisions.current_revision
  fetch_lookup index = do
    counters ← gets (λ db. db.counters)
    revision_now ← unwrap (Revisions.current_revision counters)
    slot ← on_tables (slot_for_index index revision_now)
    report (key_of slot.index slot.interned_at) slot
    pure slot.value

-- `InternedStorage::entries`.
unfoldable pub interned_entries : InternedDatabase → List (ℕ × InternId)
interned_entries db = db.tables.map

-- `LookupInternedStorage::entries`.
unfoldable pub swap_entries : List (ℕ × InternId) → List (InternId × ℕ)
swap_entries [] = []
swap_entries ((key, index) ∷ map) = (index, key) ∷ swap_entries map

unfoldable pub lookup_entries : InternedDatabase → List (InternId × ℕ)
unfolding swap_entries
lookup_entries db = swap_entries db.tables.map

-- `InternedStorage::sweep`, which asks the runtime for the last change.
unfoldable pub sweep_storage : SweepStrategy → M InternedDatabase (Unit {0})
unfolding sweep_interned Revisions.last_changed_revision
sweep_storage strategy = do
  counters ← gets (λ db. db.counters)
  last_changed ← unwrap (Revisions.last_changed_revision intern_durability counters)
  on_tables (sweep_interned strategy last_changed)
