-- ===== src/Interned/RoundTrip.antt =====
-- Interning a key of src/interned.rs and looking it up again, as queries.
use salsa.Base.{ℕ, ◌≡◌, ◌<◌, refl, ◌∙◌, ap, some, length}
use salsa.Base.Outcome.{returns, M, and_then, unwrap, pure, ◌>>=◌, ◌>>◌}
use salsa.Revision.{Revision}
use salsa.Key.{DatabaseKey}
use salsa.Runtime.Revisions
use salsa.Runtime.Revisions.{Revisions}
use salsa.Runtime.LocalState.{report_query_read}
use salsa.InternId.{InternId, max_id}
use salsa.Interned.{Slot, intern_index, slot_for_index}
use salsa.Interned.Consistent.{IsConsistent}
use salsa.Interned.Index.{intern_index-IsInterned}
use salsa.Interned.Fetch.{
  InternedDatabase, with_tables, on_tables, report, fetch_interned, fetch_lookup, intern_durability,
}

module _ (key_of : InternId → Revision → DatabaseKey) (db : InternedDatabase) (now : Revision)
    (current : Revisions.current_revision db.counters ≡ some now) where
  -- A key that is interned in consistent tables that are not full is what its index gives, when it
  -- is looked up in the same revision. The lookup changes no table.
  pub fetch_interned-fetch_lookup :
      (key : ℕ)
      → IsConsistent db.tables
      → length db.tables.values < max_id
      → (id : InternId) × (db1 : InternedDatabase) × (db2 : InternedDatabase) × (fetch_interned
            key_of key db
          ≡ returns id db1)
        × (fetch_lookup key_of id db1 ≡ returns key db2)
        × (db2.tables ≡ db1.tables)
  unfolding fetch_interned fetch_lookup
  fetch_interned-fetch_lookup key consistent room =
      let (slot, t', run, i) = intern_index-IsInterned db.tables key now consistent room in
      let db1 = reported (key_of slot.index slot.interned_at) slot (record db { tables = t' }) in
      let db2 = reported (key_of slot.index slot.interned_at) slot db1 in
      (
        slot.index,
        db1,
        db2,
        ap (λ t. and_then (unwrap t db) (interning key)) current
            ∙ ap (λ t. and_then (with_tables db t) reporting_index) run,
        ap (λ t. and_then (unwrap t db1) (looking slot.index)) current
            ∙ ap (λ t. and_then (with_tables db1 t) reporting_value) i.looked_up
            ∙ ap (λ v. returns v db2) i.of_key,
        refl,
      )
    where
      reported : DatabaseKey → Slot → InternedDatabase → InternedDatabase
      reported dependency slot s = record s {
        local_state = report_query_read dependency intern_durability slot.interned_at s.local_state;
      }

      reporting_index : Slot → M InternedDatabase InternId
      reporting_index s = report (key_of s.index s.interned_at) s >> pure s.index

      reporting_value : Slot → M InternedDatabase ℕ
      reporting_value s = report (key_of s.index s.interned_at) s >> pure s.value

      interning : ℕ → Revision → M InternedDatabase InternId
      interning key revision_now = on_tables (intern_index key revision_now) >>= reporting_index

      looking : InternId → Revision → M InternedDatabase ℕ
      looking index revision_now = on_tables (slot_for_index index revision_now) >>= reporting_value
