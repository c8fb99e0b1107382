-- ===== src/Tests/Interning.antt =====
-- The theorems on src/interned.rs at concrete inputs.
use salsa.Base.{
  ◌≡◌, refl, sym, ◌∙◌, ap, none, some, [], ◌∷◌, if_pos, if_neg, ℕ_discrete, arith, get_elem?,
  some-injective,
}
use salsa.Base.Outcome.{returns}
use salsa.InternId.{InternId, as_usize}
use salsa.Interned.{Slot, present, free, Tables, find, intern_index}
use salsa.Interned.Consistent.{last, more, IsConsistent}
use salsa.Sweep.{discard_outdated}
use salsa.Revision.{Revision}
use salsa.Key.{DatabaseKey, derived}
use salsa.Runtime.Revisions
use salsa.Interned.RoundTrip
use salsa.Interned.Fetch.{InternedDatabase, fetch_interned, fetch_lookup}
use salsa.Interned.Sweep.{sweep_interned}
use salsa.Interned.Collect.{IsCollected, sweep_interned-IsCollected}
use salsa.Interned.Index
use salsa.Interned.Index.{IsInterned}

abbrev seven : Slot
seven = record { index = record { value = 2 }; value = 7; interned_at = 1; accessed_at = some 1 }

-- The index 0 is free, the key 7 has the index 1.
abbrev tables : Tables
tables = record {
  map = (7, record { value = 2 }) ∷ [];
  values = free none ∷ present seven ∷ [];
  first_free = some (record { value = 1 });
}

tables-IsConsistent : IsConsistent tables
unfolding find as_usize ℕ_discrete
tables-IsConsistent = record {
  keyed = λ k i e. elim (ℕ_discrete 7 k) [
    | yes same ↦
        let is_id : seven.index ≡ i = some-injective (sym (if_pos (ℕ_discrete 7 k) same _ _) ∙ e) in
        (
          seven,
          record {
            placed = ap (λ (x : InternId). get_elem? tables.values (as_usize x)) (sym is_id);
            of_key = same;
            at_index = is_id;
            accessed = (1, refl);
          },
        )
    | no other ↦ cc (sym (if_neg (ℕ_discrete 7 k) other _ _) ∙ e)
  ];
  frees = (0 ∷ [], more (record { value = 1 }) none refl tt last);
}

-- The key 9 gets the free index.
intern_index-IsInterned_example :
    (slot : Slot) × (t' : Tables) × (intern_index 9 2 tables ≡ returns slot t')
    × IsInterned tables 9 2 slot t'
intern_index-IsInterned_example =
    Index.intern_index-IsInterned tables 9 2 tables-IsConsistent (omega arith)

-- The key 7 was last accessed before the durability of interned keys changed, so it goes.
sweep_interned-IsCollected_example :
    (t' : Tables) × (sweep_interned discard_outdated 2 tables ≡ returns tt t')
    × IsCollected 2 tables t'
unfolding find discard_outdated
sweep_interned-IsCollected_example =
    sweep_interned-IsCollected discard_outdated 2 tables (λ e. cc) tables-IsConsistent (refl, tt)

abbrev named : InternId → Revision → DatabaseKey
named id interned_at = derived id.value

abbrev interned_database : InternedDatabase
interned_database = record {
  tables = tables;
  local_state = [];
  counters = record { pending_revision = 3; revisions = 3 ∷ 2 ∷ 2 ∷ [] };
}

fetch_interned-fetch_lookup_example :
    (id : InternId) × (db1 : InternedDatabase) × (db2 : InternedDatabase) × (fetch_interned named 9
        interned_database
      ≡ returns id db1)
    × (fetch_lookup named id db1 ≡ returns 9 db2)
    × (db2.tables ≡ db1.tables)
unfolding Revisions.current_revision
fetch_interned-fetch_lookup_example =
    RoundTrip.fetch_interned-fetch_lookup named interned_database 3 refl 9 tables-IsConsistent
      (omega arith)
