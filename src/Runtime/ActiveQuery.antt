-- ===== src/Runtime/ActiveQuery.antt =====
-- `ActiveQuery` of src/runtime.rs: what a running query has read so far.
pub mod Summary
use salsa.Base.{Option, none, some, List, [], ◌∷◌, ite, min, max}
use salsa.Revision.{Revision, start}
use salsa.Durability.{Durability, low}
use salsa.Key.{DatabaseKey, DatabaseKey-discrete}

pub record ActiveQuery : Type 0 where
  pub database_key : DatabaseKey
  pub durability : Durability
  pub changed_at : Revision
  pub dependencies : Option (List DatabaseKey)

-- `IndexSet::insert`: a set that keeps the order of insertion.
unfoldable pub insert : DatabaseKey → List DatabaseKey → List DatabaseKey
insert d [] = d ∷ []
insert d (x ∷ xs) = ite (DatabaseKey-discrete x d) (x ∷ xs) (x ∷ insert d xs)

-- `ActiveQuery::new`.
unfoldable pub new : DatabaseKey → Durability → ActiveQuery
new key max_durability = record {
  database_key = key;
  durability = max_durability;
  changed_at = start;
  dependencies = some [];
}

-- The set is left alone after an untracked read.
unfoldable pub insert_into : DatabaseKey → Option (List DatabaseKey) → Option (List DatabaseKey)
unfolding insert
insert_into d none = none
insert_into d (some set) = some (insert d set)

unfoldable pub add_read : DatabaseKey → Durability → Revision → ActiveQuery → ActiveQuery
unfolding insert_into
add_read dependency durability revision q = record q {
  dependencies = insert_into dependency q.dependencies;
  durability = min q.durability durability;
  changed_at = max q.changed_at revision;
}

unfoldable pub add_untracked_read : Revision → ActiveQuery → ActiveQuery
add_untracked_read changed_at q = record q {
  dependencies = none;
  durability = low;
  changed_at = changed_at;
}

unfoldable pub add_anon_read : Revision → ActiveQuery → ActiveQuery
add_anon_read changed_at q = record q { changed_at = max q.changed_at changed_at }
