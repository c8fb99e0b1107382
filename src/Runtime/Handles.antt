-- ===== src/Runtime/Handles.antt =====
-- The handles of one database, in src/runtime.rs: `Runtime::snapshot`, `RevisionGuard`, and the
-- two halves of `Runtime::with_incremented_revision` on both sides of its wait for `query_lock`.
pub mod Writer
pub mod Alone
use salsa.Base.{
  ℕ, suc, ◌-◌, ◌+◌, ◌%◌, ◌≡◌, Bool, true, false, ◌&&◌, not, Option, none, some, List, [], ◌∷◌, ◌++◌,
  ◌==◌, if◌then◌else◌,
}
use salsa.Revision.{Revision, next, fetch_then_increment, u64_mod}

-- `Runtime`, as far as other handles see it: `revision_guard` is set in a snapshot, and
-- `query_in_progress` tells whether its stack of queries has an entry.
pub record Handle : Type 0 where
  pub id : ℕ
  pub revision_guard : Bool
  pub query_in_progress : Bool

-- `SharedState`, with the number of shared holders of `query_lock`, and its handles: the one that
-- `Runtime::default` made and the snapshots. The former waits for `query_lock` while `waiting` is
-- some revision, the one that it read.
pub record Handles : Type 0 where
  pub next_id : ℕ
  pub pending_revision : Revision
  pub current : Revision
  pub readers : ℕ
  pub main : Handle
  pub waiting : Option Revision
  pub snapshots : List Handle

-- `Runtime::snapshot`, called on a handle; `none` is its panic. Its assertion on the pointers of
-- the new and the old shared state holds, since the handles have one state.
unfoldable pub snapshot : Handle → Handles → Option Handles
snapshot from s =
    if from.query_in_progress
    then none
    else some (record s {
      next_id = (s.next_id + 1) % u64_mod;
      readers = suc s.readers;
      snapshots =
          record { id = s.next_id; revision_guard = true; query_in_progress = false } ∷ s.snapshots;
    })

-- `RevisionGuard::drop` of the newest snapshot that has this number.
unfoldable pub remove_handle : ℕ → List Handle → Option (List Handle)
remove_handle id [] = none
remove_handle id (h ∷ hs) =
    let rest = remove_handle id hs in
    if h.id == id then some hs else (elim rest [ none ↦ none | some hs' ↦ some (h ∷ hs') ])

unfoldable pub drop_snapshot : ℕ → Handles → Option Handles
unfolding remove_handle
drop_snapshot id s = elim (remove_handle id s.snapshots) [
  | none ↦ none
  | some hs ↦ some (record s { readers = s.readers - 1; snapshots = hs })
]

-- `with_incremented_revision` up to its wait; `none` is a panic.
unfoldable pub begin_increment : Handles → Option Handles
unfolding fetch_then_increment
begin_increment s =
    if not s.main.revision_guard && not s.main.query_in_progress
    then (let (pending, old) = fetch_then_increment s.pending_revision in
        (elim old [
          | none ↦ none
          | some current_revision ↦
              some (record s { pending_revision = pending; waiting = some current_revision })
        ]))
    else none

-- The new revision, once the current one was counted up; `none` is a panic.
unfoldable pub renewed : Revision → Option Revision → Option Revision
unfolding next
renewed current_revision none = none
renewed current_revision (some old_revision) =
    if current_revision == old_revision then next current_revision else none

-- The rest of it; `none` as long as `query_lock` has a shared holder, and for its panics.
unfoldable pub finish_increment : Handles → Option Handles
unfolding fetch_then_increment renewed
finish_increment s = elim s.waiting [
  | none ↦ none
  | some current_revision ↦
      if s.readers == 0
      then (let (current, old) = fetch_then_increment s.current in
          (elim (renewed current_revision old) [
            | none ↦ none
            | some new_revision ↦ some (record s { current = current; waiting = none })
          ]))
      else none
]

abbrev pub set_query : Bool → Handle → Handle
set_query b h = record h { query_in_progress = b }

-- What the handles of a database do, one at a time, as long as none of them panics: a step in which
-- a counter of revisions runs over is left out. The first handle does nothing while it waits.
pub data Step : Handles → Handles → Type 0 where
  main_snapshots : {s s' : Handles} → s.waiting ≡ none → snapshot s.main s ≡ some s' → Step s s'
  snapshot_snapshots :
      {s s' : Handles} (before after : List Handle) (h : Handle)
      → s.snapshots ≡ before ++ h ∷ after
      → snapshot h s ≡ some s'
      → Step s s'
  main_queries :
      {s : Handles} (b : Bool) → s.waiting ≡ none → Step s (record s { main = set_query b s.main })
  snapshot_queries :
      {s : Handles} (b : Bool) (before after : List Handle) (h : Handle)
      → s.snapshots ≡ before ++ h ∷ after
      → Step s (record s { snapshots = before ++ set_query b h ∷ after })
  drops : {s s' : Handles} (id : ℕ) → drop_snapshot id s ≡ some s' → Step s s'
  begins : {s s' : Handles} → s.waiting ≡ none → begin_increment s ≡ some s' → Step s s'
  finishes : {s s' : Handles} → finish_increment s ≡ some s' → Step s s'

-- One runtime, as `Runtime::default` makes it.
abbrev pub one_handle : Handles
one_handle = record {
  next_id = 1;
  pending_revision = 1;
  current = 1;
  readers = 0;
  main = record { id = 0; revision_guard = false; query_in_progress = false };
  waiting = none;
  snapshots = [];
}

pub data Reachable : Handles → Type 0 where
  begun : Reachable one_handle
  then_step : {s s' : Handles} → Reachable s → Step s s' → Reachable s'
