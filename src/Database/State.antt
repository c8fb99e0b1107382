-- ===== src/Database/State.antt =====
-- The state of a database with one handle, and the operations of its runtime.
use salsa.Base.{ℕ, Bool, true, false, Option, List, ◌∷◌, ite, ℕ_discrete, ltb, ◌==◌, if◌then◌else◌}
use salsa.Base.Outcome.{M, ◌>>=◌, ◌>>◌, pure, panic, gets, modify, unwrap}
use salsa.Revision.{Revision}
use salsa.Durability.{Durability}
use salsa.Key.{DatabaseKey}
use salsa.Runtime.LocalState.{
  LocalState, report_query_read, report_untracked_read, report_anon_read,
}
use salsa.Runtime.Revisions
use salsa.Runtime.Revisions.{Revisions}
use salsa.Derived.Memo.{StampedValue, QueryState}

-- `EventKind` of src/lib.rs, less `WillBlockOn`, which needs a second runtime.
pub data Event : Type 0 where
  did_validate_memoized_value : DatabaseKey → Event
  will_change_input_value : DatabaseKey → Event
  will_execute : DatabaseKey → Event

-- `Runtime`: `revision_guard` is set in the handle of a snapshot.
pub record Runtime : Type 0 where
  pub id : ℕ
  pub revision_guard : Bool
  pub local_state : LocalState
  pub counters : Revisions

-- A slot that was never made reads as one that is not computed. `world` is what untracked reads
-- see, `lru` the list of src/lru.rs, and `events` what `salsa_event` reported, newest first.
pub record Database (V L : Type 0) : Type 0 where
  pub runtime : Runtime
  pub inputs : ℕ → Option (StampedValue V)
  pub slots : ℕ → QueryState V
  pub lru : L
  pub world : V
  pub events : List Event

abbrev pub update : {A : Type 0} → (ℕ → A) → ℕ → A → ℕ → A
update f k a j = ite (ℕ_discrete j k) a (f j)

module _ {V L : Type 0} where
  abbrev pub with_counters : Revisions → Database V L → Database V L
  with_counters counters db = record db { runtime = record (db.runtime) { counters = counters } }

  abbrev pub with_stack : LocalState → Database V L → Database V L
  with_stack stack db = record db { runtime = record (db.runtime) { local_state = stack } }

  abbrev pub write_state : ℕ → QueryState V → Database V L → Database V L
  write_state k state db = record db { slots = update db.slots k state }

  abbrev pub emit : Event → Database V L → Database V L
  emit event db = record db { events = event ∷ db.events }

  -- `Runtime::current_revision`.
  unfoldable pub current_revision : M (Database V L) Revision
  unfolding Revisions.current_revision
  current_revision db = unwrap (Revisions.current_revision db.runtime.counters) db

  -- `Runtime::last_changed_revision`.
  unfoldable pub last_changed_revision : Durability → M (Database V L) Revision
  unfolding Revisions.last_changed_revision
  last_changed_revision d db = unwrap (Revisions.last_changed_revision d db.runtime.counters) db

  -- `Runtime::report_query_read`.
  unfoldable pub report_read : DatabaseKey → Durability → Revision → M (Database V L) (Unit {0})
  unfolding report_query_read
  report_read key durability changed_at db =
      modify (with_stack (report_query_read key durability changed_at db.runtime.local_state)) db

  -- `Runtime::report_untracked_read`.
  unfoldable pub report_untracked : M (Database V L) (Unit {0})
  unfolding current_revision report_untracked_read
  report_untracked = do
    now ← current_revision
    modify (λ db. with_stack (report_untracked_read now db.runtime.local_state) db)

  -- The rest of `Runtime::is_current_revision_canceled`, once both counters are read.
  unfoldable pub answer_canceled : Revision → Revision → M (Database V L) Bool
  unfolding report_untracked report_anon_read
  answer_canceled pending current =
      if ltb current pending
      then (do report_untracked; pure true)
      else (if pending == current
          then (do
            modify (λ db. with_stack (report_anon_read pending db.runtime.local_state) db)
            pure false)
          else panic)

  -- `Runtime::is_current_revision_canceled`.
  unfoldable pub is_current_revision_canceled : M (Database V L) Bool
  unfolding current_revision answer_canceled
  is_current_revision_canceled = do
    current ← current_revision
    pending ← gets (λ db. db.runtime.counters.pending_revision)
    answer_canceled pending current
