-- ===== src/Tests/Handles.antt =====
-- A snapshot and a write on one database.
use salsa.Base.{◌≡◌, ◌⊎◌, refl, true, false, some, [], ◌∷◌}
use salsa.Runtime.Handles.{
  Handles, one_handle, snapshot, begin_increment, Step, main_snapshots, begins, Reachable, begun,
  then_step,
}
use salsa.Runtime.Handles.Alone.{EndsWrite, Release, step-current, waiting-Release}

abbrev with_snapshot : Handles
with_snapshot = record one_handle {
  next_id = 2;
  readers = 1;
  snapshots = record { id = 1; revision_guard = true; query_in_progress = false } ∷ [];
}

abbrev with_writer : Handles
with_writer = record with_snapshot { pending_revision = 2; waiting = some 1 }

snapshot-reached : Reachable with_snapshot
unfolding snapshot
snapshot-reached = then_step begun (main_snapshots refl refl)

writer_step : Step with_snapshot with_writer
unfolding begin_increment
writer_step = begins refl refl

step-current_example :
    (with_writer.current ≡ with_snapshot.current) ⊎ EndsWrite with_snapshot with_writer
step-current_example = step-current with_snapshot with_writer snapshot-reached writer_step

waiting-Release_example : (s' : Handles) × Release with_writer s' × (s'.current ≡ 2)
waiting-Release_example =
    waiting-Release with_writer 1 (then_step snapshot-reached writer_step) refl
