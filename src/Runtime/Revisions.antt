-- ===== src/Runtime/Revisions.antt =====
-- The revision counters of `SharedState` in src/runtime.rs, and the operations that move them.
pub mod Declining
use salsa.Base.{
  ℕ, zero, suc, Option, none, some, List, [], ◌∷◌, ◌==◌, if◌then◌else◌, get_elem?, set, replicate,
}
use salsa.Revision.{Revision, start, next, fetch_then_increment}
use salsa.Durability.{Durability, index}

-- The fields `pending_revision` and `revisions`. `revisions[0]` is the current revision.
pub record Revisions : Type 0 where
  pub pending_revision : ℕ
  pub revisions : List ℕ

-- `SharedState::with_durabilities`, at the number of durabilities of its default.
unfoldable pub with_durabilities : ℕ → Revisions
with_durabilities durabilities = record {
  pending_revision = start;
  revisions = replicate durabilities start;
}

-- `revisions[i].load()`; an index out of range panics.
unfoldable pub last_changed_revision : Durability → Revisions → Option Revision
last_changed_revision d s = get_elem? s.revisions (index d)

unfoldable pub current_revision : Revisions → Option Revision
current_revision s = get_elem? s.revisions 0

-- The loop over `revisions[1..=d]`, begun behind the first entry.
unfoldable pub store_upto : ℕ → Revision → List ℕ → List ℕ
store_upto zero new rs = rs
store_upto (suc d) new [] = []
store_upto (suc d) new (r ∷ rs) = new ∷ store_upto d new rs

unfoldable pub store_behind_first : ℕ → Revision → List ℕ → List ℕ
unfolding store_upto
store_behind_first d new [] = []
store_behind_first d new (r ∷ rs) = r ∷ store_upto d new rs

-- `DatabaseWriteLockGuard::mark_durability_as_changed`, for a durability within the vector.
unfoldable pub mark_durability_as_changed : Revision → Durability → Revisions → Revisions
unfolding store_behind_first
mark_durability_as_changed new_revision d s = record s {
  revisions = store_behind_first (index d) new_revision s.revisions;
}

-- The number that a counter holds after its increment, and the value from before.
unfoldable pub increment_current : List ℕ → List ℕ × Option Revision
unfolding fetch_then_increment
increment_current [] = ([], none)
increment_current (r ∷ rs) = let (r', old) = fetch_then_increment r in (r' ∷ rs, old)

-- The checks of `with_incremented_revision`: both counters held the same revision, and it has a
-- successor. `none` stands for their panics.
unfoldable pub agreed : Option Revision → Option Revision → Option Revision
unfolding next
agreed none old = none
agreed (some pending) none = none
agreed (some pending) (some old) = if pending == old then next pending else none

-- The increments of `with_incremented_revision`: the counters afterwards, and the new revision.
-- The current revision is left alone when the pending one overflows.
unfoldable pub increment : Revisions → Revisions × Option Revision
unfolding fetch_then_increment increment_current agreed
increment s =
    let (pending', pending) = fetch_then_increment s.pending_revision in
    let (revisions', old) = increment_current s.revisions in
    (elim pending [
      | none ↦ (record s { pending_revision = pending' }, none)
      | some p ↦
          (record { pending_revision = pending'; revisions = revisions' }, agreed (some p) old)
    ])
