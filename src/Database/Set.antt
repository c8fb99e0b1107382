-- ===== src/Database/Set.antt =====
-- What setting an input does: `InputStorage::set` of src/input.rs.
use salsa.Base.{
  ℕ, suc, ◌+◌, ◌<◌, ◌≡◌, ◌≢◌, refl, ◌∙◌, subst, true, false, Option, none, some, arith, if_pos,
  if_neg, ℕ_discrete, leb, if◌then◌else◌,
}
use mathlib.Core.Option
use salsa.Base.Outcome.{returns, panics}
use salsa.Revision.{Revision, u64_mod}
use salsa.Durability.{Durability}
use salsa.Key.{input}
use salsa.Runtime.Revisions
use salsa.Runtime.Revisions.{Revisions, mark_durability_as_changed, increment}
use salsa.Runtime.Revisions.Declining.{IsValid, increment_lem, last_changed-mark, mark-IsValid}
use salsa.Derived.Memo.{StampedValue}
use salsa.Database.State.{Database, will_change_input_value, with_counters, emit, update}
use salsa.Database.Write.{permits_increment, write_slot, set}

-- The durability that the write marks as changed: that of the old value, if there was one.
abbrev pub marked : {V : Type 0} → Option (StampedValue V) → Durability
marked none = 0
marked (some old) = old.durability

-- The counters after the write of the slot.
abbrev pub counters_after :
    {V : Type 0} → Revision → Revisions → Option (StampedValue V) → Revisions
counters_after now counters none = counters
counters_after now counters (some old) = mark_durability_as_changed now old.durability counters

counters_after-IsValid :
    {V : Type 0} (now : Revision) (counters : Revisions) (old : Option (StampedValue V))
    → counters.pending_revision ≡ now
    → IsValid counters
    → IsValid (counters_after now counters old)
      × ((counters_after now counters old).pending_revision ≡ now)
unfolding mark_durability_as_changed
counters_after-IsValid now counters none e v = (v, e)
counters_after-IsValid now counters (some old) e v = (
  subst (λ r. IsValid (mark_durability_as_changed r old.durability counters)) e
      (mark-IsValid counters old.durability v),
  e,
)

counters_after-marks :
    {V : Type 0} (now : Revision) (counters : Revisions) (old : Option (StampedValue V))
    (e : Durability)
    → Revisions.last_changed_revision (suc e) (counters_after now counters old) ≡ (
        if leb (suc e) (marked old)
        then Option.map (λ _. now) (Revisions.last_changed_revision (suc e) counters)
        else Revisions.last_changed_revision (suc e) counters)
counters_after-marks now counters none e = ground arith
counters_after-marks now counters (some old) e =
    last_changed-mark counters now old.durability (suc e) ∙ ground arith

module _ {V L : Type 0} where
  -- The database after a set in revision `now`.
  pub record IsWritten (i : ℕ) (value : V) (durability : Durability) (now : Revision)
      (db db' : Database V L) : Type 0 where
    pub valid : IsValid db'.runtime.counters
    pub current : db'.runtime.counters.pending_revision ≡ now
    pub stored :
        db'.inputs i ≡ some (record { value = value; durability = durability; changed_at = now })
    pub others : (j : ℕ) → j ≢ i → db'.inputs j ≡ db.inputs j
    pub slots : db'.slots ≡ db.slots
    pub stack : db'.runtime.local_state ≡ db.runtime.local_state
    pub marks :
        (e : Durability)
        → Revisions.last_changed_revision (suc e) db'.runtime.counters ≡ (
            if leb (suc e) (marked (db.inputs i))
            then Option.map (λ _. now) (Revisions.last_changed_revision (suc e) db.runtime.counters)
            else Revisions.last_changed_revision (suc e) db.runtime.counters)

  abbrev pub stored_value : ℕ → V → Durability → Revision → Database V L → Database V L
  stored_value i value durability now db = record db {
    inputs =
        update db.inputs i
          (some (record { value = value; durability = durability; changed_at = now }));
  }

  abbrev pub finished :
      ℕ
      → V
      → Durability
      → Revision
      → Revisions
      → Database V L
      → Option (StampedValue V)
      → Database V L
  finished i value durability now counters db old = stored_value i value durability now (
      with_counters (counters_after now counters old) (emit (will_change_input_value (input i)) db))

  write_slot-run :
      (i : ℕ) (value : V) (durability : Durability) (now : Revision) (counters : Revisions)
      (db : Database V L) (old : Option (StampedValue V))
      → write_slot i
          (record { value = value; durability = durability; changed_at = now })
          now
          old
          (emit (will_change_input_value (input i)) (with_counters counters db))
        ≡ returns tt (finished i value durability now counters db old)
  unfolding write_slot
  write_slot-run i value durability now counters db none = refl
  write_slot-run i value durability now counters db (some old) = refl

  pub set-run :
      (i : ℕ) (value : V) (durability : Durability) (now : Revision) (counters : Revisions)
      (db : Database V L)
      → permits_increment db ≡ true
      → increment db.runtime.counters ≡ (counters, some now)
      → set i value durability db
        ≡ returns tt (finished i value durability now counters db (db.inputs i))
  unfolding set
  set-run i value durability now counters db p e =
      rw (p, set, e) (write_slot-run i value durability now counters db (db.inputs i))

  -- Setting an input between two queries, below the end of the range of revisions, opens the next
  -- revision and stores the value with it. The other inputs and all memos stay. The last change
  -- of each durability up to that of the old value is the new revision; those above, and all of
  -- them if there was no old value, keep theirs.
  pub set-IsWritten :
      (i : ℕ) (value : V) (durability : Durability) (db : Database V L)
      → IsValid db.runtime.counters
      → db.runtime.counters.pending_revision + 1 < u64_mod
      → permits_increment db ≡ true
      → (db' : Database V L) × (set i value durability db ≡ returns tt db')
        × IsWritten i value durability (db.runtime.counters.pending_revision + 1) db db'
  set-IsWritten i value durability db v h p =
      let (counters, e, v', c, same) = increment_lem db.runtime.counters v h in
      let now = db.runtime.counters.pending_revision + 1 in
      let after = counters_after-IsValid now counters (db.inputs i) c v' in
      (
        finished i value durability now counters db (db.inputs i),
        set-run i value durability now counters db p e,
        record {
          valid = after.0;
          current = after.1;
          stored = if_pos (ℕ_discrete i i) refl _ _;
          others = λ j ne. if_neg (ℕ_discrete j i) ne _ _;
          slots = refl;
          stack = refl;
          marks = λ d.
              subst
                (λ t.
                  Revisions.last_changed_revision (suc d)
                    (counters_after now counters (db.inputs i))
                  ≡ (if leb (suc d) (marked (db.inputs i)) then Option.map (λ _. now) t else t))
                (same d) (counters_after-marks now counters (db.inputs i) d);
        },
      )

  -- During a query, and on the handle of a snapshot, setting an input panics and changes nothing.
  pub set-refused :
      (i : ℕ) (value : V) (durability : Durability) (db : Database V L)
      → permits_increment db ≡ false
      → set i value durability db ≡ panics db
  unfolding set
  set-refused i value durability db p = rw (p, set)
