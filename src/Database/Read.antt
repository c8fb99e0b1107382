-- ===== src/Database/Read.antt =====
-- Reading a query: `Slot::read`, `Slot::read_upgrade`, `Slot::probe` and the
-- `maybe_changed_since` of src/derived/slot.rs, the `try_fetch` and `maybe_changed_since` of
-- src/input.rs and src/derived.rs, and `QueryTable::get` of src/lib.rs.
use salsa.Base.{
  ℕ, zero, suc, Bool, true, false, Option, none, some, [], ◌∷◌, ltb, ◌==◌, if◌then◌else◌,
}
use salsa.Base.Outcome.{
  out_of_fuel, blocks, M, ◌>>=◌, ◌>>◌, pure, panic, modify, gets, unwrap, on_panic,
}
use salsa.Revision.{Revision}
use salsa.Key.{DatabaseKey, input, derived}
use salsa.Derived.Memo.{
  StampedValue, MemoInputs, tracked, no_inputs, untracked, Memo, QueryState, not_computed,
  in_progress, memoized, stamp, in_progress_by, restored,
}
use salsa.Derived.Slot.{evict}
use salsa.Database.Program.{Config}
use salsa.Database.State.{
  Database, did_validate_memoized_value, write_state, emit, current_revision, report_read,
}
use salsa.Database.Calls.{Calls}
use salsa.Database.Validate.{check_durability, any_changed, validate_memoized_value}
use salsa.Database.Execute.{recompute}

-- `Result<_, CycleDetected>`.
pub data Fetched (A : Type 0) : Type 0 where
  ok : A → Fetched A
  cycle_detected : Fetched A

-- `ProbeState`.
pub data ProbeState (V : Type 0) : Type 0 where
  up_to_date : Fetched (StampedValue V) → ProbeState V
  stale_or_absent : ProbeState V

-- The part of `Slot::probe` on a memo.
module _ {V : Type 0} where
  unfoldable pub probe_memo : Revision → Memo V → ProbeState V
  unfolding stamp
  probe_memo revision_now memo = elim memo.value [
    | none ↦ stale_or_absent
    | some value ↦
        if memo.verified_at == revision_now
        then up_to_date (ok (stamp value memo))
        else stale_or_absent
  ]

module _ {V L : Type 0} where
  -- The read of a slot that some runtime is working on. Only the own runtime is run here; for
  -- another one the model stops where the code calls `try_block_on`.
  unfoldable pub wait_for : {A : Type 0} → ℕ → A → M (Database V L) A
  wait_for other_id on_cycle db =
      if other_id == db.runtime.id then pure on_cycle db else blocks other_id db

  -- `Slot::probe`, on the state of the slot.
  unfoldable pub probe : Revision → QueryState V → M (Database V L) (ProbeState V)
  unfolding wait_for probe_memo
  probe revision_now not_computed = pure stale_or_absent
  probe revision_now (in_progress id waiting) = wait_for id (up_to_date cycle_detected)
  probe revision_now (memoized memo) = pure (probe_memo revision_now memo)

  -- What `read_upgrade` takes out of the slot; `in_progress` is its `unreachable!()`. The
  -- placeholder is in the slot already.
  unfoldable pub take_memo : QueryState V → M (Database V L) (Option (Memo V))
  take_memo not_computed = pure none
  take_memo (in_progress id waiting) = panic
  take_memo (memoized memo) = pure (some memo)

  -- The check of `PanicGuard::overwrite_placeholder` on what it replaced.
  unfoldable pub check_placeholder : QueryState V → M (Database V L) (Unit {0})
  check_placeholder (in_progress id waiting) db =
      if id == db.runtime.id then pure tt db else panic db
  check_placeholder not_computed db = panic db
  check_placeholder (memoized _) db = panic db

  -- `PanicGuard::overwrite_placeholder`, of a guard with this memo.
  unfoldable pub overwrite_placeholder : ℕ → Option (Memo V) → M (Database V L) (Unit {0})
  unfolding check_placeholder restored
  overwrite_placeholder k memo = do
    old_value ← gets (λ db. db.slots k)
    modify (write_state k (restored memo))
    check_placeholder old_value

  -- `PanicGuard::proceed`. If it panics, the guard is dropped without a memo.
  unfoldable pub proceed : ℕ → Memo V → M (Database V L) (Unit {0})
  unfolding overwrite_placeholder
  proceed k memo = on_panic (overwrite_placeholder k none) (overwrite_placeholder k (some memo))

  module _ (config : Config V L) (calls : Calls V L) where
    -- Validates the old memo, if there is one.
    unfoldable pub validate :
        Revision → Option (Memo V) → M (Database V L) (Option (StampedValue V × Memo V))
    unfolding validate_memoized_value
    validate revision_now none = pure none
    validate revision_now (some memo) = validate_memoized_value calls revision_now memo

    -- The last part of `read_upgrade`: the memo was validated, or the query is run.
    unfoldable pub settle :
        ℕ
        → Revision
        → Option (Memo V)
        → Option (StampedValue V × Memo V)
        → M (Database V L) (StampedValue V)
    unfolding proceed recompute
    settle k revision_now old_memo (some (value, memo)) = do
      modify (emit (did_validate_memoized_value (derived k)))
      proceed k memo
      pure value
    settle k revision_now old_memo none = do
      (value, memo) ← recompute config calls k revision_now old_memo
      proceed k memo
      pure value

    -- Under the placeholder: validates or runs the query. A panic drops the guard, which holds the
    -- old memo.
    unfoldable pub refresh_from : ℕ → Revision → Option (Memo V) → M (Database V L) (StampedValue V)
    unfolding validate settle overwrite_placeholder
    refresh_from k revision_now old_memo =
        on_panic (overwrite_placeholder k old_memo)
          (do validated ← validate revision_now old_memo; settle k revision_now old_memo validated)

    -- `read_upgrade` behind its probe.
    unfoldable pub refresh : ℕ → Revision → M (Database V L) (StampedValue V)
    unfolding take_memo in_progress_by refresh_from
    refresh k revision_now = do
      state ← gets (λ db. db.slots k)
      id ← gets (λ db. db.runtime.id)
      modify (write_state k (in_progress_by id))
      old_memo ← take_memo state
      refresh_from k revision_now old_memo

    unfoldable pub refresh_unless :
        ℕ → Revision → ProbeState V → M (Database V L) (Fetched (StampedValue V))
    unfolding refresh
    refresh_unless k revision_now (up_to_date answer) = pure answer
    refresh_unless k revision_now stale_or_absent = do
      value ← refresh k revision_now
      pure (ok value)

    -- `Slot::read_upgrade`.
    unfoldable pub read_upgrade : ℕ → Revision → M (Database V L) (Fetched (StampedValue V))
    unfolding probe refresh_unless
    read_upgrade k revision_now = do
      state ← gets (λ db. db.slots k)
      probed ← probe revision_now state
      refresh_unless k revision_now probed

    unfoldable pub upgrade_unless :
        ℕ → Revision → ProbeState V → M (Database V L) (Fetched (StampedValue V))
    unfolding read_upgrade
    upgrade_unless k revision_now (up_to_date answer) = pure answer
    upgrade_unless k revision_now stale_or_absent = read_upgrade k revision_now

    -- `Slot::read`.
    unfoldable pub read : ℕ → M (Database V L) (Fetched (StampedValue V))
    unfolding current_revision probe upgrade_unless
    read k = do
      revision_now ← current_revision
      state ← gets (λ db. db.slots k)
      probed ← probe revision_now state
      upgrade_unless k revision_now probed

    -- `Lru::record_use` of the slot, and the eviction of the slot that it displaces.
    unfoldable pub record_use : ℕ → M (Database V L) (Unit {0})
    unfolding evict
    record_use k = modify λ db.
        let (evicted, lru) = config.record_use k db.lru in
        let db' : Database V L = record db { lru = lru } in
        (elim evicted [ none ↦ db' | some e ↦ write_state e (evict (db.slots e)) db' ])

    -- The rest of `try_fetch` and of `QueryTable::get`; a cycle is a panic there.
    unfoldable pub deliver : ℕ → Fetched (StampedValue V) → M (Database V L) V
    unfolding record_use report_read
    deliver k cycle_detected = panic
    deliver k (ok stamped) = do
      record_use k
      report_read (derived k) stamped.durability stamped.changed_at
      pure stamped.value

    -- `InputStorage::try_fetch`; an input that was never set panics.
    unfoldable pub get_input : ℕ → M (Database V L) V
    unfolding report_read
    get_input i = do
      slot ← gets (λ db. db.inputs i)
      stamped ← unwrap slot
      report_read (input i) stamped.durability stamped.changed_at
      pure stamped.value

    unfoldable pub get : DatabaseKey → M (Database V L) V
    unfolding get_input read deliver
    get (input i) = get_input i
    get (derived k) = do answer ← read k; deliver k answer

    -- The answer that a recomputed value gives.
    unfoldable pub changed_after : Revision → Fetched (StampedValue V) → Bool
    changed_after revision cycle_detected = true
    changed_after revision (ok stamped) = ltb revision stamped.changed_at

    -- How `maybe_changed_since` leaves the memo of its slot.
    unfoldable pub update_entry : Revision → Bool → QueryState V → QueryState V
    update_entry revision_now maybe_changed not_computed = not_computed
    update_entry revision_now maybe_changed (in_progress id waiting) = in_progress id waiting
    update_entry revision_now maybe_changed (memoized memo) =
        if memo.verified_at == revision_now
        then memoized memo
        else (if maybe_changed
            then not_computed
            else memoized (record memo { verified_at = revision_now }))

    unfoldable pub conclude : ℕ → Revision → Bool → M (Database V L) Bool
    unfolding update_entry
    conclude k revision_now maybe_changed = do
      modify (λ db. write_state k (update_entry revision_now maybe_changed (db.slots k)) db)
      pure maybe_changed

    -- The inputs of a memo that is neither verified nor durable.
    unfoldable pub check_inputs :
        ℕ → Revision → Revision → Memo V → MemoInputs → M (Database V L) Bool
    unfolding conclude read_upgrade changed_after any_changed
    check_inputs k revision_now revision memo untracked = pure true
    check_inputs k revision_now revision memo no_inputs = conclude k revision_now false
    check_inputs k revision_now revision memo (tracked []) = panic
    check_inputs k revision_now revision memo (tracked (i ∷ inputs)) = elim memo.value [
      | some _ ↦ (do answer ← read_upgrade k revision_now; pure (changed_after revision answer))
      | none ↦ (do
        maybe_changed ← any_changed calls (i ∷ inputs) revision
        conclude k revision_now maybe_changed)
    ]

    unfoldable pub check_memo : ℕ → Revision → Revision → Memo V → M (Database V L) Bool
    unfolding check_durability conclude check_inputs
    check_memo k revision_now revision memo =
        if memo.verified_at == revision_now then pure (ltb revision memo.changed_at) else (do
          durable ← check_durability memo
          if durable
              then conclude k revision_now false
              else check_inputs k revision_now revision memo memo.inputs)

    unfoldable pub check_state : ℕ → Revision → Revision → QueryState V → M (Database V L) Bool
    unfolding wait_for check_memo
    check_state k revision_now revision not_computed = pure true
    check_state k revision_now revision (in_progress id waiting) = wait_for id true
    check_state k revision_now revision (memoized memo) = check_memo k revision_now revision memo

    -- `maybe_changed_since` of an input slot and of a derived slot.
    unfoldable pub maybe_changed_since : DatabaseKey → Revision → M (Database V L) Bool
    unfolding current_revision check_state
    maybe_changed_since (input i) revision = do
      slot ← gets (λ db. db.inputs i)
      stamped ← unwrap slot
      pure (ltb revision stamped.changed_at)
    maybe_changed_since (derived k) revision = do
      revision_now ← current_revision
      state ← gets (λ db. db.slots k)
      check_state k revision_now revision state

module _ {V L : Type 0} (config : Config V L) where
  -- The calls that nest at most `fuel` deep.
  unfoldable pub calls : ℕ → Calls V L
  unfolding get maybe_changed_since
  calls zero = record {
    get = λ key db. out_of_fuel;
    maybe_changed_since = λ key revision db. out_of_fuel;
  }
  calls (suc fuel) =
      let below = calls fuel in
      record { get = get config below; maybe_changed_since = maybe_changed_since config below }
