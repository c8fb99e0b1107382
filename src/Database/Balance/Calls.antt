-- ===== src/Database/Balance/Calls.antt =====
-- The calls of a database keep its balance, whatever its queries do: `QueryTable::get` of
-- src/lib.rs and the `maybe_changed_since` of src/input.rs and src/derived/slot.rs.
use salsa.Base.{
  ℕ, zero, suc, ◌≡◌, refl, Bool, true, false, Option, none, some, [], ◌∷◌, if◌then◌else◌, ltb, ◌==◌,
}
use salsa.Base.Outcome.{M, pure, ◌>>=◌}
use salsa.Revision.{Revision}
use salsa.Key.{DatabaseKey, input, derived}
use salsa.Derived.Memo.{
  Memo, MemoInputs, tracked, no_inputs, untracked, QueryState, not_computed, in_progress, memoized,
}
use salsa.Database.Program.{Config}
use salsa.Database.State.{Database}
use salsa.Database.Calls.{Calls}
use salsa.Database.Validate.{any_changed}
use salsa.Database.Read.{
  read_upgrade, changed_after, update_entry, conclude, check_inputs, check_memo, check_state,
  maybe_changed_since, calls,
}
use salsa.Database.Balance.{
  owner, IsBalanced, cut_short, Keeps, bind-Keeps, pure-Keeps, panic-Keeps, gets-Keeps,
  modify-Keeps, unwrap-Keeps, if-Keeps, write_state-Kept,
}
use salsa.Database.Balance.Run.{
  CallsKeep, current_revision-Keeps, check_durability-Keeps, any_changed-Keeps,
}
use salsa.Database.Balance.Get.{wait_for-Keeps, read_upgrade-Keeps, get-Keeps}

module _ {V L : Type 0} where
  module _ (config : Config V L) (below : Calls V L) (keep : CallsKeep below) where
    owner-update_entry :
        (now : Revision) (changed : Bool) (state : QueryState V)
        → owner (update_entry config below now changed state) ≡ owner state
    unfolding update_entry
    owner-update_entry now changed not_computed = refl
    owner-update_entry now changed (in_progress id waiting) = refl
    owner-update_entry now changed (memoized memo) = go (memo.verified_at == now) changed
      where
        chosen : Bool → Bool → QueryState V
        chosen verified changed =
            if verified
            then memoized memo
            else (if changed then not_computed else memoized (record memo { verified_at = now }))

        go : (verified changed : Bool) → owner (chosen verified changed) ≡ none
        go true changed = refl
        go false true = refl
        go false false = refl

    conclude-Keeps :
        (k : ℕ) (now : Revision) (changed : Bool) → Keeps (conclude config below k now changed)
    unfolding conclude
    conclude-Keeps k now changed =
        bind-Keeps
          (modify-Keeps _ λ s.
            write_state-Kept k (update_entry config below now changed (s.slots k)) s
              (owner-update_entry now changed (s.slots k)))
          λ _. pure-Keeps changed

    check_inputs-Keeps :
        (k : ℕ) (now revision : Revision) (memo : Memo V) (inputs : MemoInputs)
        → Keeps (check_inputs config below k now revision memo inputs)
    unfolding check_inputs
    check_inputs-Keeps k now revision memo untracked = pure-Keeps true
    check_inputs-Keeps k now revision memo no_inputs = conclude-Keeps k now false
    check_inputs-Keeps k now revision memo (tracked []) = panic-Keeps
    check_inputs-Keeps k now revision memo (tracked (i ∷ inputs)) = go memo.value
      where
        checked : Option V → M (Database V L) Bool
        checked value = elim value [
          | some _ ↦ (do
            answer ← read_upgrade config below k now
            pure (changed_after config below revision answer))
          | none ↦ (do
            maybe_changed ← any_changed below (i ∷ inputs) revision
            conclude config below k now maybe_changed)
        ]

        go : (value : Option V) → Keeps (checked value)
        go (some _) = bind-Keeps (read_upgrade-Keeps config below keep k now) λ answer. pure-Keeps _
        go none =
            bind-Keeps (any_changed-Keeps below keep (i ∷ inputs) revision)
              λ changed. conclude-Keeps k now changed

    check_memo-Keeps :
        (k : ℕ) (now revision : Revision) (memo : Memo V)
        → Keeps (check_memo config below k now revision memo)
    unfolding check_memo
    check_memo-Keeps k now revision memo = if-Keeps (memo.verified_at == now) (pure-Keeps _) (
        bind-Keeps (check_durability-Keeps memo) λ durable.
          if-Keeps durable (conclude-Keeps k now false)
            (check_inputs-Keeps k now revision memo memo.inputs))

    check_state-Keeps :
        (k : ℕ) (now revision : Revision) (state : QueryState V)
        → Keeps (check_state config below k now revision state)
    unfolding check_state
    check_state-Keeps k now revision not_computed = pure-Keeps true
    check_state-Keeps k now revision (in_progress id waiting) = wait_for-Keeps id true
    check_state-Keeps k now revision (memoized memo) = check_memo-Keeps k now revision memo

    maybe_changed_since-Keeps :
        (key : DatabaseKey) (revision : Revision)
        → Keeps (maybe_changed_since config below key revision)
    unfolding maybe_changed_since
    maybe_changed_since-Keeps (input i) revision =
        bind-Keeps (gets-Keeps (λ (s : Database V L). s.inputs i)) λ slot.
          bind-Keeps (unwrap-Keeps slot) λ stamped. pure-Keeps (ltb revision stamped.changed_at)
    maybe_changed_since-Keeps (derived k) revision =
        bind-Keeps current_revision-Keeps
          λ now. bind-Keeps (gets-Keeps _) λ state. check_state-Keeps k now revision state

  calls-CallsKeep : (config : Config V L) (fuel : ℕ) → CallsKeep (calls config fuel)
  unfolding calls
  calls-CallsKeep config zero = record {
    gets_keep = λ key. record { balanced = λ s. cut_short };
    checks_keep = λ key revision. record { balanced = λ s. cut_short };
  }
  calls-CallsKeep config (suc fuel) =
      let keep = calls-CallsKeep config fuel in
      record {
        gets_keep = get-Keeps config (calls config fuel) keep;
        checks_keep = maybe_changed_since-Keeps config (calls config fuel) keep;
      }

  -- Whatever the query functions and the fuel, `get` and `maybe_changed_since` do not abort on any
  -- database. When they return or panic, the stack of running queries is as high as before, and the
  -- placeholders are in the same slots and of the same runtimes. Nothing is said of a run that stops
  -- at the placeholder of another runtime or that lacks fuel.
  pub calls-IsBalanced :
      (config : Config V L) (fuel : ℕ) (key : DatabaseKey) (revision : Revision) (db : Database V L)
      → IsBalanced db db ((calls config fuel).get key db)
        × IsBalanced db db ((calls config fuel).maybe_changed_since key revision db)
  calls-IsBalanced config fuel key revision db =
      let keep = calls-CallsKeep config fuel in
      ((keep.gets_keep key).balanced db, (keep.checks_keep key revision).balanced db)
