-- ===== src/Database/Execute.antt =====
-- Running a query function: `Runtime::execute_query_implementation` of src/runtime.rs, and how
-- `Slot::read_upgrade` of src/derived/slot.rs makes a memo of its result.
use salsa.Base.{ℕ, Bool, false, ◌&&◌, Option, none, some, List, [], ◌∷◌, leb, ◌==◌, if◌then◌else◌}
use salsa.Base.Outcome.{M, ◌>>=◌, ◌>>◌, pure, panic, modify, gets, unwrap, on_panic}
use salsa.Revision.{Revision}
use salsa.Durability.{Durability, max_durability}
use salsa.Key.{DatabaseKey, derived}
use salsa.Runtime.LocalState.{ActiveQueryGuard, push_query, pop_helper}
use salsa.Derived.Memo.{StampedValue, MemoInputs, tracked, no_inputs, untracked, Memo}
use salsa.Database.Program.{Program, done, fetch, read_untracked, check_canceled, crash, Config}
use salsa.Database.State.{
  Database, will_execute, with_stack, emit, report_untracked, is_current_revision_canceled,
  current_revision,
}
use salsa.Database.Calls.{Calls}

pub record ComputedQueryResult (V : Type 0) : Type 0 where
  pub value : V
  pub durability : Durability
  pub changed_at : Revision
  pub dependencies : Option (List DatabaseKey)

unfoldable pub memo_inputs : Option (List DatabaseKey) → MemoInputs
memo_inputs none = untracked
memo_inputs (some []) = no_inputs
memo_inputs (some (d ∷ ds)) = tracked (d ∷ ds)

module _ {V L : Type 0} where
  -- The user's code, on a database that answers its reads.
  unfoldable pub run_program : Calls V L → Program V → M (Database V L) V
  unfolding report_untracked is_current_revision_canceled
  run_program calls (done v) = pure v
  run_program calls (fetch key k) = do v ← calls.get key; run_program calls (k v)
  run_program calls (read_untracked k) = do
    report_untracked
    v ← gets (λ db. db.world)
    run_program calls (k v)
  run_program calls (check_canceled k) = do
    canceled ← is_current_revision_canceled
    run_program calls (k canceled)
  run_program calls crash = panic

  -- `ActiveQueryGuard::drop`.
  unfoldable pub drop_guard : ActiveQueryGuard → M (Database V L) (Unit {0})
  unfolding pop_helper
  drop_guard guard db =
      (do
        (query, rest) ← unwrap (pop_helper guard db.runtime.local_state)
        modify (with_stack rest))
        db

  -- `ActiveQueryGuard::complete`, and the result that its query gives.
  unfoldable pub complete : ActiveQueryGuard → V → M (Database V L) (ComputedQueryResult V)
  unfolding pop_helper
  complete guard value db =
      (do
        (query, rest) ← unwrap (pop_helper guard db.runtime.local_state)
        modify (with_stack rest)
        pure (record {
          value = value;
          durability = query.durability;
          changed_at = query.changed_at;
          dependencies = query.dependencies;
        }))
        db

  -- The guard pops the query, also when the code panics. A stack out of balance makes it panic,
  -- and its destructor once more.
  unfoldable pub execute_query_implementation :
      DatabaseKey → M (Database V L) V → M (Database V L) (ComputedQueryResult V)
  unfolding push_query drop_guard complete
  execute_query_implementation key execute db =
      let (stack, guard) = push_query key max_durability db.runtime.local_state in
      (do
        modify (emit (will_execute key))
        modify (with_stack stack)
        on_panic (drop_guard guard) (do value ← execute; complete guard value))
        db

  module _ (config : Config V L) where
    -- The condition for backdating: there is an old value, the durability did not fall, and the
    -- values are equal.
    unfoldable pub can_backdate : Memo V → ComputedQueryResult V → Bool
    can_backdate old result = elim old.value [
      | none ↦ false
      | some old_value ↦
          leb old.durability result.durability && config.value_eq old_value result.value
    ]

    -- The `changed_at` of the new memo.
    unfoldable pub backdate : Option (Memo V) → ComputedQueryResult V → M (Database V L) Revision
    unfolding can_backdate
    backdate none result = pure result.changed_at
    backdate (some old) result =
        if can_backdate old result
        then (if leb old.changed_at result.changed_at then pure old.changed_at else panic)
        else pure result.changed_at

    unfoldable pub new_memo : ℕ → Revision → Revision → ComputedQueryResult V → Memo V
    unfolding memo_inputs
    new_memo k revision_now changed_at result = record {
      value = if config.should_memoize_value k then some result.value else none;
      verified_at = revision_now;
      changed_at = changed_at;
      durability = result.durability;
      inputs = memo_inputs result.dependencies;
    }

    -- Runs the query of a key, and returns its stamped value with the memo to store.
    unfoldable pub recompute :
        Calls V L → ℕ → Revision → Option (Memo V) → M (Database V L) (StampedValue V × Memo V)
    unfolding execute_query_implementation run_program backdate new_memo current_revision
    recompute calls k revision_now old_memo = do
      result ← execute_query_implementation (derived k) (run_program calls (config.execute k))
      revision_then ← current_revision
      if revision_then == revision_now
          then (do
            changed_at ← backdate old_memo result
            pure (
              record {
                value = result.value;
                durability = result.durability;
                changed_at = changed_at;
              },
              new_memo k revision_now changed_at result,
            ))
          else panic
