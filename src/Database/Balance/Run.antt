-- ===== src/Database/Balance/Run.antt =====
-- Validating and running queries keeps the balance of a database, if the calls do.
use salsa.Base.{true, false, Option, none, some, List, [], ◌∷◌, if◌then◌else◌, ltb, ◌==◌}
use salsa.Base.Outcome.{M, pure, panic, ◌>>=◌}
use salsa.Revision.{Revision}
use salsa.Durability.{Durability}
use salsa.Key.{DatabaseKey}
use salsa.Runtime.Revisions
use salsa.Runtime.ActiveQuery.{add_read, add_untracked_read, add_anon_read}
use salsa.Runtime.LocalState.{report_query_read, report_untracked_read, report_anon_read}
use salsa.Derived.Memo.{
  StampedValue, Memo, MemoInputs, tracked, no_inputs, untracked, mark_value_as_verified,
}
use salsa.Database.Program.{Program, done, fetch, read_untracked, check_canceled, crash}
use salsa.Database.State.{
  Database, current_revision, last_changed_revision, report_read, report_untracked, answer_canceled,
  is_current_revision_canceled,
}
use salsa.Database.Calls.{Calls}
use salsa.Database.Validate.{
  check_durability, any_changed, inputs_changed, is_stale, mark_verified, validate_memoized_value,
}
use salsa.Database.Execute.{run_program}
use salsa.Database.Balance.{
  returned, Keeps, bind-Keeps, pure-Keeps, panic-Keeps, gets-Keeps, modify-Keeps, unwrap-Keeps,
  if-Keeps, with_top-Kept,
}

module _ {V L : Type 0} where
  pub current_revision-Keeps : Keeps {V = V} {L = L} current_revision
  unfolding current_revision
  current_revision-Keeps = record {
    balanced = λ s. (unwrap-Keeps (Revisions.current_revision s.runtime.counters)).balanced s;
  }

  last_changed_revision-Keeps : (d : Durability) → Keeps {V = V} {L = L} (last_changed_revision d)
  unfolding last_changed_revision
  last_changed_revision-Keeps d = record {
    balanced =
        λ s. (unwrap-Keeps (Revisions.last_changed_revision d s.runtime.counters)).balanced s;
  }

  pub report_read-Keeps :
      (key : DatabaseKey) (d : Durability) (changed_at : Revision)
      → Keeps {V = V} {L = L} (report_read key d changed_at)
  unfolding report_read report_query_read
  report_read-Keeps key d changed_at = record {
    balanced = λ s. returned (with_top-Kept (add_read key d changed_at) s);
  }

  report_untracked-Keeps : Keeps {V = V} {L = L} report_untracked
  unfolding report_untracked report_untracked_read
  report_untracked-Keeps =
      bind-Keeps current_revision-Keeps
        λ now. modify-Keeps _ (with_top-Kept (add_untracked_read now))

  answer_canceled-Keeps :
      (pending current : Revision) → Keeps {V = V} {L = L} (answer_canceled pending current)
  unfolding answer_canceled report_anon_read
  answer_canceled-Keeps pending current =
      if-Keeps (ltb current pending) (bind-Keeps report_untracked-Keeps λ _. pure-Keeps true) (
        if-Keeps (pending == current)
          (bind-Keeps (modify-Keeps _ (with_top-Kept (add_anon_read pending)))
            λ _. pure-Keeps false)
          panic-Keeps)

  is_current_revision_canceled-Keeps : Keeps {V = V} {L = L} is_current_revision_canceled
  unfolding is_current_revision_canceled
  is_current_revision_canceled-Keeps =
      bind-Keeps current_revision-Keeps
        λ current. bind-Keeps (gets-Keeps _) λ pending. answer_canceled-Keeps pending current

  pub check_durability-Keeps : (memo : Memo V) → Keeps {V = V} {L = L} (check_durability memo)
  unfolding check_durability
  check_durability-Keeps memo =
      bind-Keeps (last_changed_revision-Keeps memo.durability) λ last. pure-Keeps _

  -- Both entries of `Calls` keep the balance.
  pub record CallsKeep (calls : Calls V L) : Type 0 where
    pub gets_keep : (key : DatabaseKey) → Keeps (calls.get key)
    pub checks_keep :
        (key : DatabaseKey) (revision : Revision) → Keeps (calls.maybe_changed_since key revision)

  module _ (calls : Calls V L) (keep : CallsKeep calls) where
    pub any_changed-Keeps :
        (inputs : List DatabaseKey) (revision : Revision)
        → Keeps (any_changed calls inputs revision)
    unfolding any_changed
    any_changed-Keeps [] revision = pure-Keeps false
    any_changed-Keeps (i ∷ inputs) revision =
        bind-Keeps (keep.checks_keep i revision)
          λ changed. if-Keeps changed (pure-Keeps true) (any_changed-Keeps inputs revision)

    inputs_changed-Keeps :
        (inputs : MemoInputs) (revision : Revision) → Keeps (inputs_changed calls inputs revision)
    unfolding inputs_changed
    inputs_changed-Keeps untracked revision = pure-Keeps true
    inputs_changed-Keeps no_inputs revision = pure-Keeps false
    inputs_changed-Keeps (tracked inputs) revision = any_changed-Keeps inputs revision

    is_stale-Keeps : (memo : Memo V) → Keeps (is_stale calls memo)
    unfolding is_stale
    is_stale-Keeps memo = bind-Keeps (check_durability-Keeps memo) λ durable.
        if-Keeps durable (pure-Keeps false) (inputs_changed-Keeps memo.inputs memo.verified_at)

    mark_verified-Keeps : (now : Revision) (memo : Memo V) → Keeps (mark_verified calls now memo)
    unfolding mark_verified
    mark_verified-Keeps now memo =
        bind-Keeps (unwrap-Keeps (mark_value_as_verified now memo)) λ verified. pure-Keeps _

    pub validate_memoized_value-Keeps :
        (now : Revision) (memo : Memo V) → Keeps (validate_memoized_value calls now memo)
    unfolding validate_memoized_value
    validate_memoized_value-Keeps now memo = go memo.value
      where
        checked : Option V → M (Database V L) (Option (StampedValue V × Memo V))
        checked value = elim value [
          | none ↦ pure none
          | some _ ↦ if memo.verified_at == now then panic else (do
            stale ← is_stale calls memo
            if stale then pure none else mark_verified calls now memo)
        ]

        go : (value : Option V) → Keeps (checked value)
        go none = pure-Keeps none
        go (some _) = if-Keeps (memo.verified_at == now) panic-Keeps (
            bind-Keeps (is_stale-Keeps memo)
              λ stale. if-Keeps stale (pure-Keeps none) (mark_verified-Keeps now memo))

    pub run_program-Keeps : (program : Program V) → Keeps (run_program calls program)
    unfolding run_program
    run_program-Keeps (done v) = pure-Keeps v
    run_program-Keeps (fetch key k) = bind-Keeps (keep.gets_keep key) λ v. run_program-Keeps (k v)
    run_program-Keeps (read_untracked k) =
        bind-Keeps report_untracked-Keeps
          λ _. bind-Keeps (gets-Keeps _) λ v. run_program-Keeps (k v)
    run_program-Keeps (check_canceled k) =
        bind-Keeps is_current_revision_canceled-Keeps λ canceled. run_program-Keeps (k canceled)
    run_program-Keeps crash = panic-Keeps
