-- ===== src/Database/Balance/Get.antt =====
-- `QueryTable::get` of src/lib.rs, with `Slot::read` of src/derived/slot.rs, keeps the balance of a
-- database, if the calls below it do.
use salsa.Base.{
  ℕ, ◌≡◌, refl, sym, ap, subst, inl, inr, Bool, true, false, Option, none, some, if◌then◌else◌,
  Bool-cases, ◌==◌,
}
use salsa.Base.Outcome.{Outcome, blocks, M, and_then, pure, ◌>>=◌}
use salsa.Revision.{Revision}
use salsa.Key.{DatabaseKey, input, derived}
use salsa.Derived.Memo.{
  StampedValue, QueryState, not_computed, in_progress, memoized, has_untracked_input,
}
use salsa.Derived.Slot.{evict}
use salsa.Database.Program.{Config}
use salsa.Database.State.{Database, write_state}
use salsa.Database.Calls.{Calls}
use salsa.Database.Read.{
  Fetched, ok, cycle_detected, ProbeState, up_to_date, stale_or_absent, probe_memo, wait_for, probe,
  refresh, refresh_unless, read_upgrade, upgrade_unless, read, record_use, deliver, get_input, get,
}
use salsa.Database.Balance.{
  owner, Kept, Kept-refl, IsBalanced, returned, blocked, Keeps, and_then-IsBalanced, bind-Keeps,
  pure-Keeps, panic-Keeps, gets-Keeps, modify-Keeps, unwrap-Keeps, write_state-Kept,
}
use salsa.Database.Balance.Run.{CallsKeep, current_revision-Keeps, report_read-Keeps}
use salsa.Database.Balance.Read.{refresh-IsBalanced}

module _ {V : Type 0} where
  owner-evict : (state : QueryState V) → owner (evict state) ≡ owner state
  unfolding evict
  owner-evict not_computed = refl
  owner-evict (in_progress id waiting) = refl
  owner-evict (memoized memo) = elim (Bool-cases (has_untracked_input memo)) [
    | inl u ↦ ap (λ b. owner (chosen b)) u
    | inr u ↦ ap (λ b. owner (chosen b)) u
  ]
    where
      chosen : Bool → QueryState V
      chosen b = if b then memoized memo else memoized (record memo { value = none })

module _ {V L : Type 0} where
  pub wait_for-Keeps : {A : Type 0} (id : ℕ) (a : A) → Keeps {V = V} {L = L} (wait_for id a)
  unfolding wait_for
  wait_for-Keeps {A = A} id a = record { balanced = λ s. go s (id == s.runtime.id) }
    where
      waited : Database V L → Bool → Outcome (Database V L) A
      waited s b = if b then pure a s else blocks id s

      go : (s : Database V L) (b : Bool) → IsBalanced s s (waited s b)
      go s true = returned (Kept-refl s)
      go s false = blocked

  probe-Keeps : (now : Revision) (state : QueryState V) → Keeps {V = V} {L = L} (probe now state)
  unfolding probe
  probe-Keeps now not_computed = pure-Keeps _
  probe-Keeps now (in_progress id waiting) = wait_for-Keeps id _
  probe-Keeps now (memoized memo) = pure-Keeps _

  module _ (config : Config V L) (below : Calls V L) (keep : CallsKeep below) where
    refresh_unless-IsBalanced :
        (k : ℕ) (now : Revision) (p : ProbeState V) (s : Database V L)
        → owner (s.slots k) ≡ none
        → IsBalanced s s (refresh_unless config below k now p s)
    unfolding refresh_unless
    refresh_unless-IsBalanced k now (up_to_date answer) s idle = returned (Kept-refl s)
    refresh_unless-IsBalanced k now stale_or_absent s idle =
        and_then-IsBalanced (refresh config below k now s) (λ value. pure (ok value))
          (refresh-IsBalanced k s idle config below keep now) (λ value s' kept. returned kept)

    pub read_upgrade-Keeps : (k : ℕ) (now : Revision) → Keeps (read_upgrade config below k now)
    unfolding read_upgrade probe wait_for refresh_unless
    read_upgrade-Keeps k now = record { balanced = λ s. go s (s.slots k) refl }
      where
        reading : QueryState V → M (Database V L) (Fetched (StampedValue V))
        reading state = probe now state >>= refresh_unless config below k now

        waits :
            (s : Database V L) (id : ℕ) (b : Bool)
            → IsBalanced s s (
                and_then
                  (if b then pure (up_to_date cycle_detected) s else blocks id s)
                  (refresh_unless config below k now))
        waits s id true = returned (Kept-refl s)
        waits s id false = blocked

        balanced_at : (s : Database V L) → QueryState V → Type 0
        balanced_at s state = IsBalanced s s (reading state s)

        go :
            (s : Database V L) (state : QueryState V)
            → s.slots k ≡ state
            → balanced_at s (s.slots k)
        go s not_computed e =
            subst (balanced_at s) (sym e)
              (refresh_unless-IsBalanced k now stale_or_absent s (ap owner e))
        go s (memoized memo) e =
            subst (balanced_at s) (sym e)
              (refresh_unless-IsBalanced k now (probe_memo now memo) s (ap owner e))
        go s (in_progress id waiting) e =
            subst (balanced_at s) (sym e) (waits s id (id == s.runtime.id))

    upgrade_unless-Keeps :
        (k : ℕ) (now : Revision) (p : ProbeState V) → Keeps (upgrade_unless config below k now p)
    unfolding upgrade_unless
    upgrade_unless-Keeps k now (up_to_date answer) = pure-Keeps answer
    upgrade_unless-Keeps k now stale_or_absent = read_upgrade-Keeps k now

    read-Keeps : (k : ℕ) → Keeps (read config below k)
    unfolding read
    read-Keeps k = bind-Keeps current_revision-Keeps λ now.
        bind-Keeps (gets-Keeps _)
          λ state. bind-Keeps (probe-Keeps now state) λ probed. upgrade_unless-Keeps k now probed

    record_use-Keeps : (k : ℕ) → Keeps (record_use config below k)
    unfolding record_use
    record_use-Keeps k =
        modify-Keeps _ λ s. go s (config.record_use k s.lru).0 (config.record_use k s.lru).1
      where
        displaced : Database V L → Option ℕ → L → Database V L
        displaced s evicted lru =
            let db' : Database V L = record s { lru = lru } in
            (elim evicted [ none ↦ db' | some e ↦ write_state e (evict (db'.slots e)) db' ])

        go : (s : Database V L) (evicted : Option ℕ) (lru : L) → Kept s (displaced s evicted lru)
        go s none lru = record { same_id = refl; same_length = refl; same_owners = λ j. refl }
        go s (some e) lru =
            let kept = write_state-Kept e (evict (s.slots e)) s (owner-evict (s.slots e)) in
            record {
              same_id = kept.same_id;
              same_length = kept.same_length;
              same_owners = kept.same_owners;
            }

    deliver-Keeps :
        (k : ℕ) (answer : Fetched (StampedValue V)) → Keeps (deliver config below k answer)
    unfolding deliver
    deliver-Keeps k cycle_detected = panic-Keeps
    deliver-Keeps k (ok stamped) = bind-Keeps (record_use-Keeps k) λ _.
        bind-Keeps (report_read-Keeps (derived k) stamped.durability stamped.changed_at)
          λ _. pure-Keeps stamped.value

    pub get-Keeps : (key : DatabaseKey) → Keeps (get config below key)
    unfolding get get_input
    get-Keeps (input i) = bind-Keeps (gets-Keeps (λ (s : Database V L). s.inputs i)) λ slot.
        bind-Keeps (unwrap-Keeps slot) λ stamped.
          bind-Keeps (report_read-Keeps (input i) stamped.durability stamped.changed_at)
            λ _. pure-Keeps stamped.value
    get-Keeps (derived k) = bind-Keeps (read-Keeps k) λ answer. deliver-Keeps k answer
