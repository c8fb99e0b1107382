-- ===== src/Sound/Read.antt =====
-- Reading a slot: `probe`, `read_upgrade` and `read`, on calls that keep their contract.
use salsa.Base.{
  ℕ, ◌≤◌, ◌<◌, ◌≡◌, refl, sym, ◌∙◌, ap, subst, ◌⊎◌, inl, inr, Bool, false, Option, none, some,
  arith, ◌==◌, Bool-cases, Option-cases, if◌then◌else◌,
}
use salsa.Base.Outcome.{Outcome, returns, M, and_then, pure}
use salsa.Revision.{Revision, start}
use salsa.Key.{derived}
use salsa.Derived.Memo.{Memo, StampedValue, QueryState, not_computed, in_progress, memoized, stamp}
use salsa.Database.State.{Database}
use salsa.Database.Calls.{Calls}
use salsa.Database.Read.{
  Fetched, ok, ProbeState, up_to_date, stale_or_absent, probe, probe_memo, refresh, refresh_unless,
  read_upgrade, upgrade_unless, read,
}
use salsa.Sound.Spec.{Answer, Setting}
use salsa.Sound.Invariant.{Laws, Inv, IsPastClosed, IsFree, MemoOk, SlotOk}
use salsa.Sound.Change.{Later-refl}
use salsa.Sound.Contract.{CallsOk}
use salsa.Sound.Recompute.{current_revision-now}
use salsa.Sound.Refresh.{Refreshed, verified-StampOk, refresh_ok}

module _ {V L : Type 0} (S : Setting V L) (laws : Laws S) (past_closed : IsPastClosed S)
    (started : start ≤ S.now) where
  open S use {config, rank, now, den}

  module _ (n k : ℕ) (a : Answer V) (e : den now (derived k) ≡ some a) (lt : rank k < n)
      (seen : ℕ → Type 0) (busy : ℕ → Bool) (db : Database V L) (inv : Inv S seen busy db)
      (idle : busy k ≡ false) where
    -- A read that ends with a value.
    pub record ReadOk (result : Outcome (Database V L) (Fetched (StampedValue V))) : Type 1 where
      pub run : Outcome (Database V L) (StampedValue V)
      pub value_ok : Refreshed S laws past_closed started n k seen busy db inv a run
      pub returned : result ≡ returns (ok value_ok.value) value_ok.db'

    -- The slot holds a value of this revision.
    abbrev UpToDate : Type 0
    UpToDate =
        (m : Memo V) × (v : V) × (db.slots k ≡ memoized m)
        × (m.value ≡ some v)
        × (m.verified_at ≡ now)
        × (probe now (db.slots k) db ≡ returns (up_to_date (ok (stamp v m))) db)

    -- The slot holds no value of this revision.
    abbrev IsStale : Type 0
    IsStale =
        (m : Memo V) → db.slots k ≡ memoized m → (v : V) → m.value ≡ some v → m.verified_at < now

    slot_idle : SlotOk S seen k false (db.slots k)
    slot_idle = subst (λ b. SlotOk S seen k b (db.slots k)) idle (inv.slots_ok k)

    memo_at : (m : Memo V) → db.slots k ≡ memoized m → MemoOk S seen k m
    memo_at m f = subst (SlotOk S seen k false) f slot_idle

    memoized-injective : {m m' : Memo V} → memoized m ≡ memoized m' → m ≡ m'
    memoized-injective f = cc

    probe_at :
        (st : QueryState V)
        → db.slots k ≡ st
        → (p : ProbeState V) → probe now st db ≡ returns p db
        → probe now (db.slots k) db ≡ returns p db
    probe_at st f p run = ap (λ t. probe now t db) f ∙ run

    stale_memo :
        (m : Memo V)
        → db.slots k ≡ memoized m
        → ((v : V) → m.value ≡ some v → m.verified_at < now)
        → IsStale
    stale_memo m f old m' f' v g =
        let same : m ≡ m' = memoized-injective (sym f ∙ f') in
        subst (λ (t : Memo V). t.verified_at < now) same
          (old v (ap (λ (t : Memo V). t.value) same ∙ g))

    probe_cases : UpToDate ⊎ (IsStale × (probe now (db.slots k) db ≡ returns stale_or_absent db))
    unfolding probe probe_memo
    probe_cases = go (db.slots k) refl slot_idle
      where
        probed : Memo V → Option V → ProbeState V
        probed m t = elim t [
          | none ↦ stale_or_absent
          | some u ↦ if m.verified_at == now then up_to_date (ok (stamp u m)) else stale_or_absent
        ]

        go :
            (st : QueryState V)
            → db.slots k ≡ st
            → SlotOk S seen k false st
            → UpToDate ⊎ (IsStale × (probe now (db.slots k) db ≡ returns stale_or_absent db))
        go not_computed f h = inr (λ m g. cc, probe_at not_computed f stale_or_absent refl)
        go (in_progress id waiting) f h = elim h [ ]
        go (memoized m) f h = elim (Option-cases m.value) [
          | inl none' ↦ inr (
            stale_memo m f (λ v g. cc),
            probe_at (memoized m) f stale_or_absent (ap (λ t. returns (probed m t) db) none'),
          )
          | inr (v, g) ↦ elim (Bool-cases (m.verified_at == now)) [
            | inl yes' ↦
                let run : probed m (some v) ≡ up_to_date (ok (stamp v m)) = ground arith in
                inl (
                  m,
                  v,
                  f,
                  g,
                  ground arith,
                  probe_at (memoized m) f (up_to_date (ok (stamp v m)))
                      (ap (λ t. returns (probed m t) db) g ∙ ap (λ t. returns t db) run),
                )
            | inr no' ↦
                let run : probed m (some v) ≡ stale_or_absent = ground arith in
                inr (
                  stale_memo m f (λ u g'. ground (arith, h.not_later)),
                  probe_at (memoized m) f stale_or_absent
                      (ap (λ t. returns (probed m t) db) g ∙ ap (λ t. returns t db) run),
                )
          ]
        ]

    -- A read of a value of this revision changes nothing.
    found_ok :
        (m : Memo V) (v : V) (result : Outcome (Database V L) (Fetched (StampedValue V)))
        → db.slots k ≡ memoized m
        → m.value ≡ some v
        → m.verified_at ≡ now
        → result ≡ returns (ok (stamp v m)) db
        → ReadOk result
    unfolding stamp
    found_ok m v result f g h run =
        let memo_ok = memo_at m f in
        let same : memo_ok.answer ≡ a = cc (memo_ok.means, ap (λ r. den r (derived k)) h, e) in
        record {
          run = returns (stamp v m) db;
          value_ok = record {
            db' = db;
            seen' = seen;
            value = stamp v m;
            returned = refl;
            after = inv;
            later = Later-refl S n seen inv.floor db;
            stack = refl;
            right = memo_ok.holds v g ∙ ap (λ (t : Answer V). t.value) same;
            stamp = verified-StampOk S laws past_closed started seen k m a e memo_ok h;
            at_floor = inv.of_memo k m f;
          };
          returned = run;
        }

    module _ (calls : Calls V L) (calls_ok : CallsOk S calls (rank k))
        (free : IsFree S busy (rank k)) where
      refreshed_ok :
          (result : Outcome (Database V L) (Fetched (StampedValue V)))
          → IsStale
          → result ≡ and_then (refresh config calls k now db) (λ value. pure (ok value))
          → ReadOk result
      refreshed_ok result old run =
          let R =
            refresh_ok S laws past_closed started n k a e lt seen busy db inv idle calls calls_ok
              free old in
          record {
            run = refresh config calls k now db;
            value_ok = R;
            returned = run ∙ ap (λ t. and_then t (λ value. pure (ok value))) R.returned;
          }

      pub read_upgrade_ok : ReadOk (read_upgrade config calls k now db)
      unfolding read_upgrade refresh_unless
      read_upgrade_ok = elim probe_cases [
        | inl (m, v, f, g, h, run) ↦
            found_ok m v _ f g h (ap (λ t. and_then t (refresh_unless config calls k now)) run)
        | inr (old, run) ↦
            refreshed_ok _ old (ap (λ t. and_then t (refresh_unless config calls k now)) run)
      ]

      pub read_ok : ReadOk (read config calls k db)
      unfolding read upgrade_unless read_upgrade refresh_unless
      read_ok = elim probe_cases [
        | inl (m, v, f, g, h, run) ↦
            found_ok m v _ f g h
              (at_now ∙ ap (λ t. and_then t (upgrade_unless config calls k now)) run)
        | inr (old, run) ↦ refreshed_ok _ old (
            at_now
            ∙ ap (λ t. and_then t (upgrade_unless config calls k now)) run
            ∙ ap (λ t. and_then t (refresh_unless config calls k now)) run)
      ]
        where
          reading : Revision → M (Database V L) (Fetched (StampedValue V))
          reading revision_now db' =
              and_then (probe revision_now (db'.slots k) db')
                (upgrade_unless config calls k revision_now)

          at_now : read config calls k db ≡ reading now db
          at_now =
              ap (λ t. and_then t reading)
                (current_revision-now S laws past_closed started k a e seen busy db inv)
