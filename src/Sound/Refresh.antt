-- ===== src/Sound/Refresh.antt =====
-- Validating or running a query for its slot: `refresh`, on calls that keep their contract.
use salsa.Base.{
  ℕ, ◌≤◌, ◌<◌, ◌≡◌, refl, sym, ◌∙◌, ap, subst, inl, inr, Bool, false, Option, none, some, [], ◌∷◌,
  arith, ◌==◌, Bool-cases, Option-cases, if◌then◌else◌, if_neg, ℕ_discrete,
}
use salsa.Base.Outcome.{Outcome, returns, M, and_then, unwrap, pure, clean_up, ◌>>=◌, ◌>>◌, panic}
use salsa.Revision.{start}
use salsa.Key.{DatabaseKey, derived}
use salsa.Derived.Memo.{
  Memo, StampedValue, QueryState, not_computed, in_progress, memoized, stamp,
  mark_value_as_verified, in_progress_by,
}
use salsa.Database.State.{Database, did_validate_memoized_value, write_state, emit}
use salsa.Database.Calls.{Calls}
use salsa.Database.Validate.{is_stale, mark_verified, validate_memoized_value}
use salsa.Database.Execute.{recompute}
use salsa.Database.Read.{
  take_memo, proceed, validate, settle, overwrite_placeholder, refresh_from, refresh,
}
use salsa.Sound.Spec.{Answer, Setting}
use salsa.Sound.Invariant.{
  Laws, Inv, Later, IsPastClosed, IsUnchanged, Observed, IsFree, MemoOk, SlotOk,
}
use salsa.Sound.Change.{Later-trans, Later-refl, IsFloored-mono, with_outer-Inv, with_outer-Later}
use salsa.Sound.Slots.{write-Inv, write-Later, with_floor, with_floor-at, with_floor-grows}
use salsa.Sound.Contract.{StampOk, CallsOk}
use salsa.Sound.Verify.{Added, steady-IsUnchanged, Judged, is_stale-Judged}
use salsa.Sound.Placeholder.{busy_too, finish-Writes, proceed-run, start-Writes}
use salsa.Sound.Recompute.{OldOk, Recomputed, recompute_ok}

module _ {V L : Type 0} (S : Setting V L) (laws : Laws S) (past_closed : IsPastClosed S)
    (started : start ≤ S.now) where
  open S use {config, rank, now, den, world, past, me}

  -- A memo that was verified now gives a stamp.
  pub verified-StampOk :
      (seen : ℕ → Type 0) (k : ℕ) (m : Memo V) (a : Answer V)
      → den now (derived k) ≡ some a
      → MemoOk S seen k m
      → m.verified_at ≡ now
      → StampOk S seen (derived k) a m.durability m.changed_at
  verified-StampOk seen k m a e ok v =
      let same : ok.answer ≡ a = cc (ok.means, ap (λ r. den r (derived k)) v, e) in
      record {
        durable = subst (λ (t : Answer V). m.durability ≤ t.durability) same ok.durable;
        not_later = omega (arith, ok.ordered, ok.not_later);
        unchanged =
            subst (λ (t : Answer V). IsUnchanged S m.changed_at (derived k) t.value) same
              (steady-IsUnchanged S laws past_closed k m.changed_at ok.answer
                (e ∙ ap some (sym same)) ok.steady);
        known = ok.known_now v;
      }

  -- What a read of a slot gives.
  pub record Refreshed (n k : ℕ) (seen : ℕ → Type 0) (busy : ℕ → Bool) (db : Database V L)
      (inv : Inv S seen busy db) (a : Answer V) (result : Outcome (Database V L) (StampedValue V))
      : Type 1 where
    pub db' : Database V L
    pub seen' : ℕ → Type 0
    pub value : StampedValue V
    pub returned : result ≡ returns value db'
    pub after : Inv S seen' busy db'
    pub later : Later S n seen seen' inv.floor after.floor db db'
    pub stack : db'.runtime.local_state ≡ db.runtime.local_state
    pub right : value.value ≡ a.value
    pub stamp : StampOk S seen' (derived k) a value.durability value.changed_at
    pub at_floor : after.floor (derived k) ≡ value.changed_at

  module _ (n k : ℕ) (a : Answer V) (e : den now (derived k) ≡ some a) (lt : rank k < n)
      (seen : ℕ → Type 0) (busy : ℕ → Bool) (db : Database V L) (inv : Inv S seen busy db)
      (idle : busy k ≡ false) (calls : Calls V L) where
    -- The database with the placeholder.
    abbrev placed : Database V L
    placed = write_state k (in_progress db.runtime.id []) db

    abbrev busy_now : ℕ → Bool
    busy_now = busy_too busy k

    abbrev placed-Inv : Inv S seen busy_now placed
    placed-Inv =
        write-Inv S seen seen busy busy_now inv.floor db k (in_progress db.runtime.id []) inv
          (start-Writes S laws past_closed started k seen busy db inv)

    -- What the validation did so far, and a memo to store.
    finish :
        (seen1 : ℕ → Type 0) (db1 : Database V L) (inv1 : Inv S seen1 busy_now db1)
        (r : Outcome (Database V L) (StampedValue V × Memo V))
        (result : Outcome (Database V L) (StampedValue V))
        → Later S (rank k) seen seen1 inv.floor inv1.floor placed db1
        → db1.runtime.local_state ≡ db.runtime.local_state
        → (R : Recomputed S laws past_closed started k seen1 busy_now db1 inv1 a r)
        → result ≡ returns R.value (write_state k (memoized R.memo) R.db')
        → Refreshed n k seen busy db inv a result
    finish seen1 db1 inv1 r result later stack R run =
        let seen2 = Added R.seen' k in
        let floor2 = with_floor R.after.floor k R.memo.changed_at in
        let start-w = start-Writes S laws past_closed started k seen busy db inv in
        let w =
          finish-Writes S laws past_closed started k R.seen' busy R.db' R.after.floor R.memo idle
            R.memo_ok R.observed R.above R.floored in
        let stamp_ok = verified-StampOk seen2 k R.memo a e R.memo_ok R.verified in
        record {
          db' = write_state k (memoized R.memo) R.db';
          seen' = seen2;
          value = R.value;
          returned = run;
          after =
              write-Inv S R.seen' seen2 busy_now busy floor2 R.db' k (memoized R.memo) R.after w;
          later =
              Later-trans S (omega arith)
                (write-Later S n seen seen busy busy_now inv.floor inv.floor db k
                  (in_progress db.runtime.id []) lt start-w)
                (Later-trans S (omega arith) later (
                  Later-trans S (omega arith) R.later (
                    write-Later S n R.seen' seen2 busy_now busy R.after.floor floor2 R.db' k
                      (memoized R.memo) lt w)));
          stack = R.stack ∙ stack;
          right = R.right;
          stamp =
              subst (λ c. StampOk S seen2 (derived k) a R.value.durability c) (sym R.same_revision)
                (subst (λ d. StampOk S seen2 (derived k) a d R.memo.changed_at)
                  (sym R.same_durability) stamp_ok);
          at_floor = with_floor-at R.after.floor k R.memo.changed_at ∙ sym R.same_revision;
        }

    IsFree-now : IsFree S busy (rank k) → IsFree S busy_now (rank k)
    IsFree-now free j h =
        if_neg (ℕ_discrete j k) (λ f. absurd (omega (arith, ap rank f))) _ _ ∙ free j h

    old-keeps :
        (seen1 : ℕ → Type 0) (floor1 : DatabaseKey → ℕ) (db1 : Database V L) (m : Memo V)
        → Later S (rank k) seen seen1 inv.floor floor1 placed db1
        → OldOk S laws past_closed started seen inv.floor k (some m)
        → OldOk S laws past_closed started seen floor1 k (some m)
    old-keeps seen1 floor1 db1 m later (ok, f) = (ok, later.keeps k (omega arith) ∙ f)

    abbrev clean : Option (Memo V) → M (Database V L) (Unit {0})
    clean old = overwrite_placeholder k old

    abbrev stored : StampedValue V × Memo V → M (Database V L) (StampedValue V)
    stored p = proceed k p.1 >> pure p.0

    -- The query is run.
    run_again :
        CallsOk S calls (rank k)
        → IsFree S busy (rank k)
        → (seen1 : ℕ → Type 0) (db1 : Database V L) (inv1 : Inv S seen1 busy_now db1)
        → Later S (rank k) seen seen1 inv.floor inv1.floor placed db1
        → db1.runtime.local_state ≡ db.runtime.local_state
        → (old : Option (Memo V)) → OldOk S laws past_closed started seen inv1.floor k old
        → (result : Outcome (Database V L) (StampedValue V))
        → result ≡ clean_up (clean old) (settle config calls k now old none db1)
        → Refreshed n k seen busy db inv a result
    unfolding settle
    run_again calls_ok free seen1 db1 inv1 later stack old ok result run =
        let R =
          recompute_ok S laws past_closed started k a e seen1 busy_now db1 inv1 calls calls_ok
            (IsFree-now free) old seen ok in
        finish seen1 db1 inv1 (recompute config calls k now old db1) result later stack R (
          run
          ∙ ap (λ t. clean_up (clean old) (and_then t stored)) R.returned
          ∙ ap (λ t. clean_up (clean old) (and_then t (λ _. pure R.value)))
              (proceed-run S laws past_closed started k R.seen' busy R.db' R.memo R.after))

    -- The memo was found valid.
    keep_memo :
        (seen1 : ℕ → Type 0) (db1 : Database V L) (inv1 : Inv S seen1 busy_now db1)
        → Later S (rank k) seen seen1 inv.floor inv1.floor placed db1
        → db1.runtime.local_state ≡ db.runtime.local_state
        → (m : Memo V) (v : V) → MemoOk S (Added seen1 k) k (record m { verified_at = now })
        → Observed S (Added seen1 k) now (config.execute k)
        → v ≡ a.value
        → inv1.floor (derived k) ≡ m.changed_at
        → (old : Option (Memo V)) (result : Outcome (Database V L) (StampedValue V))
        → result
          ≡ clean_up
              (clean old)
              (settle config calls k now old (some (stamp v m, record m { verified_at = now })) db1)
        → Refreshed n k seen busy db inv a result
    unfolding settle stamp
    keep_memo seen1 db1 inv1 later stack m v ok observed right f old result run =
        let memo = record m { verified_at = now } in
        let db2 = emit (did_validate_memoized_value (derived k)) db1 in
        let inv2 : Inv S seen1 busy_now db2 =
          with_outer-Inv S seen1 busy_now db1.runtime.local_state db1.lru
            (did_validate_memoized_value (derived k) ∷ db1.events) db1 inv1 in
        let R : Recomputed S laws past_closed started k seen1 busy_now db2 inv2 a
            (returns (stamp v m, memo) db2) =
          record {
            db' = db2;
            seen' = seen1;
            value = stamp v m;
            memo = memo;
            returned = refl;
            after = inv2;
            later = Later-refl S (rank k) seen1 inv2.floor db2;
            stack = refl;
            memo_ok = ok;
            observed = observed;
            right = right;
            same_revision = refl;
            same_durability = refl;
            verified = refl;
            above = omega (arith, f);
            floored =
                IsFloored-mono S {seen = seen1} {seen' = Added seen1 k} (λ j h. inl h) inv1.floor
                  (with_floor inv1.floor k m.changed_at)
                  (with_floor-grows inv1.floor k m.changed_at (omega (arith, f))) k
                  (with_floor-at inv1.floor k m.changed_at ∙ sym f) (inv1.floored k);
          } in
        finish seen1 db2 inv2 (returns (stamp v m, memo) db2) result
          (Later-trans S (omega arith) later (
            with_outer-Later S (rank k) seen1 inv1.floor db1.runtime.local_state db1.lru
              (did_validate_memoized_value (derived k) ∷ db1.events) db1))
          stack R
          (run
            ∙ ap (λ t. clean_up (clean old) (and_then t (λ _. pure (stamp v m))))
                (proceed-run S laws past_closed started k seen1 busy db2 memo inv2))

    -- The old memo is of an earlier revision if it has a value.
    abbrev pub IsOld : Option (Memo V) → Type 0
    IsOld none = Unit {0}
    IsOld (some m) = (v : V) → m.value ≡ some v → m.verified_at < now

    module _ (calls_ok : CallsOk S calls (rank k)) (free : IsFree S busy (rank k)) where
      -- Validation asks for a run.
      invalid_run :
          (seen1 : ℕ → Type 0) (db1 : Database V L) (inv1 : Inv S seen1 busy_now db1)
          → Later S (rank k) seen seen1 inv.floor inv1.floor placed db1
          → db1.runtime.local_state ≡ db.runtime.local_state
          → (m : Memo V) → OldOk S laws past_closed started seen inv.floor k (some m)
          → validate_memoized_value calls now m placed ≡ returns none db1
          → Refreshed n k seen busy db inv a (refresh_from config calls k now (some m) placed)
      unfolding refresh_from validate
      invalid_run seen1 db1 inv1 later stack m ok run =
          run_again calls_ok free seen1 db1 inv1 later stack (some m)
            (old-keeps seen1 inv1.floor db1 m later ok) _
            (ap (λ t. clean_up (clean (some m)) (and_then t (settle config calls k now (some m))))
              run)

      Judged-run :
          (m : Memo V) (v : V) (ok : MemoOk S seen k m)
          → inv.floor (derived k) ≡ m.changed_at
          → m.value ≡ some v
          → m.verified_at < now
          → (judged : Judged S laws past_closed k seen m ok a e busy_now placed placed-Inv
              (is_stale calls m placed))
          → Refreshed n k seen busy db inv a (refresh_from config calls k now (some m) placed)
      unfolding refresh_from validate validate_memoized_value mark_verified mark_value_as_verified
      Judged-run m v ok f g old judged = elim (Bool-cases judged.stale) [
        | inl yes' ↦
            invalid_run judged.seen' judged.db' judged.after judged.later judged.stack m (ok, f)
              (validated ∙ ap (λ b. decide b judged.db') yes')
        | inr no' ↦
            let (memo_ok, observed, same) = judged.valid no' in
            keep_memo judged.seen' judged.db' judged.after judged.later judged.stack m v memo_ok
              observed (ok.holds v g ∙ same) (judged.later.keeps k (omega arith) ∙ f) (some m) _
              (ap (λ t. clean_up (clean (some m)) (and_then t (settle config calls k now (some m))))
                (validated ∙ ap (λ b. decide b judged.db') no' ∙ marked))
      ]
        where
          decide : Bool → M (Database V L) (Option (StampedValue V × Memo V))
          decide stale = if stale then pure none else mark_verified calls now m

          checked : Option V → M (Database V L) (Option (StampedValue V × Memo V))
          checked t = elim t [
            | none ↦ pure none
            | some _ ↦ if m.verified_at == now then panic else (is_stale calls m >>= decide)
          ]

          verified : Option V → Option (StampedValue V × Memo V)
          verified t = elim t [
            | none ↦ none
            | some u ↦ some (stamp u m, record m { verified_at = now })
          ]

          not_now : (m.verified_at == now) ≡ false
          not_now = ground arith

          validated : validate_memoized_value calls now m placed ≡ decide judged.stale judged.db'
          validated =
              ap (λ t. checked t placed) g
              ∙ ap (λ (b : Bool). (if b then panic else (is_stale calls m >>= decide)) placed)
                  not_now
              ∙ ap (λ t. and_then t decide) judged.returned

          marked :
              mark_verified calls now m judged.db'
              ≡ returns (some (stamp v m, record m { verified_at = now })) judged.db'
          marked = ap (λ t. and_then (unwrap (verified t) judged.db') (λ r. pure (some r))) g

      refresh_from_ok :
          (old : Option (Memo V))
          → OldOk S laws past_closed started seen inv.floor k old
          → IsOld old
          → Refreshed n k seen busy db inv a (refresh_from config calls k now old placed)
      unfolding refresh_from validate validate_memoized_value
      refresh_from_ok none ok old =
          run_again calls_ok free seen placed placed-Inv
            (Later-refl S (rank k) seen inv.floor placed) refl none ok _ refl
      refresh_from_ok (some m) (ok, f) old = elim (Option-cases m.value) [
        | inl none' ↦
            invalid_run seen placed placed-Inv (Later-refl S (rank k) seen inv.floor placed) refl m
              (ok, f) (absent none')
        | inr (v, g) ↦ Judged-run m v ok f g (old v g) (
            is_stale-Judged S laws past_closed k seen m ok a e calls calls_ok (old v g) busy_now
              placed placed-Inv (IsFree-now free))
      ]
        where
          absent : m.value ≡ none → validate_memoized_value calls now m placed ≡ returns none placed
          absent none' = rw (none', validate_memoized_value)

      -- `refresh` on a slot that is not up to date.
      pub refresh_ok :
          ((m : Memo V) → db.slots k ≡ memoized m → IsOld (some m))
          → Refreshed n k seen busy db inv a (refresh config calls k now db)
      unfolding refresh take_memo in_progress_by
      refresh_ok old =
          go (db.slots k) refl (subst (λ b. SlotOk S seen k b (db.slots k)) idle (inv.slots_ok k))
        where
          taken : (st : QueryState V) → M (Database V L) (StampedValue V)
          taken st = take_memo st >>= refresh_from config calls k now

          go :
              (st : QueryState V)
              → db.slots k ≡ st
              → SlotOk S seen k false st
              → Refreshed n k seen busy db inv a (refresh config calls k now db)
          go not_computed f ok =
              subst (Refreshed n k seen busy db inv a) (ap (λ t. taken t placed) (sym f))
                (refresh_from_ok none tt tt)
          go (memoized m) f ok =
              subst (Refreshed n k seen busy db inv a) (ap (λ t. taken t placed) (sym f))
                (refresh_from_ok (some m) (ok, inv.of_memo k m f) (old m f))
          go (in_progress id waiting) f ok = elim ok [ ]
