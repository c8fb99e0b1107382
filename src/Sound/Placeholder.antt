-- ===== src/Sound/Placeholder.antt =====
-- The placeholder in the slot of a query that is read.
use salsa.Base.{
  ℕ, ◌≤◌, ◌≡◌, refl, sym, ◌∙◌, ap, subst, inl, inr, Bool, true, false, none, [], arith, ◌==◌,
  if◌then◌else◌, if_pos, if_neg, ℕ_discrete,
}
use salsa.Base.Outcome.{Outcome, returns, pure, panic, clean_up}
use salsa.Revision.{start}
use salsa.Key.{DatabaseKey, input, derived, DatabaseKey-discrete}
use salsa.Derived.Memo.{Memo, QueryState, not_computed, in_progress, memoized}
use salsa.Database.State.{Database, write_state, update}
use salsa.Database.Read.{check_placeholder, overwrite_placeholder, proceed}
use salsa.Sound.Spec.{Setting}
use salsa.Sound.Invariant.{Laws, Inv, IsPastClosed, Observed, IsFloored, MemoOk, SlotOk}
use salsa.Sound.Slots.{Writes, with_floor, with_floor-at, with_floor-other, with_floor-grows}
use salsa.Sound.Verify.{Added}

-- The slot is busy too.
abbrev pub busy_too : (ℕ → Bool) → ℕ → ℕ → Bool
busy_too busy k = update busy k true

module _ {V L : Type 0} (S : Setting V L) (laws : Laws S) (past_closed : IsPastClosed S)
    (started : start ≤ S.now) where
  open S use {config, rank, now, den, world, past, me}

  memoized-injective : {m m' : Memo V} → memoized m ≡ memoized m' → m ≡ m'
  memoized-injective f = cc

  module _ (k : ℕ) (seen : ℕ → Type 0) (busy : ℕ → Bool) (db : Database V L) where
    busy_at : busy_too busy k k ≡ true
    busy_at = if_pos (ℕ_discrete k k) refl _ _

    -- The write of a verified memo over the placeholder.
    pub finish-Writes :
        (floor : DatabaseKey → ℕ) (m : Memo V)
        → busy k ≡ false
        → MemoOk S (Added seen k) k m
        → Observed S (Added seen k) now (config.execute k)
        → floor (derived k) ≤ m.changed_at
        → IsFloored S (Added seen k) (with_floor floor k m.changed_at) k
        → Writes S seen
            (Added seen k)
            (busy_too busy k)
            busy
            floor
            (with_floor floor k m.changed_at)
            k
            (memoized m)
    finish-Writes floor m idle ok observed le floored = record {
      knows = λ j h. inl h;
      back = λ j ne h. elim h [ inl s ↦ s | inr e ↦ absurd (ne e) ];
      same_busy = λ j ne. sym (if_neg (ℕ_discrete j k) ne _ _);
      slot_ok = subst (λ b. SlotOk S (Added seen k) k b (memoized m)) (sym idle) ok;
      closes = λ h. observed;
      grows = with_floor-grows floor k m.changed_at le;
      others = λ j ne. with_floor-other floor k m.changed_at j ne;
      inputs = λ i. if_neg (DatabaseKey-discrete (input i) (derived k)) (λ e. cc) _ _;
      floored = floored;
      of_memo = λ m' h.
          with_floor-at floor k m.changed_at
          ∙ ap (λ (t : Memo V). t.changed_at) (memoized-injective h);
    }

    pub proceed-run :
        (m : Memo V)
        → Inv S seen (busy_too busy k) db
        → proceed k m db ≡ returns tt (write_state k (memoized m) db)
    unfolding proceed overwrite_placeholder check_placeholder
    proceed-run m inv =
        go (db.slots k) refl (subst (λ b. SlotOk S seen k b (db.slots k)) busy_at (inv.slots_ok k))
      where
        stored : Database V L
        stored = write_state k (memoized m) db

        checked : Outcome (Database V L) (Unit {0}) → Outcome (Database V L) (Unit {0})
        checked o = clean_up (overwrite_placeholder k none) o

        go :
            (st : QueryState V)
            → db.slots k ≡ st
            → SlotOk S seen k true st
            → proceed k m db ≡ returns tt (write_state k (memoized m) db)
        go (in_progress id waiting) f mine =
            ap (λ t. checked (check_placeholder t stored)) f
            ∙ ap (λ (b : Bool). checked (if b then pure tt stored else panic stored)) own_id
          where
            own_id : (id == db.runtime.id) ≡ true
            own_id = ground (arith, mine, inv.own)
        go not_computed f bad = elim bad [ ]
        go (memoized m') f bad = elim bad [ ]

    -- The placeholder.
    pub start-Writes :
        (inv : Inv S seen busy db)
        → Writes S seen seen busy
            (busy_too busy k)
            inv.floor
            inv.floor
            k
            (in_progress db.runtime.id [])
    start-Writes inv = record {
      knows = λ j h. h;
      back = λ j ne h. h;
      same_busy = λ j ne. if_neg (ℕ_discrete j k) ne _ _;
      slot_ok = subst (λ b. SlotOk S seen k b (in_progress db.runtime.id [])) (sym busy_at) inv.own;
      closes = inv.closed k;
      grows = λ key. omega arith;
      others = λ j ne. refl;
      inputs = λ i. refl;
      floored = inv.floored k;
      of_memo = λ m h. cc;
    }
