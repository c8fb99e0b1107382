-- ===== src/Sound/Conclude.antt =====
-- How `maybe_changed_since` leaves the slot that it was asked about: `conclude`.
use salsa.Base.{
  ℕ, ◌<◌, ◌≡◌, refl, sym, ◌∙◌, ap, subst, inl, inr, Bool, true, false, none, arith, ◌==◌,
  Bool-cases,
}
use salsa.Base.Outcome.{Outcome, returns}
use salsa.Derived.Memo.{Memo, QueryState, not_computed, memoized, has_untracked_input}
use salsa.Derived.Slot.{evict}
use salsa.Database.State.{Database, write_state}
use salsa.Database.Calls.{Calls}
use salsa.Database.Read.{update_entry, conclude}
use salsa.Sound.Spec.{Setting}
use salsa.Sound.Invariant.{Inv, Later, IsKept, Observed, MemoOk, SlotOk}
use salsa.Sound.Change.{IsFloored-mono}
use salsa.Sound.Slots.{Writes, write-Inv, write-Later}
use salsa.Sound.Verify.{Added}

memoized-injective : {V : Type 0} {m m' : Memo V} → memoized m ≡ memoized m' → m ≡ m'
memoized-injective f = cc

module _ {V L : Type 0} (S : Setting V L) (calls : Calls V L) (k n : ℕ) (lt : S.rank k < n) where
  open S use {config, rank, now, den}

  -- A memo that was kept, or lost its value.
  pub kept_memo :
      (m : Memo V) (st : QueryState V)
      → IsKept S (memoized m) st
      → (m' : Memo V) × (st ≡ memoized m')
        × (m'.verified_at ≡ m.verified_at)
        × (m'.inputs ≡ m.inputs)
  unfolding evict
  kept_memo m st (inl e) = (m, e, refl, refl)
  kept_memo m st (inr e) = elim (Bool-cases (has_untracked_input m)) [
    | inl u ↦ (m, ground arith, refl, refl)
    | inr u ↦ (record m { value = none }, ground arith, refl, refl)
  ]

  module _ (seen : ℕ → Type 0) (busy : ℕ → Bool) (db : Database V L) (inv : Inv S seen busy db)
      (idle : busy k ≡ false) (m : Memo V) (slot : db.slots k ≡ memoized m)
      (old : m.verified_at < now) where
    not_now : (m.verified_at == now) ≡ false
    not_now = ground arith

    entry :
        (b : Bool) (st : QueryState V)
        → update_entry config calls now b (memoized m) ≡ st
        → conclude config calls k now b db ≡ returns b (write_state k st db)
    unfolding conclude
    entry b st f =
        ap (λ t. returns b (write_state k (update_entry config calls now b t) db)) slot
        ∙ ap (λ t. returns b (write_state k t db)) f

    pub record Concluded (result : Outcome (Database V L) Bool) : Type 1 where
      pub db' : Database V L
      pub returned : result ≡ returns false db'
      pub after : Inv S (Added seen k) busy db'
      pub later : Later S n seen (Added seen k) inv.floor after.floor db db'
      pub stack : db'.runtime.local_state ≡ db.runtime.local_state

    pub record Dropped (result : Outcome (Database V L) Bool) : Type 1 where
      pub db' : Database V L
      pub returned : result ≡ returns true db'
      pub after : Inv S seen busy db'
      pub later : Later S n seen seen inv.floor after.floor db db'
      pub stack : db'.runtime.local_state ≡ db.runtime.local_state

    -- The memo is dropped.
    pub conclude-Dropped : Dropped (conclude config calls k now true db)
    unfolding update_entry
    conclude-Dropped = record {
      db' = write_state k not_computed db;
      returned = entry true not_computed dropped;
      after = write-Inv S seen seen busy busy inv.floor db k not_computed inv writes;
      later = write-Later S n seen seen busy busy inv.floor inv.floor db k not_computed lt writes;
      stack = refl;
    }
      where
        dropped : update_entry config calls now true (memoized m) ≡ not_computed
        dropped = ground arith

        writes : Writes S seen seen busy busy inv.floor inv.floor k not_computed
        writes = record {
          knows = λ j h. h;
          back = λ j ne h. h;
          same_busy = λ j ne. refl;
          slot_ok = subst (λ b. SlotOk S seen k b not_computed) (sym idle) tt;
          closes = inv.closed k;
          grows = λ key. omega arith;
          others = λ j ne. refl;
          inputs = λ i. refl;
          floored = inv.floored k;
          of_memo = λ m' h. cc;
        }

    -- The memo is marked as verified.
    pub conclude_verified :
        MemoOk S (Added seen k) k (record m { verified_at = now })
        → Observed S (Added seen k) now (config.execute k)
        → Concluded (conclude config calls k now false db)
    unfolding update_entry
    conclude_verified ok observed = record {
      db' = write_state k (memoized memo) db;
      returned = entry false (memoized memo) marked;
      after = write-Inv S seen (Added seen k) busy busy inv.floor db k (memoized memo) inv writes;
      later =
          write-Later S n seen (Added seen k) busy busy inv.floor inv.floor db k (memoized memo) lt
            writes;
      stack = refl;
    }
      where
        memo : Memo V
        memo = record m { verified_at = now }

        marked : update_entry config calls now false (memoized m) ≡ memoized memo
        marked = ground arith

        writes : Writes S seen (Added seen k) busy busy inv.floor inv.floor k (memoized memo)
        writes = record {
          knows = λ j h. inl h;
          back = λ j ne h. elim h [ inl s ↦ s | inr e ↦ absurd (ne e) ];
          same_busy = λ j ne. refl;
          slot_ok = subst (λ b. SlotOk S (Added seen k) k b (memoized memo)) (sym idle) ok;
          closes = λ h. observed;
          grows = λ key. omega arith;
          others = λ j ne. refl;
          inputs = λ i. refl;
          floored =
              IsFloored-mono S {seen = seen} {seen' = Added seen k} (λ j h. inl h) inv.floor
                inv.floor (λ key. omega arith) k refl (inv.floored k);
          of_memo = λ m' h.
              inv.of_memo k m slot ∙ ap (λ (t : Memo V). t.changed_at) (memoized-injective h);
        }
