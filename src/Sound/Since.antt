-- ===== src/Sound/Since.antt =====
-- Asking whether a key has changed since a revision: `maybe_changed_since`, on calls that keep
-- their contract.
use salsa.Base.{
  ℕ, ◌≤◌, ◌<◌, ◌≡◌, refl, sym, ◌∙◌, ap, subst, inl, inr, Bool, true, false, Option, none, some,
  List, [], ◌∷◌, arith, ltb, ◌==◌, Bool-cases, Option-cases, if◌then◌else◌,
}
use salsa.Base.Outcome.{Outcome, returns, M, and_then, pure, unwrap}
use salsa.Revision.{Revision, start}
use salsa.Durability.{Durability, max_durability}
use salsa.Key.{DatabaseKey, input, derived}
use salsa.Derived.Memo.{
  Memo, MemoInputs, tracked, no_inputs, untracked, StampedValue, QueryState, not_computed,
  in_progress, memoized,
}
use salsa.Database.State.{Database}
use salsa.Database.Calls.{Calls}
use salsa.Database.Validate.{check_durability, any_changed}
use salsa.Database.Read.{
  changed_after, conclude, check_inputs, check_memo, check_state, maybe_changed_since, read_upgrade,
}
use salsa.Sound.Spec.{Answer, KeyBelow, Setting}
use salsa.Sound.Invariant.{
  Laws, Inv, IsKept, IsKnown, IsConstant, IsPastClosed, IsUnchanged, Covers, RecordsInputs, IsFree,
  InputOk, MemoOk, SlotOk,
}
use salsa.Sound.Paths.{Observed-mono, Observed-high}
use salsa.Sound.Change.{Later-trans, Later-refl}
use salsa.Sound.Contract.{StampOk, Checked, CallsOk}
use salsa.Sound.Recompute.{current_revision-now}
use salsa.Sound.Refresh.{verified-StampOk}
use salsa.Sound.Read.{read_upgrade_ok}
use salsa.Sound.Verify.{
  Added, path_value, steady-IsUnchanged, Agrees-IsUnchanged, verified-MemoOk, constant-MemoOk,
  check_list, agreed_value, check_durability_at,
}
use salsa.Sound.Conclude.{kept_memo, conclude-Dropped, conclude_verified}

module _ {V L : Type 0} (S : Setting V L) where
  open S use {config, rank, now, den, past}

  -- A value that did not change after `c` did not change after a later revision.
  stamp_sound :
      (seen : ℕ → Type 0) (key : DatabaseKey) (a : Answer V) (d : Durability) (c rev : Revision)
      → StampOk S seen key a d c
      → ltb rev c ≡ false
      → IsUnchanged S rev key a.value × IsKnown S seen key
  stamp_sound seen key a d c rev stamp h =
      let le : c ≤ rev = ground arith in
      (λ r lt known g. stamp.unchanged r lt known (omega arith), stamp.known)

  module _ (n : ℕ) (rev : Revision) (seen : ℕ → Type 0) (busy : ℕ → Bool) (db : Database V L)
      (inv : Inv S seen busy db) (key : DatabaseKey) (a : Answer V) where
    -- An answer at once.
    answered :
        (b : Bool) (result : Outcome (Database V L) Bool)
        → result ≡ returns b db
        → (b ≡ false → IsUnchanged S rev key a.value × IsKnown S seen key)
        → Checked S n seen busy db inv key a rev result
    answered b result run sound = record {
      db' = db;
      seen' = seen;
      changed = b;
      returned = run;
      inv = inv;
      later = Later-refl S n seen inv.floor db;
      stack = refl;
      sound = sound;
    }

  input_since :
      (n : ℕ) (rev : Revision) (seen : ℕ → Type 0) (busy : ℕ → Bool) (db : Database V L)
      (inv : Inv S seen busy db) (calls : Calls V L) (i : ℕ) (a : Answer V)
      → den now (input i) ≡ some a
      → Checked S n seen busy db inv
          (input i)
          a
          rev
          (maybe_changed_since config calls (input i) rev db)
  unfolding maybe_changed_since
  input_since n rev seen busy db inv calls i a e = go (db.inputs i) refl (inv.inputs_ok i)
    where
      reading : Option (StampedValue V) → M (Database V L) Bool
      reading slot db1 = and_then (unwrap slot db1) (λ stamped. pure (ltb rev stamped.changed_at))

      go :
          (slot : Option (StampedValue V))
          → db.inputs i ≡ slot
          → InputOk S i slot
          → Checked S n seen busy db inv
              (input i)
              a
              rev
              (maybe_changed_since config calls (input i) rev db)
      go none f h = absurd cc
      go (some s) f (h, le, unchanged) =
          let same : a ≡ record { value = s.value; durability = s.durability } = cc in
          answered n rev seen busy db inv (input i) a (ltb rev s.changed_at) _
            (ap (λ t. reading t db) f)
            (λ g.
              let le' : s.changed_at ≤ rev = ground arith in
              (
                λ r lt known h'.
                    subst (λ (t : Answer V). IsUnchanged S rev (input i) t.value) (sym same)
                      (λ r' lt' known' g'. unchanged r' lt' known' (omega arith)) r lt known h',
                tt,
              ))

  module _ (laws : Laws S) (past_closed : IsPastClosed S) (started : start ≤ now)
      (calls : Calls V L) (n k : ℕ) (lt : rank k < n) (calls_ok : CallsOk S calls (rank k))
      (a : Answer V) (e : den now (derived k) ≡ some a) (rev : Revision) (earlier : rev < now)
      (known : IsKnown S (past rev) (derived k)) (seen : ℕ → Type 0) (busy : ℕ → Bool)
      (db : Database V L) (inv : Inv S seen busy db) (free : IsFree S busy n) where
    idle : busy k ≡ false
    idle = free k lt

    abbrev CheckedNow : Outcome (Database V L) Bool → Type 1
    CheckedNow = Checked S n seen busy db inv (derived k) a rev

    -- The memo of an earlier revision.
    module _ (m : Memo V) (slot : db.slots k ≡ memoized m) (old : m.verified_at < now)
        (fine : MemoOk S seen k m) where
      -- A memo that is found to be durable is marked as verified.
      constant_since :
          (result : Outcome (Database V L) Bool)
          → IsConstant S k
          → result ≡ conclude config calls k now false db
          → CheckedNow result
      constant_since result (b, one, all) run =
          let same : b ≡ a = cc (all now, e) in
          let C =
            conclude_verified S calls k n lt seen busy db inv idle m slot old
              (constant-MemoOk S laws past_closed k seen m fine a e (b, one, all) (Added seen k))
              (Observed-high S laws (Added seen k) now (config.execute k) max_durability b
                (path_value S laws past_closed now k (all now)) one) in
          record {
            db' = C.db';
            seen' = Added seen k;
            changed = false;
            returned = run ∙ C.returned;
            inv = C.after;
            later = C.later;
            stack = C.stack;
            sound = λ _. (
              steady-IsUnchanged S laws past_closed k rev a e
                  (λ r h p le. (b, all r, ap (λ (t : Answer V). t.value) same)),
              inl (inr refl),
            );
          }

      -- The inputs were checked, and the slot is marked or emptied.
      listed_since :
          (inputs : List DatabaseKey) (result : Outcome (Database V L) Bool)
          → Covers S m.verified_at [] inputs (config.execute k)
          → (Covers S now [] inputs (config.execute k)
              → RecordsInputs S now m.inputs (config.execute k))
          → result ≡ and_then (any_changed calls inputs rev db) (conclude config calls k now)
          → CheckedNow result
      listed_since inputs result covers records run =
          let L =
            check_list S laws past_closed k seen m fine a e calls calls_ok rev earlier known old
              busy db inv inputs (λ j h. free j (omega arith)) covers in
          let (m', slot', v, same_inputs) =
            kept_memo S calls k n lt m (L.db'.slots k)
              (subst (λ t. IsKept S t (L.db'.slots k)) slot (L.later.frame k (omega arith))) in
          let old' : m'.verified_at < now = omega (arith, v) in
          let fine' : MemoOk S L.seen' k m' =
            subst (SlotOk S L.seen' k false) slot'
              (subst (λ b. SlotOk S L.seen' k b (L.db'.slots k)) idle (L.inv.slots_ok k)) in
          elim (Bool-cases L.changed) [
            | inl yes' ↦
                let D =
                  conclude-Dropped S calls k n lt L.seen' busy L.db' L.inv idle m' slot' old' in
                record {
                  db' = D.db';
                  seen' = L.seen';
                  changed = true;
                  returned =
                      run
                      ∙ ap (λ t. and_then t (conclude config calls k now)) L.returned
                      ∙ ap (λ b. conclude config calls k now b L.db') yes'
                      ∙ D.returned;
                  inv = D.after;
                  later = Later-trans S (omega arith) L.later D.later;
                  stack = D.stack ∙ L.stack;
                  sound = λ h. absurd cc;
                }
            | inr no' ↦
                let g = L.sound no' in
                let C =
                  conclude_verified S calls k n lt L.seen' busy L.db' L.inv idle m' slot' old'
                    (verified-MemoOk S laws past_closed k L.seen' m' fine' a e (Added L.seen' k)
                      (agreed_value S laws past_closed k L.seen' m' fine' a e calls calls_ok rev
                        earlier known old' L.seen' inputs g)
                      (inl (inr refl))
                      (subst (λ t. RecordsInputs S now t (config.execute k)) (sym same_inputs)
                        (records g.covers)))
                    (Observed-mono S (λ j h. inl h) now (config.execute k) g.observed) in
                record {
                  db' = C.db';
                  seen' = Added L.seen' k;
                  changed = false;
                  returned =
                      run
                      ∙ ap (λ t. and_then t (conclude config calls k now)) L.returned
                      ∙ ap (λ b. conclude config calls k now b L.db') no'
                      ∙ C.returned;
                  inv = C.after;
                  later = Later-trans S (omega arith) L.later C.later;
                  stack = C.stack ∙ L.stack;
                  sound = λ _. (
                    Agrees-IsUnchanged S laws past_closed k rev L.seen' inputs a e g,
                    inl (inr refl),
                  );
                }
          ]

      -- The value is read again.
      upgraded_since :
          (result : Outcome (Database V L) Bool)
          → result
            ≡ and_then
                (read_upgrade config calls k now db)
                (λ answer. pure (changed_after config calls rev answer))
          → CheckedNow result
      unfolding changed_after
      upgraded_since result run =
          let read =
            read_upgrade_ok S laws past_closed started n k a e lt seen busy db inv idle calls
              calls_ok (λ j h. free j (omega arith)) in
          let R = read.value_ok in
          record {
            db' = R.db';
            seen' = R.seen';
            changed = ltb rev R.value.changed_at;
            returned =
                run
                ∙ ap (λ t. and_then t (λ x. pure (changed_after config calls rev x))) read.returned;
            inv = R.after;
            later = R.later;
            stack = R.stack;
            sound =
                stamp_sound R.seen' (derived k) a R.value.durability R.value.changed_at rev R.stamp;
          }

      inputs_since :
          (inputs : MemoInputs)
          → m.inputs ≡ inputs
          → RecordsInputs S m.verified_at inputs (config.execute k)
          → CheckedNow (check_inputs config calls k now rev m inputs db)
      unfolding check_inputs any_changed
      inputs_since untracked f h =
          answered n rev seen busy db inv (derived k) a true _ refl (λ g. absurd cc)
      inputs_since no_inputs f h =
          listed_since [] _ h (λ c. subst (λ t. RecordsInputs S now t (config.execute k)) (sym f) c)
            refl
      inputs_since (tracked []) f h = elim h [ ]
      inputs_since (tracked (d ∷ ds)) f h = elim (Option-cases m.value) [
        | inl none' ↦
            listed_since (d ∷ ds) _ h
              (λ c. subst (λ t. RecordsInputs S now t (config.execute k)) (sym f) c)
              (ap (λ t. checking t db) none')
        | inr (v, g) ↦ upgraded_since _ (ap (λ t. checking t db) g)
      ]
        where
          checking : Option V → M (Database V L) Bool
          checking t = elim t [
            | some _ ↦ (λ s.
                and_then (read_upgrade config calls k now s)
                  (λ x. pure (changed_after config calls rev x)))
            | none ↦
                (λ s. and_then (any_changed calls (d ∷ ds) rev s) (conclude config calls k now))
          ]

      old_since : CheckedNow (check_memo config calls k now rev m db)
      unfolding check_memo
      old_since =
          let (durable, run, constant) =
            check_durability_at S laws past_closed k seen m fine a e busy db inv old in
          let stale_run : check_memo config calls k now rev m db ≡ deciding durable db =
            ap
              (λ (b : Bool).
                (if b
                    then pure (ltb rev m.changed_at)
                    else (λ s. and_then (check_durability m s) deciding))
                  db)
              not_now
            ∙ ap (λ t. and_then t deciding) run in
          elim (Bool-cases durable) [
            | inl yes' ↦ constant_since _ (constant yes') (stale_run ∙ ap (λ b. deciding b db) yes')
            | inr no' ↦
                subst CheckedNow (sym (stale_run ∙ ap (λ b. deciding b db) no'))
                  (inputs_since m.inputs refl fine.inputs_ok)
          ]
        where
          not_now : (m.verified_at == now) ≡ false
          not_now = ground arith

          deciding : Bool → M (Database V L) Bool
          deciding durable =
              if durable
              then conclude config calls k now false
              else check_inputs config calls k now rev m m.inputs

    pub derived_since : CheckedNow (maybe_changed_since config calls (derived k) rev db)
    unfolding maybe_changed_since check_state check_memo
    derived_since =
        subst CheckedNow (sym at_now)
          (go (db.slots k) refl (subst (λ b. SlotOk S seen k b (db.slots k)) idle (inv.slots_ok k)))
      where
        reading : Revision → M (Database V L) Bool
        reading revision_now db1 = check_state config calls k revision_now rev (db1.slots k) db1

        at_now : maybe_changed_since config calls (derived k) rev db ≡ reading now db
        at_now =
            ap (λ t. and_then t reading)
              (current_revision-now S laws past_closed started k a e seen busy db inv)

        state_at :
            (st : QueryState V)
            → db.slots k ≡ st
            → CheckedNow (check_state config calls k now rev st db)
            → CheckedNow (reading now db)
        state_at st f = subst CheckedNow (ap (λ t. check_state config calls k now rev t db) (sym f))

        verified_now :
            (m : Memo V)
            → (m.verified_at == now) ≡ true
            → check_memo config calls k now rev m db ≡ returns (ltb rev m.changed_at) db
        verified_now m f = ground (arith, f)

        go :
            (st : QueryState V)
            → db.slots k ≡ st
            → SlotOk S seen k false st
            → CheckedNow (reading now db)
        go not_computed f h =
            state_at not_computed f
              (answered n rev seen busy db inv (derived k) a true _ refl (λ g. absurd cc))
        go (in_progress id waiting) f h = elim h [ ]
        go (memoized m) f h = elim (Bool-cases (m.verified_at == now)) [
          | inl yes' ↦ state_at (memoized m) f (
              answered n rev seen busy db inv (derived k) a (ltb rev m.changed_at) _
                (verified_now m yes')
                (stamp_sound seen (derived k) a m.durability m.changed_at rev
                  (verified-StampOk S laws past_closed started seen k m a e h (ground arith))))
          | inr no' ↦ state_at (memoized m) f (old_since m f (ground (arith, h.not_later)) h)
        ]

  pub check_ok :
      Laws S
      → IsPastClosed S
      → start ≤ now
      → (calls : Calls V L) (n : ℕ) (key : DatabaseKey) (seen : ℕ → Type 0) (busy : ℕ → Bool)
        (db : Database V L) (inv : Inv S seen busy db) (a : Answer V) (rev : Revision)
      → ((m : ℕ) → m < n → CallsOk S calls m)
      → IsFree S busy n
      → KeyBelow rank n key
      → den now key ≡ some a
      → rev < now
      → IsKnown S (past rev) key
      → Checked S n seen busy db inv key a rev (maybe_changed_since config calls key rev db)
  check_ok laws past_closed started calls n (input i) seen busy db inv a rev calls_ok free lt e
        earlier known =
      input_since n rev seen busy db inv calls i a e
  check_ok laws past_closed started calls n (derived k) seen busy db inv a rev calls_ok free lt e
        earlier known =
      derived_since laws past_closed started calls n k lt (calls_ok (rank k) lt) a e rev earlier
        known seen busy db inv free
