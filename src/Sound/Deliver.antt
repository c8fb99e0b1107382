-- ===== src/Sound/Deliver.antt =====
-- Handing a value to the reader: `record_use`, `deliver` and `get`, on calls that keep their
-- contract.
use salsa.Base.{ℕ, ◌≤◌, ◌<◌, ◌≡◌, refl, sym, ◌∙◌, ap, subst, Bool, Option, none, some, arith}
use salsa.Base.Outcome.{Outcome, returns, M, and_then, pure, unwrap}
use salsa.Revision.{Revision, start}
use salsa.Durability.{Durability}
use salsa.Key.{DatabaseKey, input, derived}
use salsa.Runtime.LocalState.{report_query_read}
use salsa.Derived.Memo.{StampedValue}
use salsa.Derived.Slot.{evict}
use salsa.Database.State.{Database, with_stack, write_state, report_read}
use salsa.Database.Calls.{Calls}
use salsa.Database.Read.{record_use, deliver, get_input, get}
use salsa.Sound.Spec.{Answer, KeyBelow, Setting}
use salsa.Sound.Invariant.{Laws, Inv, Later, IsPastClosed, IsFree, InputOk}
use salsa.Sound.Change.{Later-trans, Later-refl, with_outer, with_outer-Inv, with_outer-Later}
use salsa.Sound.Slots.{write-Inv, evict-Writes, evict-Later}
use salsa.Sound.Contract.{StampOk, Got, CallsOk}
use salsa.Sound.Read.{read_ok}

module _ {V L : Type 0} (S : Setting V L) where
  open S use {config, rank, now, den}

  -- The list of src/lru.rs takes note of a slot, and may evict another one.
  record Used (n : ℕ) (seen : ℕ → Type 0) (busy : ℕ → Bool) (db : Database V L)
      (inv : Inv S seen busy db) (result : Outcome (Database V L) (Unit {0})) : Type 1 where
    db' : Database V L
    returned : result ≡ returns tt db'
    after : Inv S seen busy db'
    same_floor : after.floor ≡ inv.floor
    later : Later S n seen seen inv.floor after.floor db db'
    stack : db'.runtime.local_state ≡ db.runtime.local_state

  record_use_ok :
      (n : ℕ) (seen : ℕ → Type 0) (busy : ℕ → Bool) (db : Database V L) (inv : Inv S seen busy db)
      (calls : Calls V L) (k : ℕ)
      → Used n seen busy db inv (record_use config calls k db)
  unfolding record_use
  record_use_ok n seen busy db inv calls k = go (config.record_use k db.lru).0 refl
    where
      listed : Database V L
      listed = with_outer S db.runtime.local_state (config.record_use k db.lru).1 db.events db

      listed-Inv : Inv S seen busy listed
      listed-Inv =
          with_outer-Inv S seen busy db.runtime.local_state (config.record_use k db.lru).1 db.events
            db inv

      listed-Later : Later S n seen seen inv.floor inv.floor db listed
      listed-Later =
          with_outer-Later S n seen inv.floor db.runtime.local_state (config.record_use k db.lru).1
            db.events db

      evicting : Option ℕ → Database V L
      evicting evicted = elim evicted [
        | none ↦ listed
        | some e ↦ write_state e (evict (listed.slots e)) listed
      ]

      go :
          (evicted : Option ℕ)
          → (config.record_use k db.lru).0 ≡ evicted
          → Used n seen busy db inv (record_use config calls k db)
      go none f = record {
        db' = listed;
        returned = ap (λ t. returns tt (evicting t)) f;
        after = listed-Inv;
        same_floor = refl;
        later = listed-Later;
        stack = refl;
      }
      go (some e) f = record {
        db' = write_state e (evict (db.slots e)) listed;
        returned = ap (λ t. returns tt (evicting t)) f;
        after =
            write-Inv S seen seen busy busy inv.floor listed e (evict (db.slots e)) listed-Inv
              (evict-Writes S seen busy listed e listed-Inv);
        same_floor = refl;
        later = Later-trans S (omega arith) listed-Later (evict-Later S n seen inv.floor listed e);
        stack = refl;
      }

  -- `report_query_read` changes the stack alone.
  reported_ok :
      (n : ℕ) (seen : ℕ → Type 0) (busy : ℕ → Bool) (db : Database V L) (inv : Inv S seen busy db)
      (key : DatabaseKey) (a : Answer V) (d : Durability) (c : Revision) (seen1 : ℕ → Type 0)
      (db1 : Database V L) (inv1 : Inv S seen1 busy db1) (result : Outcome (Database V L) V)
      → Later S n seen seen1 inv.floor inv1.floor db db1
      → db1.runtime.local_state ≡ db.runtime.local_state
      → StampOk S seen1 key a d c
      → inv1.floor key ≡ c
      → result ≡ and_then (report_read key d c db1) (λ _. pure a.value)
      → Got S n seen busy db inv key a result
  unfolding report_read
  reported_ok n seen busy db inv key a d c seen1 db1 inv1 result later stack stamp at_floor run =
      let stack' = report_query_read key d c db1.runtime.local_state in
      record {
        db' = with_stack stack' db1;
        seen' = seen1;
        d = d;
        c = c;
        returned = run;
        inv = with_outer-Inv S seen1 busy stack' db1.lru db1.events db1 inv1;
        later =
            Later-trans S (omega arith) later
              (with_outer-Later S n seen1 inv1.floor stack' db1.lru db1.events db1);
        stack = ap (report_query_read key d c) stack;
        stamp = stamp;
        at_floor = at_floor;
      }

  get_input_ok :
      (n : ℕ) (seen : ℕ → Type 0) (busy : ℕ → Bool) (db : Database V L) (inv : Inv S seen busy db)
      (calls : Calls V L) (i : ℕ) (a : Answer V)
      → den now (input i) ≡ some a
      → Got S n seen busy db inv (input i) a (get_input config calls i db)
  unfolding get_input
  get_input_ok n seen busy db inv calls i a e = go (db.inputs i) refl (inv.inputs_ok i)
    where
      reading : Option (StampedValue V) → M (Database V L) V
      reading slot db1 = and_then (unwrap slot db1) (λ stamped db2.
          and_then (report_read (input i) stamped.durability stamped.changed_at db2)
            (λ _. pure stamped.value))

      go :
          (slot : Option (StampedValue V))
          → db.inputs i ≡ slot
          → InputOk S i slot
          → Got S n seen busy db inv (input i) a (get_input config calls i db)
      go none f h = absurd cc
      go (some s) f (h, le, unchanged) =
          let same : a ≡ record { value = s.value; durability = s.durability } = cc in
          subst (λ t. Got S n seen busy db inv (input i) t (get_input config calls i db)) (sym same)
            (reported_ok n seen busy db inv (input i)
              (record { value = s.value; durability = s.durability }) s.durability s.changed_at seen
              db inv (get_input config calls i db) (Later-refl S n seen inv.floor db) refl
              (record { durable = omega arith; not_later = le; unchanged = unchanged; known = tt })
              (inv.of_input i s f) (ap (λ t. reading t db) f))

  module _ (laws : Laws S) (past_closed : IsPastClosed S) (started : start ≤ now)
      (calls : Calls V L) where
    get_derived_ok :
        (n k : ℕ) (seen : ℕ → Type 0) (busy : ℕ → Bool) (db : Database V L)
        (inv : Inv S seen busy db) (a : Answer V)
        → CallsOk S calls (rank k)
        → IsFree S busy n
        → rank k < n
        → den now (derived k) ≡ some a
        → Got S n seen busy db inv (derived k) a (get config calls (derived k) db)
    unfolding get deliver
    get_derived_ok n k seen busy db inv a calls_ok free lt e =
        let read =
          read_ok S laws past_closed started n k a e lt seen busy db inv (free k lt) calls calls_ok
            (λ j h. free j (omega arith)) in
        let R = read.value_ok in
        let used = record_use_ok n R.seen' busy R.db' R.after calls k in
        reported_ok n seen busy db inv (derived k) a R.value.durability R.value.changed_at R.seen'
          used.db' used.after (get config calls (derived k) db)
          (Later-trans S (omega arith) R.later used.later) (used.stack ∙ R.stack) R.stamp
          (ap (λ (f : DatabaseKey → ℕ). f (derived k)) used.same_floor ∙ R.at_floor)
          (ap (λ t. and_then t (deliver config calls k)) read.returned
            ∙ ap (λ t. and_then t (λ _. reporting R.value)) used.returned
            ∙ ap
                (λ v.
                  and_then (report_read (derived k) R.value.durability R.value.changed_at used.db')
                    (λ _. pure v))
                R.right)
      where
        reporting : StampedValue V → M (Database V L) V
        reporting stamped db1 =
            and_then (report_read (derived k) stamped.durability stamped.changed_at db1)
              (λ _. pure stamped.value)

    pub get_ok :
        (n : ℕ) (key : DatabaseKey) (seen : ℕ → Type 0) (busy : ℕ → Bool) (db : Database V L)
        (inv : Inv S seen busy db) (a : Answer V)
        → ((m : ℕ) → m < n → CallsOk S calls m)
        → IsFree S busy n
        → KeyBelow rank n key
        → den now key ≡ some a
        → Got S n seen busy db inv key a (get config calls key db)
    unfolding get
    get_ok n (input i) seen busy db inv a calls_ok free lt e =
        get_input_ok n seen busy db inv calls i a e
    get_ok n (derived k) seen busy db inv a calls_ok free lt e =
        get_derived_ok n k seen busy db inv a (calls_ok (rank k) lt) free lt e
