-- ===== src/Sound/Contract.antt =====
-- What the two calls of `Calls` promise to the code on a slot.
use salsa.Base.{ℕ, ◌≤◌, ◌<◌, ◌≡◌, Bool, false, some}
use salsa.Base.Outcome.{Outcome, returns}
use salsa.Revision.{Revision}
use salsa.Durability.{Durability}
use salsa.Key.{DatabaseKey}
use salsa.Runtime.LocalState.{report_query_read}
use salsa.Database.State.{Database}
use salsa.Database.Calls.{Calls}
use salsa.Sound.Spec.{Answer, KeyBelow, Setting}
use salsa.Sound.Invariant.{IsKnown, IsUnchanged, Inv, IsFree, Later}

module _ {V L : Type 0} (S : Setting V L) where
  open S use {now, den, rank, past}

  -- The durability and the revision that come with a value.
  pub record StampOk (seen : ℕ → Type 0) (key : DatabaseKey) (a : Answer V) (d : Durability)
      (c : Revision) : Type 0 where
    pub durable : d ≤ a.durability
    pub not_later : c ≤ now
    pub unchanged : IsUnchanged S c key a.value
    pub known : IsKnown S seen key

  pub record Got (n : ℕ) (seen : ℕ → Type 0) (busy : ℕ → Bool) (db : Database V L)
      (before : Inv S seen busy db) (key : DatabaseKey) (a : Answer V)
      (result : Outcome (Database V L) V) : Type 1 where
    pub db' : Database V L
    pub seen' : ℕ → Type 0
    pub d : Durability
    pub c : Revision
    pub returned : result ≡ returns a.value db'
    pub inv : Inv S seen' busy db'
    pub later : Later S n seen seen' before.floor inv.floor db db'
    pub stack : db'.runtime.local_state ≡ report_query_read key d c db.runtime.local_state
    pub stamp : StampOk seen' key a d c
    pub at_floor : inv.floor key ≡ c

  -- A call of `maybe_changed_since` that says no is right.
  pub record Checked (n : ℕ) (seen : ℕ → Type 0) (busy : ℕ → Bool) (db : Database V L)
      (before : Inv S seen busy db) (key : DatabaseKey) (a : Answer V) (revision : Revision)
      (result : Outcome (Database V L) Bool) : Type 1 where
    pub db' : Database V L
    pub seen' : ℕ → Type 0
    pub changed : Bool
    pub returned : result ≡ returns changed db'
    pub inv : Inv S seen' busy db'
    pub later : Later S n seen seen' before.floor inv.floor db db'
    pub stack : db'.runtime.local_state ≡ db.runtime.local_state
    pub sound : changed ≡ false → IsUnchanged S revision key a.value × IsKnown S seen' key

  pub record CallsOk (calls : Calls V L) (n : ℕ) : Type 1 where
    pub get_ok :
        (seen : ℕ → Type 0) (busy : ℕ → Bool) (db : Database V L) (key : DatabaseKey) (a : Answer V)
        (inv : Inv S seen busy db)
        → IsFree S busy n
        → KeyBelow rank n key
        → den now key ≡ some a
        → Got n seen busy db inv key a (calls.get key db)
    pub check_ok :
        (seen : ℕ → Type 0) (busy : ℕ → Bool) (db : Database V L) (key : DatabaseKey) (a : Answer V)
        (revision : Revision) (inv : Inv S seen busy db)
        → IsFree S busy n
        → KeyBelow rank n key
        → den now key ≡ some a
        → revision < now
        → IsKnown S (past revision) key
        → Checked n seen busy db inv key a revision (calls.maybe_changed_since key revision db)
