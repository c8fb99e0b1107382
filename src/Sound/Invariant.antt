-- ===== src/Sound/Invariant.antt =====
-- What holds of every slot between the calls of a read.
use salsa.Base.{ℕ, ◌≤◌, ◌<◌, ◌≡◌, ◌⊎◌, Bool, true, false, Option, none, some, List, [], ◌∷◌, ◌++◌}
use salsa.Revision.{Revision, start}
use salsa.Durability.{low, max_durability}
use salsa.Key.{DatabaseKey, input, derived}
use salsa.Derived.Memo.{
  StampedValue, MemoInputs, tracked, no_inputs, untracked, Memo, QueryState, not_computed,
  in_progress, memoized,
}
use salsa.Derived.Slot.{evict}
use salsa.Database.Program.{Program, done, fetch, read_untracked, check_canceled, crash}
use salsa.Database.State.{Database}
use salsa.Sound.Spec.{Answer, interp, Below, Setting}

-- The facts that a setting rests on.
pub record Laws {V L : Type 0} (S : Setting V L) : Type 0 where
  pub meaning :
      (r : Revision) (k : ℕ)
      → S.den r (derived k) ≡ interp (S.den r) (S.world r) max_durability (S.config.execute k)
  pub all_low :
      (r : Revision) (i : ℕ) (a : Answer V) → S.den r (input i) ≡ some a → a.durability ≡ low
  pub acyclic : (k : ℕ) → Below S.rank (S.rank k) (S.config.execute k)
  pub eq_sound : (u v : V) → S.config.value_eq u v ≡ true → u ≡ v

abbrev pub In : DatabaseKey → List DatabaseKey → Type 0
In key [] = ⊥
In key (x ∷ xs) = (key ≡ x) ⊎ In key xs

module _ {V L : Type 0} (S : Setting V L) where
  open S use {config, rank, now, den, world, past, me, mark_medium, mark_high}

  -- The key has this value in revision `r`.
  abbrev pub HasValue : Revision → DatabaseKey → V → Type 0
  HasValue r key v = (a : Answer V) × (den r key ≡ some a) × (a.value ≡ v)

  -- A query that depends on no input and on nothing outside.
  abbrev pub IsConstant : ℕ → Type 0
  IsConstant k = (a : Answer V) × (1 ≤ a.durability) × ((r : Revision) → den r (derived k) ≡ some a)

  -- Inputs are always observed; a derived key is if it is among the given ones, or constant.
  abbrev pub IsKnown : (ℕ → Type 0) → DatabaseKey → Type 0
  IsKnown seen (input i) = Unit {0}
  IsKnown seen (derived k) = seen k ⊎ IsConstant k

  -- All keys on the path of a program in revision `r` are known.
  abbrev pub Observed : (ℕ → Type 0) → Revision → Program V → Type 0
  Observed seen r (done v) = Unit {0}
  Observed seen r (fetch key k) =
      IsKnown seen key × ((a : Answer V) → den r key ≡ some a → Observed seen r (k a.value))
  Observed seen r (read_untracked k) = Observed seen r (k (world r))
  Observed seen r (check_canceled k) = Observed seen r (k false)
  Observed seen r crash = Unit {0}

  -- Before this revision, what a known query read was known.
  abbrev pub IsPastClosed : Type 0
  IsPastClosed =
      (r : Revision) (k : ℕ) → r < now → past r k → Observed (past r) r (config.execute k)

  -- The program in revision `r` reads keys among `read`, and for the first time those of `rest`,
  -- in order.
  abbrev pub Covers : Revision → List DatabaseKey → List DatabaseKey → Program V → Type 0
  Covers r read rest (done v) = rest ≡ []
  Covers r read rest (fetch key k) =
      (a : Answer V) × (den r key ≡ some a)
      × ((In key read × Covers r read rest (k a.value))
          ⊎ ((rest' : List DatabaseKey) × (rest ≡ key ∷ rest')
              × Covers r (read ++ key ∷ []) rest' (k a.value)))
  Covers r read rest (read_untracked k) = ⊥
  Covers r read rest (check_canceled k) = Covers r read rest (k false)
  Covers r read rest crash = ⊥

  -- The recorded inputs of a memo that was verified in revision `r`.
  abbrev pub RecordsInputs : Revision → MemoInputs → Program V → Type 0
  RecordsInputs r untracked p = Unit {0}
  RecordsInputs r no_inputs p = Covers r [] [] p
  RecordsInputs r (tracked []) p = ⊥
  RecordsInputs r (tracked (d ∷ ds)) p = Covers r [] (d ∷ ds) p

  -- The key has had the value `v` since revision `c`, wherever it was observed.
  abbrev pub IsUnchanged : Revision → DatabaseKey → V → Type 0
  IsUnchanged c key v = (r : Revision) → r < now → IsKnown (past r) key → c ≤ r → HasValue r key v

  pub record MemoOk (seen : ℕ → Type 0) (k : ℕ) (m : Memo V) : Type 0 where
    pub answer : Answer V
    pub means : den m.verified_at (derived k) ≡ some answer
    pub holds : (v : V) → m.value ≡ some v → v ≡ answer.value
    pub ordered : m.changed_at ≤ m.verified_at
    pub not_later : m.verified_at ≤ now
    pub durable : m.durability ≤ answer.durability
    pub small : m.durability ≤ max_durability
    pub latest : (r : Revision) → r < now → past r k → r ≤ m.verified_at
    pub steady :
        (r : Revision) → r < now → past r k → m.changed_at ≤ r → HasValue r (derived k) answer.value
    pub known_past : m.verified_at < now → IsKnown (past m.verified_at) (derived k)
    pub known_now : m.verified_at ≡ now → IsKnown seen (derived k)
    pub fresh : seen k → m.verified_at ≡ now
    pub inputs_ok : RecordsInputs m.verified_at m.inputs (config.execute k)

  -- A slot is in progress exactly if it is busy.
  abbrev pub SlotOk : (ℕ → Type 0) → ℕ → Bool → QueryState V → Type 0
  SlotOk seen k false not_computed = Unit {0}
  SlotOk seen k false (memoized m) = MemoOk seen k m
  SlotOk seen k false (in_progress id waiting) = ⊥
  SlotOk seen k true (in_progress id waiting) = id ≡ me
  SlotOk seen k true not_computed = ⊥
  SlotOk seen k true (memoized m) = ⊥

  abbrev pub InputOk : ℕ → Option (StampedValue V) → Type 0
  InputOk i none = den now (input i) ≡ none
  InputOk i (some s) =
      (den now (input i) ≡ some (record { value = s.value; durability = s.durability }))
      × (s.changed_at ≤ now)
      × IsUnchanged s.changed_at (input i) s.value

  -- The path of a program in revision `r` meets a key whose floor is at least `f`, or a read that is
  -- not recorded.
  abbrev pub IsLifted : (DatabaseKey → ℕ) → Revision → Program V → ℕ → Type 0
  IsLifted floor r (done v) f = ⊥
  IsLifted floor r (fetch key k) f =
      (f ≤ floor key) ⊎ ((a : Answer V) × (den r key ≡ some a) × IsLifted floor r (k a.value) f)
  IsLifted floor r (read_untracked k) f = Unit {0}
  IsLifted floor r (check_canceled k) f = Unit {0}
  IsLifted floor r crash f = ⊥

  -- Why a query reported the revision that is its floor: a run in some revision that it was
  -- observed in.
  abbrev pub IsFloored : (ℕ → Type 0) → (DatabaseKey → ℕ) → ℕ → Type 0
  IsFloored seen floor k =
      (floor (derived k) ≤ start)
      ⊎ ((r : Revision) × (r ≤ now)
          × (floor (derived k) ≤ r)
          × (r < now → IsKnown (past r) (derived k))
          × (r ≡ now → IsKnown seen (derived k))
          × IsLifted floor r (config.execute k) (floor (derived k)))

  -- `floor` is the last revision that was reported with a key; it outlives the memo.
  pub record Inv (seen : ℕ → Type 0) (busy : ℕ → Bool) (db : Database V L) : Type 0 where
    pub floor : DatabaseKey → ℕ
    pub counters :
        db.runtime.counters
        ≡ record { pending_revision = now; revisions = now ∷ mark_medium ∷ mark_high ∷ [] }
    pub own : db.runtime.id ≡ me
    pub unguarded : db.runtime.revision_guard ≡ false
    pub outside : db.world ≡ world now
    pub inputs_ok : (i : ℕ) → InputOk i (db.inputs i)
    pub slots_ok : (k : ℕ) → SlotOk seen k (busy k) (db.slots k)
    pub closed : (k : ℕ) → seen k → Observed seen now (config.execute k)
    pub floored : (k : ℕ) → IsFloored seen floor k
    pub of_memo : (k : ℕ) (m : Memo V) → db.slots k ≡ memoized m → floor (derived k) ≡ m.changed_at
    pub of_input :
        (i : ℕ) (s : StampedValue V) → db.inputs i ≡ some s → floor (input i) ≡ s.changed_at
    pub input_floor : (i : ℕ) → floor (input i) ≤ now

  -- The queries of a rank below `n` are not busy.
  abbrev pub IsFree : (ℕ → Bool) → ℕ → Type 0
  IsFree busy n = (k : ℕ) → rank k < n → busy k ≡ false

  abbrev pub Extends : (ℕ → Type 0) → (ℕ → Type 0) → Type 0
  Extends seen seen' = (k : ℕ) → seen k → seen' k

  -- A slot as it was, or without its value.
  abbrev pub IsKept : QueryState V → QueryState V → Type 0
  IsKept before after = (after ≡ before) ⊎ (after ≡ evict before)

  -- What calls on queries of a rank below `n` change: more is observed, floors rise, and slots of
  -- a higher rank are kept.
  pub record Later (n : ℕ) (seen seen' : ℕ → Type 0) (floor floor' : DatabaseKey → ℕ)
      (db db' : Database V L) : Type 0 where
    pub knows : Extends seen seen'
    pub grows : (key : DatabaseKey) → floor key ≤ floor' key
    pub keeps : (j : ℕ) → n ≤ rank j → floor' (derived j) ≡ floor (derived j)
    pub frame : (j : ℕ) → n ≤ rank j → IsKept (db.slots j) (db'.slots j)
