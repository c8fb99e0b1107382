-- ===== src/Sound/Change.antt =====
-- Steps between databases that satisfy the invariant.
use salsa.Base.{ℕ, ◌≤◌, ◌≡◌, refl, sym, ◌∙◌, ap, subst, inl, inr, Bool, List, arith, Bool-cases}
use salsa.Revision.{Revision}
use salsa.Key.{DatabaseKey, derived}
use salsa.Derived.Memo.{QueryState, not_computed, in_progress, memoized, has_untracked_input}
use salsa.Derived.Slot.{evict}
use salsa.Runtime.LocalState.{LocalState}
use salsa.Database.Program.{Program, done, fetch, read_untracked, check_canceled, crash}
use salsa.Database.State.{Database, Event}
use salsa.Sound.Spec.{Setting}
use salsa.Sound.Invariant.{Inv, Later, IsKept, IsLifted, IsFloored, Extends}
use salsa.Sound.Paths.{IsKnown-mono}

evict_twice : {V : Type 0} (s : QueryState V) → evict (evict s) ≡ evict s
unfolding evict has_untracked_input
evict_twice not_computed = refl
evict_twice (in_progress id waiting) = refl
evict_twice (memoized m) = elim (Bool-cases (has_untracked_input m)) [
  | inl u ↦ let e : evict (memoized m) ≡ memoized m = ground arith in ap evict e
  | inr u ↦ ground arith
]

module _ {V L : Type 0} (S : Setting V L) where
  open S use {config, rank, now, den, world, past}

  pub IsKept-trans : {a b c : QueryState V} → IsKept S a b → IsKept S b c → IsKept S a c
  IsKept-trans (inl e) (inl f) = inl (f ∙ e)
  IsKept-trans (inl e) (inr f) = inr (f ∙ ap evict e)
  IsKept-trans (inr e) (inl f) = inr (f ∙ e)
  IsKept-trans {a} (inr e) (inr f) = inr (f ∙ ap evict e ∙ evict_twice a)

  pub Later-refl :
      (n : ℕ) (seen : ℕ → Type 0) (floor : DatabaseKey → ℕ) (db : Database V L)
      → Later S n seen seen floor floor db db
  Later-refl n seen floor db = record {
    knows = λ k h. h;
    grows = λ key. omega arith;
    keeps = λ j le. refl;
    frame = λ j le. inl refl;
  }

  -- One step after another, the first on queries of a lower rank.
  pub Later-trans :
      {m n : ℕ} {seen seen' seen'' : ℕ → Type 0} {f f' f'' : DatabaseKey → ℕ}
      {db db' db'' : Database V L}
      → m ≤ n
      → Later S m seen seen' f f' db db'
      → Later S n seen' seen'' f' f'' db' db''
      → Later S n seen seen'' f f'' db db''
  Later-trans {f} {f'} {f''} le a b = record {
    knows = λ k h. b.knows k (a.knows k h);
    grows = λ key. omega (arith, a.grows key, b.grows key);
    keeps = λ j h. b.keeps j h ∙ a.keeps j (omega arith);
    frame = λ j h. IsKept-trans (a.frame j (omega arith)) (b.frame j h);
  }

  pub IsLifted-mono :
      (floor floor' : DatabaseKey → ℕ)
      → ((key : DatabaseKey) → floor key ≤ floor' key)
      → (r : Revision) (p : Program V) (f : ℕ) → IsLifted S floor r p f
      → IsLifted S floor' r p f
  IsLifted-mono floor floor' le r (done v) f h = elim h [ ]
  IsLifted-mono floor floor' le r (fetch key k) f (inl h) = inl (omega (arith, le key))
  IsLifted-mono floor floor' le r (fetch key k) f (inr (a, e, h)) =
      inr (a, e, IsLifted-mono floor floor' le r (k a.value) f h)
  IsLifted-mono floor floor' le r (read_untracked k) f h = tt
  IsLifted-mono floor floor' le r (check_canceled k) f h = tt
  IsLifted-mono floor floor' le r crash f h = elim h [ ]

  pub IsFloored-mono :
      {seen seen' : ℕ → Type 0}
      → Extends S seen seen'
      → (floor floor' : DatabaseKey → ℕ) → ((key : DatabaseKey) → floor key ≤ floor' key)
      → (k : ℕ) → floor' (derived k) ≡ floor (derived k)
      → IsFloored S seen floor k
      → IsFloored S seen' floor' k
  IsFloored-mono ext floor floor' le k e (inl h) = inl (omega (arith, e))
  IsFloored-mono ext floor floor' le k e (inr (r, h, f, known, known', lifted)) = inr (
    r,
    h,
    omega (arith, e),
    known,
    λ same. IsKnown-mono S ext (derived k) (known' same),
    subst (IsLifted S floor' r (config.execute k)) (sym e)
        (IsLifted-mono floor floor' le r (config.execute k) (floor (derived k)) lifted),
  )

  -- The stack, the list of src/lru.rs and the events are no part of the invariant.
  abbrev pub with_outer : LocalState → L → List Event → Database V L → Database V L
  with_outer stack lru events db = record db {
    runtime = record (db.runtime) { local_state = stack };
    lru = lru;
    events = events;
  }

  abbrev pub with_outer-Inv :
      (seen : ℕ → Type 0) (busy : ℕ → Bool) (stack : LocalState) (lru : L) (events : List Event)
      (db : Database V L)
      → Inv S seen busy db
      → Inv S seen busy (with_outer stack lru events db)
  with_outer-Inv seen busy stack lru events db inv = record {
    floor = inv.floor;
    counters = inv.counters;
    own = inv.own;
    unguarded = inv.unguarded;
    outside = inv.outside;
    inputs_ok = inv.inputs_ok;
    slots_ok = inv.slots_ok;
    closed = inv.closed;
    floored = inv.floored;
    of_memo = inv.of_memo;
    of_input = inv.of_input;
    input_floor = inv.input_floor;
  }

  pub with_outer-Later :
      (n : ℕ) (seen : ℕ → Type 0) (floor : DatabaseKey → ℕ) (stack : LocalState) (lru : L)
      (events : List Event) (db : Database V L)
      → Later S n seen seen floor floor db (with_outer stack lru events db)
  with_outer-Later n seen floor stack lru events db = record {
    knows = λ k h. h;
    grows = λ key. omega arith;
    keeps = λ j le. refl;
    frame = λ j le. inl refl;
  }
