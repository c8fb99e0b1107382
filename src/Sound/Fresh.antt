-- ===== src/Sound/Fresh.antt =====
-- A database before any operation.
use salsa.Base.{ℕ, refl, false, none, [], arith, inl}
use salsa.Revision.{start}
use salsa.Durability.{len}
use salsa.Runtime.Revisions.{with_durabilities}
use salsa.Derived.Memo.{not_computed}
use salsa.Database.Program.{Config}
use salsa.Database.State.{Database}
use salsa.Sound.Meaning.{Facts, Lawful, History}
use salsa.Sound.History.{Unseen}
use salsa.Sound.Writing.{Ready}

-- No input is set.
abbrev pub no_facts : {V : Type 0} → V → Facts V
no_facts w = record { inputs = λ i. none; world = w }

module _ {V L : Type 0} where
  -- A database with `Runtime::default`, before any operation.
  unfoldable pub fresh : V → L → Database V L
  unfolding with_durabilities
  fresh w lru = record {
    runtime = record {
      id = 0;
      revision_guard = false;
      local_state = [];
      counters = with_durabilities len;
    };
    inputs = λ i. none;
    slots = λ k. not_computed;
    lru = lru;
    world = w;
    events = [];
  }

-- The history of a database that was never written to.
abbrev pub first : {V : Type 0} → V → History V
first w = record {
  facts = λ r. no_facts w;
  past = λ r k. ⊥;
  now = start;
  me = 0;
  mark_medium = start;
  mark_high = start;
}

module _ {V L : Type 0} (config : Config V L) (rank : ℕ → ℕ) (lawful : Lawful config rank) where
  -- A fresh database is between two operations.
  pub fresh-Ready : (w : V) (lru : L) → Ready config rank lawful (first w) (fresh w lru)
  unfolding fresh with_durabilities
  fresh-Ready w lru = record {
    seen = Unseen;
    inv = record {
      floor = λ key. start;
      counters = refl;
      own = refl;
      unguarded = refl;
      outside = refl;
      inputs_ok = λ i. refl;
      slots_ok = λ k. tt;
      closed = λ k p. elim p [ ];
      floored = λ k. inl (omega arith);
      of_memo = λ k m e. cc;
      of_input = λ i s e. cc;
      input_floor = λ i. omega arith;
    };
    closed = λ r k lt p. elim p [ ];
    started = omega arith;
    stack = refl;
  }
