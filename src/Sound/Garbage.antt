-- ===== src/Sound/Garbage.antt =====
-- Between queries: the sweep of src/derived.rs on databases that satisfy the invariant.
use salsa.Base.{
  ℕ, ◌≡◌, ◌≢◌, refl, sym, ◌∙◌, ap, subst, ◌⊎◌, inl, inr, false, Option, none, some, List, [], ◌∷◌,
  arith, get_elem?,
}
use salsa.Base.Outcome.{Outcome, returns, M, and_then, unwrap}
use salsa.Revision.{Revision}
use salsa.Key.{derived}
use salsa.Sweep.{SweepStrategy, never, nothing}
use salsa.Runtime.Revisions.{Revisions}
use salsa.Derived.Memo.{Memo, QueryState, not_computed, in_progress, memoized}
use salsa.Derived.Slot.{sweep}
use salsa.Derived.Slot.Collect.{KeepsMemo, sweep_lem}
use salsa.Database.Program.{Config}
use salsa.Database.State.{Database, write_state, current_revision}
use salsa.Database.Write.{sweep_slot, sweep_all}
use salsa.Sound.Spec.{Setting}
use salsa.Sound.Invariant.{MemoOk, SlotOk}
use salsa.Sound.Slots.{Writes, write-Inv}
use salsa.Sound.Meaning.{Lawful, History, setting}
use salsa.Sound.Writing.{idle, Ready}

-- The strategy says what to discard, and when.
pub record Discards (strategy : SweepStrategy) : Type 0 where
  pub sometimes : strategy.discard_if ≢ never
  pub something : strategy.discard_what ≢ nothing

memoized-injective : {V : Type 0} {m m' : Memo V} → memoized m ≡ memoized m' → m ≡ m'
memoized-injective e = cc

sweep-empty :
    {V : Type 0} (now : Revision) (strategy : SweepStrategy) (state : QueryState V)
    → state ≡ not_computed
    → sweep now strategy state ≡ some state
unfolding sweep
sweep-empty now strategy state e = cc

module _ {V L : Type 0} (S : Setting V L) where
  open S use {now}

  kept-MemoOk :
      (seen : ℕ → Type 0) (k : ℕ) (m : Memo V) (value : Option V)
      → MemoOk S seen k m
      → (value ≡ none) ⊎ (value ≡ m.value)
      → MemoOk S seen k (record m { value = value })
  kept-MemoOk seen k m value fine same = record {
    answer = fine.answer;
    means = fine.means;
    holds = λ v e. (elim same [ inl f ↦ cc | inr f ↦ fine.holds v (sym f ∙ e) ]);
    ordered = fine.ordered;
    not_later = fine.not_later;
    durable = fine.durable;
    small = fine.small;
    latest = fine.latest;
    steady = fine.steady;
    known_past = fine.known_past;
    known_now = fine.known_now;
    fresh = fine.fresh;
    inputs_ok = fine.inputs_ok;
  }

  kept-SlotOk :
      (seen : ℕ → Type 0) (k : ℕ) (m : Memo V) (st : QueryState V)
      → MemoOk S seen k m
      → KeepsMemo m st
      → SlotOk S seen k false st
  kept-SlotOk seen k m not_computed fine keeps = tt
  kept-SlotOk seen k m (in_progress id waiting) fine keeps = keeps
  kept-SlotOk seen k m (memoized m') fine (v, c, d, i, same) =
      let eq : record m { value = m'.value } ≡ m' = cc in
      subst (MemoOk S seen k) eq (kept-MemoOk seen k m m'.value fine same)

  kept-changed_at :
      (m m' : Memo V) (st : QueryState V)
      → KeepsMemo m st
      → st ≡ memoized m'
      → m.changed_at ≡ m'.changed_at
  kept-changed_at m m' not_computed keeps e = cc
  kept-changed_at m m' (in_progress id waiting) keeps e = elim keeps [ ]
  kept-changed_at m m' (memoized m'') keeps e =
      sym keeps.1 ∙ ap (λ (t : Memo V). t.changed_at) (memoized-injective e)

module _ {V L : Type 0} (config : Config V L) (rank : ℕ → ℕ) (lawful : Lawful config rank)
    (h : History V) (strategy : SweepStrategy) (discards : Discards strategy) where
  -- What a sweep leads to.
  abbrev pub Swept : Outcome (Database V L) (Unit {0}) → Type 1
  Swept result = (db' : Database V L) × (result ≡ returns tt db') × Ready config rank lawful h db'

  sweep_slot-Swept :
      (k : ℕ) (db : Database V L) → Ready config rank lawful h db → Swept (sweep_slot strategy k db)
  unfolding sweep_slot current_revision
  sweep_slot-Swept k db ready = go (db.slots k) refl (ready.inv.slots_ok k)
    where
      sweeping : QueryState V → Revision → M (Database V L) (Unit {0})
      sweeping state now db1 =
          and_then (unwrap (sweep now strategy state) db1)
            (λ swept db2. returns tt (write_state k swept db2))

      at_now : sweep_slot strategy k db ≡ sweeping (db.slots k) h.now db
      at_now =
          ap
            (λ (c : Revisions).
              and_then (unwrap (get_elem? c.revisions 0) db)
                (λ now db1. sweeping (db1.slots k) now db1))
            ready.inv.counters

      run :
          (state swept : QueryState V)
          → db.slots k ≡ state
          → sweep h.now strategy state ≡ some swept
          → sweep_slot strategy k db ≡ returns tt (write_state k swept db)
      run state swept e f =
          at_now
          ∙ ap (λ t. sweeping t h.now db) e
          ∙ ap (λ t. and_then (unwrap t db) (λ s db2. returns tt (write_state k s db2))) f

      swept-Writes :
          (swept : QueryState V)
          → SlotOk (setting config rank h) ready.seen k false swept
          → ((m : Memo V) → swept ≡ memoized m → ready.inv.floor (derived k) ≡ m.changed_at)
          → Writes
              (setting config rank h)
              ready.seen
              ready.seen
              idle
              idle
              ready.inv.floor
              ready.inv.floor
              k
              swept
      swept-Writes swept fine of_memo = record {
        knows = λ j p. p;
        back = λ j ne p. p;
        same_busy = λ j ne. refl;
        slot_ok = fine;
        closes = ready.inv.closed k;
        grows = λ key. omega arith;
        others = λ j ne. refl;
        inputs = λ i. refl;
        floored = ready.inv.floored k;
        of_memo = of_memo;
      }

      with_slot :
          (swept : QueryState V)
          → SlotOk (setting config rank h) ready.seen k false swept
          → ((m : Memo V) → swept ≡ memoized m → ready.inv.floor (derived k) ≡ m.changed_at)
          → Ready config rank lawful h (write_state k swept db)
      with_slot swept fine of_memo = record {
        seen = ready.seen;
        inv =
            write-Inv (setting config rank h) ready.seen ready.seen idle idle ready.inv.floor db k
              swept ready.inv (swept-Writes swept fine of_memo);
        closed = ready.closed;
        started = ready.started;
        stack = ready.stack;
      }

      go :
          (state : QueryState V)
          → db.slots k ≡ state
          → SlotOk (setting config rank h) ready.seen k false state
          → Swept (sweep_slot strategy k db)
      go not_computed e fine = (
        write_state k not_computed db,
        run not_computed not_computed e (sweep-empty h.now strategy not_computed refl),
        with_slot not_computed tt (λ m f. cc),
      )
      go (in_progress id waiting) e fine = elim fine [ ]
      go (memoized m) e fine =
          let (swept, f, keeps, whole) =
            sweep_lem h.now strategy m discards.sometimes discards.something fine.not_later in
          (
            write_state k swept db,
            run (memoized m) swept e f,
            with_slot swept (kept-SlotOk (setting config rank h) ready.seen k m swept fine keeps)
                (λ m' g.
                  ready.inv.of_memo k m e
                  ∙ kept-changed_at (setting config rank h) m m' swept keeps g),
          )

  pub sweep_all-Swept :
      (keys : List ℕ) (db : Database V L)
      → Ready config rank lawful h db
      → Swept (sweep_all strategy keys db)
  unfolding sweep_all
  sweep_all-Swept [] db ready = (db, refl, ready)
  sweep_all-Swept (k ∷ keys) db ready =
      let (db1, run, ready1) = sweep_slot-Swept k db ready in
      let (db2, rest, ready2) = sweep_all-Swept keys db1 ready1 in
      (db2, ap (λ t. and_then t (λ _. sweep_all strategy keys)) run ∙ rest, ready2)
