-- ===== src/Sound/Writing.antt =====
-- Between queries: `set` and `synthetic_write` at low durability.
use salsa.Base.{
  ℕ, suc, ◌+◌, ◌≤◌, ◌<◌, ◌≡◌, ◌≢◌, refl, sym, ◌∙◌, ap, subst, Bool, true, false, Option, none, some,
  [], ◌∷◌, arith, if_pos, if_neg, ite, ℕ_discrete,
}
use salsa.Base.Outcome.{Outcome, returns}
use salsa.Revision.{Revision, start, u64_mod}
use salsa.Durability.{low}
use salsa.Key.{DatabaseKey, input, derived, DatabaseKey-discrete}
use salsa.Runtime.LocalState.{query_in_progress}
use salsa.Runtime.Revisions.{Revisions, increment, mark_durability_as_changed, store_behind_first}
use salsa.Derived.Memo.{StampedValue}
use salsa.Database.Program.{Config}
use salsa.Database.State.{Database, with_counters, update}
use salsa.Database.Write.{
  permits_increment, set, synthetic_write, with_incremented_revision, mark_changed,
}
use salsa.Database.Set.{finished, set-run, counters_after}
use salsa.Sound.Invariant.{Inv, IsPastClosed, InputOk}
use salsa.Sound.Meaning.{Facts, Lawful, History, given, setting}
use salsa.Sound.History.{next_revision, Unseen}
use salsa.Sound.Advance.{
  increment_at, New, new_facts, input_then, Moved, next-Inv, next-IsPastClosed,
}

-- No query runs.
abbrev pub idle : ℕ → Bool
idle k = false

abbrev counters_at : Revision → Revision → Revision → Revisions
counters_at now medium high = record {
  pending_revision = now;
  revisions = now ∷ medium ∷ high ∷ [];
}

module _ {V L : Type 0} (config : Config V L) (rank : ℕ → ℕ) (lawful : Lawful config rank) where
  -- A database between two queries.
  pub record Ready (h : History V) (db : Database V L) : Type 1 where
    pub seen : ℕ → Type 0
    pub inv : Inv (setting config rank h) seen idle db
    pub closed : IsPastClosed (setting config rank h)
    pub started : start ≤ h.now
    pub stack : db.runtime.local_state ≡ []

  module _ (h : History V) (db : Database V L) (ready : Ready h db) (lt : h.now + 1 < u64_mod) where
    permitted : permits_increment db ≡ true
    unfolding permits_increment query_in_progress
    permitted = rw (ready.inv.unguarded, ready.stack, permits_increment)

    incremented :
        increment db.runtime.counters
        ≡ (counters_at (suc h.now) h.mark_medium h.mark_high, some (suc h.now))
    incremented =
        ap increment ready.inv.counters
        ∙ increment_at h.now h.mark_medium h.mark_high ready.started lt

    -- Another world, and a write that says so.
    abbrev other_world : V → Facts V
    other_world w = record (h.facts h.now) { world = w }

    abbrev invalidated : V → Database V L
    invalidated w =
        with_counters (counters_at (suc h.now) h.mark_medium h.mark_high) (record db { world = w })

    synthetic_write-run :
        (w : V) → synthetic_write low (record db { world = w }) ≡ returns tt (invalidated w)
    unfolding synthetic_write with_incremented_revision mark_changed mark_durability_as_changed
        permits_increment store_behind_first
    synthetic_write-run w = rw (permitted, incremented)

    -- The input `i` with another value.
    abbrev other_input : ℕ → V → Facts V
    other_input i v = record (h.facts h.now) { inputs = update (h.facts h.now).inputs i (some v) }

    invalidated-Moved :
        (w : V)
        → Moved config rank lawful h ready.seen (other_world w) idle db ready.inv (invalidated w)
    invalidated-Moved w = record {
      floor = ready.inv.floor;
      grows = λ key. omega arith;
      same_floor = λ k. refl;
      counters = refl;
      own = refl;
      guard = refl;
      outside = refl;
      inputs_ok = λ i.
          input_then config rank lawful h ready.seen (other_world w) i (db.inputs i) refl
            (ready.inv.inputs_ok i);
      slots = λ k. refl;
      of_input = ready.inv.of_input;
      input_floor = λ i. omega (arith, ready.inv.input_floor i);
    }

    -- What a write leads to.
    abbrev pub Follows : Facts V → Outcome (Database V L) (Unit {0}) → Type 1
    Follows next result =
        (db' : Database V L) × (result ≡ returns tt db')
        × Ready (next_revision h ready.seen next) db'

    follows :
        (next : Facts V) (db' : Database V L)
        → Moved config rank lawful h ready.seen next idle db ready.inv db'
        → db'.runtime.local_state ≡ db.runtime.local_state
        → Ready (next_revision h ready.seen next) db'
    follows next db' moved stack = record {
      seen = Unseen;
      inv = next-Inv config rank lawful h ready.seen next idle db ready.inv db' moved;
      closed =
          next-IsPastClosed config rank lawful h ready.seen next idle db ready.inv ready.closed;
      started = omega (arith, ready.started);
      stack = stack ∙ ready.stack;
    }

    pub synthetic_write-Follows :
        (w : V) → Follows (other_world w) (synthetic_write low (record db { world = w }))
    synthetic_write-Follows w = (
      invalidated w,
      synthetic_write-run w,
      follows (other_world w) (invalidated w) (invalidated-Moved w) refl,
    )

    -- Setting an input.
    module _ (i : ℕ) (v : V) where
      abbrev next : Facts V
      next = other_input i v

      abbrev new_value : StampedValue V
      new_value = record { value = v; durability = low; changed_at = suc h.now }

      abbrev written : Database V L
      written =
          finished i v low (suc h.now) (counters_at (suc h.now) h.mark_medium h.mark_high) db
            (db.inputs i)

      -- The old value is of low durability, so no other counter is marked.
      old-low :
          (s : StampedValue V) → InputOk (setting config rank h) i (some s) → s.durability ≡ low
      old-low s (e, le, unchanged) = go ((h.facts h.now).inputs i) e
        where
          go :
              (t : Option V)
              → given t ≡ some (record { value = s.value; durability = s.durability })
              → s.durability ≡ low
          go none f = cc
          go (some u) f = cc

      same_counters :
          (slot : Option (StampedValue V))
          → InputOk (setting config rank h) i slot
          → counters_after (suc h.now) (counters_at (suc h.now) h.mark_medium h.mark_high) slot
            ≡ counters_at (suc h.now) h.mark_medium h.mark_high
      unfolding mark_durability_as_changed store_behind_first
      same_counters none fine = refl
      same_counters (some s) fine =
          ap
            (λ d.
              mark_durability_as_changed (suc h.now) d
                (counters_at (suc h.now) h.mark_medium h.mark_high))
            (old-low s fine)

      abbrev floor : DatabaseKey → ℕ
      floor key = ite (DatabaseKey-discrete key (input i)) (suc h.now) (ready.inv.floor key)

      floor-at : floor (input i) ≡ suc h.now
      floor-at = if_pos (DatabaseKey-discrete (input i) (input i)) refl _ _

      floor-grows : (key : DatabaseKey) → ready.inv.floor key ≤ floor key
      floor-grows key = elim (DatabaseKey-discrete key (input i)) [
        | yes e ↦
            subst (λ t. ready.inv.floor t ≤ floor t) (sym e)
              (omega (arith, floor-at, ready.inv.input_floor i))
        | no ne ↦
            subst (λ t. ready.inv.floor key ≤ t)
              (sym (if_neg (DatabaseKey-discrete key (input i)) ne _ _)) (omega arith)
      ]

      input-injective : {j : ℕ} → input j ≡ input i → j ≡ i
      input-injective e = cc

      floor-other : (j : ℕ) → j ≢ i → floor (input j) ≡ ready.inv.floor (input j)
      floor-other j ne =
          if_neg (DatabaseKey-discrete (input j) (input i)) (λ e. ne (input-injective e)) _ _

      slot_at : written.inputs i ≡ some new_value
      slot_at = if_pos (ℕ_discrete i i) refl _ _

      slot_other : (j : ℕ) → j ≢ i → written.inputs j ≡ db.inputs j
      slot_other j ne = if_neg (ℕ_discrete j i) ne _ _

      new_value-InputOk : InputOk (New config rank lawful h ready.seen next) i (some new_value)
      new_value-InputOk = (
        ap (λ (t : Facts V). given (t.inputs i)) (new_facts config rank lawful h ready.seen next)
            ∙ ap given (if_pos (ℕ_discrete i i) refl _ _),
        omega arith,
        λ r lt' known c. absurd (omega arith),
      )

      written-Moved : Moved config rank lawful h ready.seen next idle db ready.inv written
      written-Moved = record {
        floor = floor;
        grows = floor-grows;
        same_floor = λ k. if_neg (DatabaseKey-discrete (derived k) (input i)) (λ e. cc) _ _;
        counters = same_counters (db.inputs i) (ready.inv.inputs_ok i);
        own = refl;
        guard = refl;
        outside = ready.inv.outside;
        inputs_ok = λ j. elim (ℕ_discrete j i) [
          | yes e ↦
              subst (λ t. InputOk (New config rank lawful h ready.seen next) t (written.inputs t))
                (sym e)
                (subst (InputOk (New config rank lawful h ready.seen next) i) (sym slot_at)
                  new_value-InputOk)
          | no ne ↦
              subst (InputOk (New config rank lawful h ready.seen next) j) (sym (slot_other j ne)) (
                input_then config rank lawful h ready.seen next j (db.inputs j)
                  (if_neg (ℕ_discrete j i) ne _ _) (ready.inv.inputs_ok j))
        ];
        slots = λ k. refl;
        of_input = λ j s e. elim (ℕ_discrete j i) [
          | yes same ↦
              let f : some new_value ≡ some s = sym slot_at ∙ ap written.inputs (sym same) ∙ e in
              let g : new_value ≡ s = cc in
              ap (λ t. floor (input t)) same
              ∙ floor-at
              ∙ ap (λ (t : StampedValue V). t.changed_at) g
          | no ne ↦ floor-other j ne ∙ ready.inv.of_input j s (sym (slot_other j ne) ∙ e)
        ];
        input_floor = λ j. elim (ℕ_discrete j i) [
          | yes same ↦ subst (λ t. floor (input t) ≤ suc h.now) (sym same) (omega (arith, floor-at))
          | no ne ↦ omega (arith, floor-other j ne, ready.inv.input_floor j)
        ];
      }

      pub set-Follows : Follows next (set i v low db)
      set-Follows = (
        written,
        set-run i v low (suc h.now) (counters_at (suc h.now) h.mark_medium h.mark_high) db permitted
            incremented,
        follows next written written-Moved refl,
      )
