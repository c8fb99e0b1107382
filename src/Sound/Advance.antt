-- ===== src/Sound/Advance.antt =====
-- A new revision of a database that satisfies the invariant: `with_incremented_revision`, `set`
-- and `synthetic_write` at low durability.
use salsa.Base.{
  ℕ, suc, ◌+◌, ◌≤◌, ◌<◌, ◌≡◌, refl, sym, ◌∙◌, ap, subst, inl, inr, Bool, Option, none, some, [],
  ◌∷◌, arith, if_pos, ℕ_discrete, dec_lt,
}
use salsa.Revision.{start, u64_mod}
use salsa.Key.{DatabaseKey, input, derived}
use salsa.Runtime.Revisions.Declining.{increment-at}
use salsa.Runtime.Revisions.{increment}
use salsa.Derived.Memo.{StampedValue}
use salsa.Database.Program.{Config}
use salsa.Database.State.{Database}
use salsa.Sound.Spec.{Answer, Setting}
use salsa.Sound.Invariant.{Inv, IsPastClosed, Observed, InputOk, SlotOk}
use salsa.Sound.Meaning.{Facts, Lawful, History, given}
use salsa.Sound.History.{
  next_revision, Unseen, S, T, value_then, Observed-then, IsFloored-then, slot_then,
}

pub increment_at :
    (now medium high : ℕ)
    → start ≤ now
    → now + 1 < u64_mod
    → increment (record { pending_revision = now; revisions = now ∷ medium ∷ high ∷ [] }) ≡ (
      record { pending_revision = suc now; revisions = suc now ∷ medium ∷ high ∷ [] },
      some (suc now),
    )
increment_at now medium high started lt =
    increment-at now (medium ∷ high ∷ []) started lt
    ∙ ap (λ r. (record { pending_revision = r; revisions = r ∷ medium ∷ high ∷ [] }, some r))
        next_number
  where
    next_number : now + 1 ≡ suc now
    next_number = omega arith

module _ {V L : Type 0} (config : Config V L) (rank : ℕ → ℕ) (lawful : Lawful config rank)
    (h : History V) (seen : ℕ → Type 0) (next : Facts V) where
  abbrev pub Old : Setting V L
  Old = S config rank lawful h seen next

  abbrev pub New : Setting V L
  New = T config rank lawful h seen next

  -- The revision that ends is closed, too.
  pub next-IsPastClosed :
      (busy : ℕ → Bool) (db : Database V L)
      → Inv Old seen busy db
      → IsPastClosed Old
      → IsPastClosed New
  next-IsPastClosed busy db inv closed r k lt (inl (lt', p)) =
      Observed-then config rank lawful h seen next (λ j q. inl (lt', q)) r (omega arith)
        (config.execute k) (closed r k lt' p)
  next-IsPastClosed busy db inv closed r k lt (inr (e, p)) =
      Observed-then config rank lawful h seen next (λ j q. inr (e, q)) r (omega arith)
        (config.execute k)
        (subst (λ t. Observed Old seen t (config.execute k)) (sym e) (inv.closed k p))

  pub new_facts : (next_revision h seen next).facts (suc h.now) ≡ next
  new_facts = if_pos (ℕ_discrete (suc h.now) (suc h.now)) refl _ _

  -- The present value of an input that keeps its value.
  new_input :
      (i : ℕ) (a : Option (Answer V))
      → next.inputs i ≡ (h.facts h.now).inputs i
      → Old.den Old.now (input i) ≡ a
      → New.den New.now (input i) ≡ a
  new_input i a e f = ap (λ (t : Facts V). given (t.inputs i)) new_facts ∙ ap given e ∙ f

  -- An input that keeps its value.
  pub input_then :
      (i : ℕ) (slot : Option (StampedValue V))
      → next.inputs i ≡ (h.facts h.now).inputs i
      → InputOk Old i slot
      → InputOk New i slot
  input_then i none e ok = new_input i none e ok
  input_then i (some s) e (f, le, unchanged) = (
    new_input i (some (record { value = s.value; durability = s.durability })) e f,
    omega arith,
    λ r lt known c. (elim (dec_lt r h.now) [
      | yes lt' ↦
          value_then config rank lawful h seen next r (input i) s.value (omega arith)
            (unchanged r lt' tt c)
      | no ge ↦
          let same : r ≡ h.now = omega arith in
          value_then config rank lawful h seen next r (input i) s.value (omega arith) (
            record { value = s.value; durability = s.durability },
            ap (λ t. Old.den t (input i)) same ∙ f,
            refl,
          )
    ]),
  )

  -- What the database of the next revision keeps, and what of it is new.
  pub record Moved (busy : ℕ → Bool) (db : Database V L) (inv : Inv Old seen busy db)
      (db' : Database V L) : Type 0 where
    pub floor : DatabaseKey → ℕ
    pub grows : (key : DatabaseKey) → inv.floor key ≤ floor key
    pub same_floor : (k : ℕ) → floor (derived k) ≡ inv.floor (derived k)
    pub counters : db'.runtime.counters ≡ record {
      pending_revision = suc h.now;
      revisions = suc h.now ∷ h.mark_medium ∷ h.mark_high ∷ [];
    }
    pub own : db'.runtime.id ≡ db.runtime.id
    pub guard : db'.runtime.revision_guard ≡ db.runtime.revision_guard
    pub outside : db'.world ≡ next.world
    pub inputs_ok : (i : ℕ) → InputOk New i (db'.inputs i)
    pub slots : (k : ℕ) → db'.slots k ≡ db.slots k
    pub of_input :
        (i : ℕ) (s : StampedValue V) → db'.inputs i ≡ some s → floor (input i) ≡ s.changed_at
    pub input_floor : (i : ℕ) → floor (input i) ≤ suc h.now

  -- All slots may stay in the next revision.
  pub next-Inv :
      (busy : ℕ → Bool) (db : Database V L) (inv : Inv Old seen busy db) (db' : Database V L)
      → Moved busy db inv db'
      → Inv New Unseen busy db'
  next-Inv busy db inv db' moved = record {
    floor = moved.floor;
    counters = moved.counters;
    own = moved.own ∙ inv.own;
    unguarded = moved.guard ∙ inv.unguarded;
    outside = moved.outside ∙ sym (ap (λ (f : Facts V). f.world) new_facts);
    inputs_ok = moved.inputs_ok;
    slots_ok = λ k.
        subst (SlotOk New Unseen k (busy k)) (sym (moved.slots k))
          (slot_then config rank lawful h seen next k (busy k) (db.slots k) (inv.slots_ok k));
    closed = λ k p. elim p [ ];
    floored = λ k.
        IsFloored-then config rank lawful h seen next inv.floor moved.floor moved.grows k
          (moved.same_floor k) (inv.floored k);
    of_memo = λ k m e. moved.same_floor k ∙ inv.of_memo k m (sym (moved.slots k) ∙ e);
    of_input = moved.of_input;
    input_floor = moved.input_floor;
  }
