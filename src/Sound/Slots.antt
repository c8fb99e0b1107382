-- ===== src/Sound/Slots.antt =====
-- Writing one slot of a database that satisfies the invariant.
use salsa.Base.{
  ℕ, ◌≤◌, ◌<◌, ◌≡◌, ◌≢◌, refl, sym, ◌∙◌, ap, subst, inl, inr, Bool, true, false, none, arith, ite,
  if_pos, if_neg, ℕ_discrete, Bool-cases,
}
use salsa.Key.{DatabaseKey, input, derived, DatabaseKey-discrete}
use salsa.Derived.Memo.{Memo, QueryState, not_computed, in_progress, memoized, has_untracked_input}
use salsa.Derived.Slot.{evict}
use salsa.Database.State.{Database, write_state}
use salsa.Sound.Spec.{Setting}
use salsa.Sound.Invariant.{Inv, Later, IsFloored, Observed, Extends, MemoOk, SlotOk}
use salsa.Sound.Paths.{IsKnown-mono, Observed-mono}
use salsa.Sound.Change.{IsFloored-mono}

-- The floors with another one for a derived key.
abbrev pub with_floor : (DatabaseKey → ℕ) → ℕ → ℕ → DatabaseKey → ℕ
with_floor floor k f key = ite (DatabaseKey-discrete key (derived k)) f (floor key)

derived-injective : {j k : ℕ} → derived j ≡ derived k → j ≡ k
derived-injective e = cc

pub with_floor-at : (floor : DatabaseKey → ℕ) (k f : ℕ) → with_floor floor k f (derived k) ≡ f
with_floor-at floor k f = if_pos (DatabaseKey-discrete (derived k) (derived k)) refl _ _

pub with_floor-other :
    (floor : DatabaseKey → ℕ) (k f j : ℕ)
    → j ≢ k
    → with_floor floor k f (derived j) ≡ floor (derived j)
with_floor-other floor k f j ne =
    if_neg (DatabaseKey-discrete (derived j) (derived k)) (λ e. ne (derived-injective e)) _ _

pub with_floor-grows :
    (floor : DatabaseKey → ℕ) (k f : ℕ)
    → floor (derived k) ≤ f
    → (key : DatabaseKey) → floor key ≤ with_floor floor k f key
with_floor-grows floor k f le key = elim (DatabaseKey-discrete key (derived k)) [
  | yes e ↦
      subst (λ t. floor key ≤ t) (sym (if_pos (DatabaseKey-discrete key (derived k)) e _ _))
        (subst (λ t. floor t ≤ f) (sym e) le)
  | no n ↦
      subst (λ t. floor key ≤ t) (sym (if_neg (DatabaseKey-discrete key (derived k)) n _ _))
        (omega arith)
]

module _ {V L : Type 0} (S : Setting V L) where
  open S use {config, rank, now, den, world, past}

  pub MemoOk-mono :
      {seen seen' : ℕ → Type 0} {j : ℕ} {m : Memo V}
      → Extends S seen seen'
      → (seen' j → seen j)
      → MemoOk S seen j m
      → MemoOk S seen' j m
  MemoOk-mono {j} ext back ok = record {
    answer = ok.answer;
    means = ok.means;
    holds = ok.holds;
    ordered = ok.ordered;
    not_later = ok.not_later;
    durable = ok.durable;
    small = ok.small;
    latest = ok.latest;
    steady = ok.steady;
    known_past = ok.known_past;
    known_now = λ e. IsKnown-mono S ext (derived j) (ok.known_now e);
    fresh = λ h. ok.fresh (back h);
    inputs_ok = ok.inputs_ok;
  }

  pub SlotOk-mono :
      {seen seen' : ℕ → Type 0} {j : ℕ}
      → Extends S seen seen'
      → (seen' j → seen j)
      → (b : Bool) (st : QueryState V) → SlotOk S seen j b st
      → SlotOk S seen' j b st
  SlotOk-mono ext back false not_computed ok = tt
  SlotOk-mono ext back false (memoized m) ok = MemoOk-mono ext back ok
  SlotOk-mono ext back false (in_progress id waiting) ok = ok
  SlotOk-mono ext back true (in_progress id waiting) ok = ok
  SlotOk-mono ext back true not_computed ok = ok
  SlotOk-mono ext back true (memoized m) ok = ok

  -- What a write of the slot `k` needs.
  pub record Writes (seen seen' : ℕ → Type 0) (busy busy' : ℕ → Bool)
      (floor floor' : DatabaseKey → ℕ) (k : ℕ) (st : QueryState V) : Type 0 where
    pub knows : Extends S seen seen'
    pub back : (j : ℕ) → j ≢ k → seen' j → seen j
    pub same_busy : (j : ℕ) → j ≢ k → busy' j ≡ busy j
    pub slot_ok : SlotOk S seen' k (busy' k) st
    pub closes : seen' k → Observed S seen' now (config.execute k)
    pub grows : (key : DatabaseKey) → floor key ≤ floor' key
    pub others : (j : ℕ) → j ≢ k → floor' (derived j) ≡ floor (derived j)
    pub inputs : (i : ℕ) → floor' (input i) ≡ floor (input i)
    pub floored : IsFloored S seen' floor' k
    pub of_memo : (m : Memo V) → st ≡ memoized m → floor' (derived k) ≡ m.changed_at

  pub slot_at : (db : Database V L) (k : ℕ) (st : QueryState V) → (write_state k st db).slots k ≡ st
  slot_at db k st = if_pos (ℕ_discrete k k) refl _ _

  pub slot_other :
      (db : Database V L) (k : ℕ) (st : QueryState V) (j : ℕ)
      → j ≢ k
      → (write_state k st db).slots j ≡ db.slots j
  slot_other db k st j ne = if_neg (ℕ_discrete j k) ne _ _

  abbrev pub write-Inv :
      (seen seen' : ℕ → Type 0) (busy busy' : ℕ → Bool) (floor' : DatabaseKey → ℕ)
      (db : Database V L) (k : ℕ) (st : QueryState V) (inv : Inv S seen busy db)
      → Writes seen seen' busy busy' inv.floor floor' k st
      → Inv S seen' busy' (write_state k st db)
  write-Inv seen seen' busy busy' floor' db k st inv w = record {
    floor = floor';
    counters = inv.counters;
    own = inv.own;
    unguarded = inv.unguarded;
    outside = inv.outside;
    inputs_ok = inv.inputs_ok;
    slots_ok = λ j. elim (ℕ_discrete j k) [
      | yes e ↦
          subst (λ t. SlotOk S seen' t (busy' t) ((write_state k st db).slots t)) (sym e)
            (subst (SlotOk S seen' k (busy' k)) (sym (slot_at db k st)) w.slot_ok)
      | no n ↦ subst (SlotOk S seen' j (busy' j)) (sym (slot_other db k st j n)) (
          subst (λ b. SlotOk S seen' j b (db.slots j)) (sym (w.same_busy j n))
            (SlotOk-mono w.knows (w.back j n) (busy j) (db.slots j) (inv.slots_ok j)))
    ];
    closed = λ j h. elim (ℕ_discrete j k) [
      | yes e ↦
          subst (λ t. Observed S seen' now (config.execute t)) (sym e) (w.closes (subst seen' e h))
      | no n ↦ Observed-mono S w.knows now (config.execute j) (inv.closed j (w.back j n h))
    ];
    floored = λ j. elim (ℕ_discrete j k) [
      | yes e ↦ subst (IsFloored S seen' floor') (sym e) w.floored
      | no n ↦ IsFloored-mono S w.knows inv.floor floor' w.grows j (w.others j n) (inv.floored j)
    ];
    of_memo = λ j m h. elim (ℕ_discrete j k) [
      | yes e ↦
          ap (λ t. floor' (derived t)) e
          ∙ w.of_memo m (sym (slot_at db k st) ∙ ap (write_state k st db).slots (sym e) ∙ h)
      | no n ↦ w.others j n ∙ inv.of_memo j m (sym (slot_other db k st j n) ∙ h)
    ];
    of_input = λ i s h. w.inputs i ∙ inv.of_input i s h;
    input_floor = λ i. omega (arith, w.inputs i, inv.input_floor i);
  }

  pub write-Later :
      (n : ℕ) (seen seen' : ℕ → Type 0) (busy busy' : ℕ → Bool) (floor floor' : DatabaseKey → ℕ)
      (db : Database V L) (k : ℕ) (st : QueryState V)
      → rank k < n
      → Writes seen seen' busy busy' floor floor' k st
      → Later S n seen seen' floor floor' db (write_state k st db)
  write-Later n seen seen' busy busy' floor floor' db k st lt w = record {
    knows = w.knows;
    grows = w.grows;
    keeps = λ j le. w.others j (λ e. absurd (omega (arith, ap rank e)));
    frame = λ j le. inl (slot_other db k st j (λ e. absurd (omega (arith, ap rank e))));
  }

  -- Eviction.
  MemoOk-evict :
      {seen : ℕ → Type 0} {j : ℕ} {m : Memo V}
      → MemoOk S seen j m
      → MemoOk S seen j (record m { value = none })
  MemoOk-evict ok = record {
    answer = ok.answer;
    means = ok.means;
    holds = λ v e. cc;
    ordered = ok.ordered;
    not_later = ok.not_later;
    durable = ok.durable;
    small = ok.small;
    latest = ok.latest;
    steady = ok.steady;
    known_past = ok.known_past;
    known_now = ok.known_now;
    fresh = ok.fresh;
    inputs_ok = ok.inputs_ok;
  }

  evict-memoized :
      (st : QueryState V) (m : Memo V)
      → evict st ≡ memoized m
      → (old : Memo V) × (st ≡ memoized old) × (old.changed_at ≡ m.changed_at)
  unfolding evict
  evict-memoized not_computed m e = cc
  evict-memoized (in_progress id waiting) m e = cc
  evict-memoized (memoized old) m e = elim (Bool-cases (has_untracked_input old)) [
    | inl u ↦
        let f : memoized old ≡ memoized m = cc (rw (u, evict) at e) in
        let g : old ≡ m = memoized-injective f in (old, refl, ap (λ (t : Memo V). t.changed_at) g)
    | inr u ↦
        let f : memoized (record old { value = none }) ≡ memoized m = cc (rw (u, evict) at e) in
        let g : record old { value = none } ≡ m = memoized-injective f in
        (old, refl, ap (λ (t : Memo V). t.changed_at) g)
  ]
    where
      memoized-injective : {a b : Memo V} → memoized a ≡ memoized b → a ≡ b
      memoized-injective f = cc

  SlotOk-evict :
      (seen : ℕ → Type 0) (j : ℕ) (b : Bool) (st : QueryState V)
      → SlotOk S seen j b st
      → SlotOk S seen j b (evict st)
  unfolding evict
  SlotOk-evict seen j false not_computed ok = tt
  SlotOk-evict seen j false (memoized m) ok = elim (Bool-cases (has_untracked_input m)) [
    | inl u ↦ subst (SlotOk S seen j false) (evicted_whole m u) ok
    | inr u ↦ subst (SlotOk S seen j false) (evicted_bare m u) (MemoOk-evict ok)
  ]
    where
      evicted_whole : (m : Memo V) → has_untracked_input m ≡ true → memoized m ≡ evict (memoized m)
      evicted_whole m u = ground arith

      evicted_bare :
          (m : Memo V)
          → has_untracked_input m ≡ false
          → memoized (record m { value = none }) ≡ evict (memoized m)
      evicted_bare m u = ground arith
  SlotOk-evict seen j false (in_progress id waiting) ok = ok
  SlotOk-evict seen j true (in_progress id waiting) ok = ok
  SlotOk-evict seen j true not_computed ok = ok
  SlotOk-evict seen j true (memoized m) ok = elim ok [ ]

  -- The write that evicts the slot `e`.
  pub evict-Writes :
      (seen : ℕ → Type 0) (busy : ℕ → Bool) (db : Database V L) (e : ℕ) (inv : Inv S seen busy db)
      → Writes seen seen busy busy inv.floor inv.floor e (evict (db.slots e))
  evict-Writes seen busy db e inv = record {
    knows = λ k h. h;
    back = λ j n h. h;
    same_busy = λ j n. refl;
    slot_ok = SlotOk-evict seen e (busy e) (db.slots e) (inv.slots_ok e);
    closes = inv.closed e;
    grows = λ key. omega arith;
    others = λ j n. refl;
    inputs = λ i. refl;
    floored = inv.floored e;
    of_memo = λ m h. let (old, f, g) = evict-memoized (db.slots e) m h in inv.of_memo e old f ∙ g;
  }

  pub evict-Later :
      (n : ℕ) (seen : ℕ → Type 0) (floor : DatabaseKey → ℕ) (db : Database V L) (e : ℕ)
      → Later S n seen seen floor floor db (write_state e (evict (db.slots e)) db)
  evict-Later n seen floor db e = record {
    knows = λ k h. h;
    grows = λ key. omega arith;
    keeps = λ j le. refl;
    frame = λ j le. elim (ℕ_discrete j e) [
      | yes same ↦ inr (
          ap (write_state e (evict (db.slots e)) db).slots same
          ∙ slot_at db e (evict (db.slots e))
          ∙ ap (λ t. evict (db.slots t)) (sym same))
      | no other ↦ inl (slot_other db e (evict (db.slots e)) j other)
    ];
  }
