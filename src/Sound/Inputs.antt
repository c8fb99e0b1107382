-- ===== src/Sound/Inputs.antt =====
-- Checking the recorded inputs of a memo, `any_changed`, on calls that keep their contract.
use salsa.Base.{
  ℕ, ◌≤◌, ◌<◌, ◌≡◌, refl, ◌∙◌, sym, subst, ap, ◌⊎◌, inl, inr, Bool, true, false, some, List, [],
  ◌∷◌, ◌++◌, min, arith, Bool-cases, if◌then◌else◌,
}
use salsa.Base.Outcome.{Outcome, returns, and_then, pure}
use salsa.Revision.{Revision}
use salsa.Durability.{Durability}
use salsa.Key.{DatabaseKey}
use salsa.Database.Program.{Program, done, fetch, read_untracked, check_canceled, crash}
use salsa.Database.State.{Database}
use salsa.Database.Calls.{Calls}
use salsa.Database.Validate.{any_changed}
use salsa.Sound.Spec.{Answer, interp, Below, Setting}
use salsa.Sound.Invariant.{
  In, HasValue, IsKnown, Observed, Covers, IsUnchanged, Inv, IsFree, Extends, Later,
}
use salsa.Sound.Change.{Later-refl, Later-trans}
use salsa.Sound.Paths.{interp-fetch, fetch-interp, IsKnown-mono}
use salsa.Sound.Contract.{Checked, CallsOk}

In-snoc :
    (key x : DatabaseKey) (ds : List DatabaseKey) → In key (ds ++ x ∷ []) → In key ds ⊎ (key ≡ x)
In-snoc key x [] (inl e) = inr e
In-snoc key x [] (inr h) = elim h [ ]
In-snoc key x (d ∷ ds) (inl e) = inl (inl e)
In-snoc key x (d ∷ ds) (inr h) = elim (In-snoc key x ds h) [ inl i ↦ inl (inr i) | inr e ↦ inr e ]

module _ {V L : Type 0} (S : Setting V L) where
  open S use {now, den, world, rank, past}

  -- In revision `r` the program ends with this value.
  abbrev pub EndsWith : Revision → Program V → V → Type 0
  EndsWith r p v =
      (d : Durability) → (b : Answer V) × (interp (den r) (world r) d p ≡ some b) × (b.value ≡ v)

  pub fetch-EndsWith :
      (r : Revision) (key : DatabaseKey) (k : V → Program V) (u v : V)
      → HasValue S r key u
      → EndsWith r (k u) v
      → EndsWith r (fetch key k) v
  fetch-EndsWith r key k u v (b, e, f) h = λ d.
      let (c, g, i) = h (min d b.durability) in
      (
        c,
        fetch-interp (den r) (world r) d key k e
            ∙ subst (λ t. interp (den r) (world r) (min d b.durability) (k t) ≡ some c) (sym f) g,
        i,
      )

  -- The present path, and the value in all revisions from `rev` on.
  pub record Agrees (rev : Revision) (seen : ℕ → Type 0) (read rest : List DatabaseKey)
      (p : Program V) (v : V) : Type 0 where
    pub observed : Observed S seen now p
    pub covers : Covers S now read rest p
    pub since : (r : Revision) → rev ≤ r → r < now → Observed S (past r) r p → EndsWith r p v

  -- The value of a key from revision `rev` on, and now.
  pub record Kept (rev : Revision) (seen : ℕ → Type 0) (key : DatabaseKey) (u : V) : Type 0 where
    pub unchanged : IsUnchanged S rev key u
    pub in_now : HasValue S now key u
    pub known : IsKnown S seen key

  abbrev pub AllKept : Revision → (ℕ → Type 0) → List DatabaseKey → Type 0
  AllKept rev seen read = (key : DatabaseKey) → In key read → (u : V) × Kept rev seen key u

  pub record Looped (n : ℕ) (rev : Revision) (seen : ℕ → Type 0) (busy : ℕ → Bool)
      (db : Database V L) (before : Inv S seen busy db) (read rest : List DatabaseKey)
      (p : Program V) (v : V) (result : Outcome (Database V L) Bool) : Type 1 where
    pub db' : Database V L
    pub seen' : ℕ → Type 0
    pub changed : Bool
    pub returned : result ≡ returns changed db'
    pub inv : Inv S seen' busy db'
    pub later : Later S n seen seen' before.floor inv.floor db db'
    pub stack : db'.runtime.local_state ≡ db.runtime.local_state
    pub sound : changed ≡ false → Agrees rev seen' read rest p v

  fetch-since :
      (rev : Revision) (seen : ℕ → Type 0) (key : DatabaseKey) (k : V → Program V) (u v : V)
      → Kept rev seen key u
      → ((r : Revision) → rev ≤ r → r < now → Observed S (past r) r (k u) → EndsWith r (k u) v)
      → (r : Revision) → rev ≤ r
      → r < now
      → Observed S (past r) r (fetch key k)
      → EndsWith r (fetch key k) v
  fetch-since rev seen key k u v kept h r le lt obs =
      let (b, e, f) = kept.unchanged r lt obs.0 le in
      fetch-EndsWith r key k u v (b, e, f)
        (h r le lt (subst (λ y. Observed S (past r) r (k y)) f (obs.1 b e)))

  Agrees-again :
      (rev : Revision) (seen : ℕ → Type 0) (read rest : List DatabaseKey) (key : DatabaseKey)
      (k : V → Program V) (u v : V)
      → In key read
      → Kept rev seen key u
      → Agrees rev seen read rest (k u) v
      → Agrees rev seen read rest (fetch key k) v
  Agrees-again rev seen read rest key k u v i kept g =
      let (x, e, f) = kept.in_now in
      record {
        observed = (
          kept.known,
          λ t h.
              let same : u ≡ t.value = cc in subst (λ y. Observed S seen now (k y)) same g.observed,
        );
        covers = (x, e, inl (i, subst (λ y. Covers S now read rest (k y)) (sym f) g.covers));
        since = fetch-since rev seen key k u v kept g.since;
      }

  Agrees-first :
      (rev : Revision) (seen : ℕ → Type 0) (read rest : List DatabaseKey) (key : DatabaseKey)
      (k : V → Program V) (u v : V)
      → Kept rev seen key u
      → Agrees rev seen (read ++ key ∷ []) rest (k u) v
      → Agrees rev seen read (key ∷ rest) (fetch key k) v
  Agrees-first rev seen read rest key k u v kept g =
      let (x, e, f) = kept.in_now in
      record {
        observed = (
          kept.known,
          λ t h.
              let same : u ≡ t.value = cc in subst (λ y. Observed S seen now (k y)) same g.observed,
        );
        covers = (
          x,
          e,
          inr (
            rest,
            refl,
            subst (λ y. Covers S now (read ++ key ∷ []) rest (k y)) (sym f) g.covers,
          ),
        );
        since = fetch-since rev seen key k u v kept g.since;
      }

  Kept-mono :
      (rev : Revision) (seen seen' : ℕ → Type 0) (key : DatabaseKey) (u : V)
      → Extends S seen seen'
      → Kept rev seen key u
      → Kept rev seen' key u
  Kept-mono rev seen seen' key u ext h = record {
    unchanged = h.unchanged;
    in_now = h.in_now;
    known = IsKnown-mono S ext key h.known;
  }

  -- One fetch of a key that has a known value.
  pub Observed-at :
      (seen : ℕ → Type 0) (r : Revision) (key : DatabaseKey) (k : V → Program V) (u : V)
      → HasValue S r key u
      → Observed S seen r (fetch key k)
      → Observed S seen r (k u)
  Observed-at seen r key k u (b, e, f) h = subst (λ y. Observed S seen r (k y)) f (h.1 b e)

  interp_at :
      (r : Revision) (key : DatabaseKey) (k : V → Program V) (u : V) (d : Durability) (a : Answer V)
      → HasValue S r key u
      → interp (den r) (world r) d (fetch key k) ≡ some a
      → (d' : Durability) × (interp (den r) (world r) d' (k u) ≡ some a)
  interp_at r key k u d a (b, e, f) h =
      let (c, g, i) = interp-fetch (den r) (world r) d key k h in
      let same : c.value ≡ u = cc in
      (
        min d c.durability,
        subst (λ y. interp (den r) (world r) (min d c.durability) (k y) ≡ some a) same i,
      )

  Kept-value :
      (rev s : Revision) (seen : ℕ → Type 0) (key : DatabaseKey) (u : V) (x : Answer V)
      → rev ≤ s
      → s < now
      → IsKnown S (past s) key
      → Kept rev seen key u
      → den s key ≡ some x
      → Kept rev seen key x.value
  Kept-value rev s seen key u x le lt known h e =
      let (b, f, g) = h.unchanged s lt known le in
      let same : u ≡ x.value = cc in subst (Kept rev seen key) same h

  AllKept-snoc :
      (rev : Revision) (seen seen' : ℕ → Type 0) (read : List DatabaseKey) (key : DatabaseKey)
      (u : V)
      → Extends S seen seen'
      → AllKept rev seen read
      → Kept rev seen' key u
      → AllKept rev seen' (read ++ key ∷ [])
  AllKept-snoc rev seen seen' read key u ext all h = λ j i. elim (In-snoc j key read i) [
    | inl old ↦ let (v, g) = all j old in (v, Kept-mono rev seen seen' j v ext g)
    | inr same ↦ (u, subst (λ t. Kept rev seen' t u) (sym same) h)
  ]

  -- A first input that changed ends the loop.
  Looped-changed :
      (n : ℕ) (calls : Calls V L) (rev : Revision) (seen : ℕ → Type 0) (busy : ℕ → Bool)
      (db : Database V L) (inv : Inv S seen busy db) (read rest : List DatabaseKey)
      (key : DatabaseKey) (p : Program V) (v : V) (x : Answer V)
      → (C : Checked S n seen busy db inv key x rev (calls.maybe_changed_since key rev db))
      → C.changed ≡ true
      → Looped n rev seen busy db inv read (key ∷ rest) p v (any_changed calls (key ∷ rest) rev db)
  unfolding any_changed
  Looped-changed n calls rev seen busy db inv read rest key p v x C yes' = record {
    db' = C.db';
    seen' = C.seen';
    changed = true;
    returned =
        ap (λ t. and_then t (λ changed. if changed then pure true else any_changed calls rest rev))
          C.returned
        ∙ ap (λ (t : Bool). (if t then pure true else any_changed calls rest rev) C.db') yes';
    inv = C.inv;
    later = C.later;
    stack = C.stack;
    sound = λ h. cc;
  }

  -- Past a first input that did not change.
  Looped-next :
      (n : ℕ) (calls : Calls V L) (rev : Revision) (seen : ℕ → Type 0) (busy : ℕ → Bool)
      (db : Database V L) (inv : Inv S seen busy db) (read rest : List DatabaseKey)
      (key : DatabaseKey) (k : V → Program V) (u v : V) (x : Answer V)
      → (C : Checked S n seen busy db inv key x rev (calls.maybe_changed_since key rev db))
      → C.changed ≡ false
      → Kept rev C.seen' key u
      → Looped n rev C.seen' busy C.db' C.inv
          (read ++ key ∷ [])
          rest
          (k u)
          v
          (any_changed calls rest rev C.db')
      → Looped n rev seen busy db inv read
          (key ∷ rest)
          (fetch key k)
          v
          (any_changed calls (key ∷ rest) rev db)
  unfolding any_changed
  Looped-next n calls rev seen busy db inv read rest key k u v x C no' h R = record {
    db' = R.db';
    seen' = R.seen';
    changed = R.changed;
    returned =
        ap (λ t. and_then t (λ changed. if changed then pure true else any_changed calls rest rev))
          C.returned
        ∙ ap (λ (t : Bool). (if t then pure true else any_changed calls rest rev) C.db') no'
        ∙ R.returned;
    inv = R.inv;
    later = Later-trans S (omega arith) C.later R.later;
    stack = R.stack ∙ C.stack;
    sound = λ e.
        Agrees-first rev R.seen' read rest key k u v
          (Kept-mono rev C.seen' R.seen' key u R.later.knows h) (R.sound e);
  }

  module _ (calls : Calls V L) (n : ℕ) (ok : CallsOk S calls n) (rev s : Revision) (le : rev ≤ s)
      (lt : s < now) where
    pub any_changed_ok :
        (p : Program V)
        → Below rank n p
        → (seen : ℕ → Type 0) (busy : ℕ → Bool) (db : Database V L) (inv : Inv S seen busy db)
          (read rest : List DatabaseKey) (d : Durability) (a : Answer V)
        → IsFree S busy n
        → AllKept rev seen read
        → Covers S s read rest p
        → Observed S (past s) s p
        → Observed S (past rev) rev p
        → interp (den now) (world now) d p ≡ some a
        → Looped n rev seen busy db inv read rest p a.value (any_changed calls rest rev db)
    unfolding any_changed
    any_changed_ok (done v) b seen busy db inv read rest d a free kept c os or e = record {
      db' = db;
      seen' = seen;
      changed = false;
      returned = ap (λ l. any_changed calls l rev db) c;
      inv = inv;
      later = Later-refl S n seen inv.floor db;
      stack = refl;
      sound = λ _. record {
        observed = tt;
        covers = c;
        since = λ r le lt obs d2. (record { value = v; durability = d2 }, refl, ground arith);
      };
    }
    any_changed_ok (fetch key k) b seen busy db inv read rest d a free kept (x, ex, inl (i, c)) os
          or e =
        let (u, old) = kept key i in
        let h = Kept-value rev s seen key u x le lt os.0 old ex in
        let (d', e') = interp_at now key k x.value d a h.in_now e in
        let R =
          any_changed_ok (k x.value) (b.1 x.value) seen busy db inv read rest d' a free kept c
            (os.1 x ex)
            (Observed-at (past rev) rev key k x.value
              (h.unchanged rev (omega arith) or.0 (omega arith)) or)
            e' in
        record {
          db' = R.db';
          seen' = R.seen';
          changed = R.changed;
          returned = R.returned;
          inv = R.inv;
          later = R.later;
          stack = R.stack;
          sound = λ g.
              Agrees-again rev R.seen' read rest key k x.value a.value i
                (Kept-mono rev seen R.seen' key x.value R.later.knows h) (R.sound g);
        }
    any_changed_ok (fetch key k) b seen busy db inv read rest d a free kept
          (x, ex, inr (rest', f, c)) os or e =
        let (y, ey, e2) = interp-fetch (den now) (world now) d key k e in
        let C = ok.check_ok seen busy db key y rev inv free b.0 ey (omega arith) or.0 in
        subst
          (λ l.
            Looped n rev seen busy db inv read l (fetch key k) a.value (any_changed calls l rev db))
          (sym f)
          (elim (Bool-cases C.changed) [
            | inl changed ↦
                Looped-changed n calls rev seen busy db inv read rest' key (fetch key k) a.value y C
                  changed
            | inr same ↦
                let (unchanged, known) = C.sound same in
                let h0 : Kept rev C.seen' key y.value = record {
                  unchanged = unchanged;
                  in_now = (y, ey, refl);
                  known = known;
                } in
                let h = Kept-value rev s C.seen' key y.value x le lt os.0 h0 ex in
                let (d', e') = interp_at now key k x.value d a h.in_now e in
                Looped-next n calls rev seen busy db inv read rest' key k x.value a.value y C same h
                  (any_changed_ok (k x.value) (b.1 x.value) C.seen' busy C.db' C.inv
                    (read ++ key ∷ []) rest' d' a free
                    (AllKept-snoc rev seen C.seen' read key x.value C.later.knows kept h) c
                    (os.1 x ex)
                    (Observed-at (past rev) rev key k x.value
                      (h.unchanged rev (omega arith) or.0 (omega arith)) or)
                    e')
          ])
    any_changed_ok (read_untracked k) b seen busy db inv read rest d a free kept c os or e =
        elim c [ ]
    any_changed_ok (check_canceled k) b seen busy db inv read rest d a free kept c os or e =
        let R = any_changed_ok (k false) b seen busy db inv read rest d a free kept c os or e in
        record {
          db' = R.db';
          seen' = R.seen';
          changed = R.changed;
          returned = R.returned;
          inv = R.inv;
          later = R.later;
          stack = R.stack;
          sound = λ h.
              let g = R.sound h in
              record { observed = g.observed; covers = g.covers; since = g.since };
        }
    any_changed_ok crash b seen busy db inv read rest d a free kept c os or e = elim c [ ]
