-- ===== src/Sound/Program.antt =====
-- Running a query function on calls that keep their contract.
use salsa.Base.{
  ℕ, ◌≤◌, ◌<◌, ◌≡◌, refl, ◌∙◌, sym, subst, ap, ◌⊎◌, inl, inr, Bool, false, Option, none, some, List,
  [], ◌∷◌, ◌++◌, min, arith, get_elem?, dec_le, dec_lt,
}
use mathlib.Core.List.{append_assoc, append-nil}
use salsa.Base.Outcome.{Outcome, returns, and_then, unwrap}
use salsa.Revision.{Revision}
use salsa.Durability.{Durability, low}
use salsa.Key.{DatabaseKey, DatabaseKey-discrete}
use salsa.Runtime.ActiveQuery.{
  ActiveQuery, insert, insert_into, add_read, add_untracked_read, add_anon_read,
}
use salsa.Runtime.LocalState.{LocalState, report_query_read, report_anon_read}
use salsa.Runtime.Revisions.{Revisions}
use salsa.Database.Program.{Program, done, fetch, read_untracked, check_canceled, crash}
use salsa.Database.State.{
  Database, with_stack, report_untracked, is_current_revision_canceled, answer_canceled,
}
use salsa.Database.Calls.{Calls}
use salsa.Database.Execute.{run_program}
use salsa.Sound.Spec.{Answer, interp, Below, Setting}
use salsa.Sound.Invariant.{In, Observed, Covers, Inv, IsFree, IsLifted, Later}
use salsa.Sound.Change.{Later-refl, Later-trans, IsLifted-mono, with_outer-Inv, with_outer-Later}
use salsa.Sound.Paths.{interp-fetch, fetch-interp, IsKnown-mono}
use salsa.Sound.Contract.{StampOk, Got, CallsOk}

-- A set that has the key stays, and any other grows by it at the end.
insert-cases :
    (key : DatabaseKey) (ds : List DatabaseKey)
    → (In key ds × (insert key ds ≡ ds)) ⊎ (insert key ds ≡ ds ++ key ∷ [])
unfolding insert
insert-cases key [] = inr refl
insert-cases key (x ∷ xs) = elim (DatabaseKey-discrete x key) [
  | yes p ↦ inl (inl (sym p), ground arith)
  | no p ↦ (elim (insert-cases key xs) [
    | inl (i, e) ↦ inl (inr i, ground arith)
    | inr e ↦ inr (ground arith)
  ])
]

module _ {V L : Type 0} (S : Setting V L) where
  open S use {now, den, world, rank, past}

  -- How the recorded set grows along a program.
  abbrev pub Records : Option (List DatabaseKey) → Option (List DatabaseKey) → Program V → Type 0
  Records none after p = after ≡ none
  Records (some ds) after p =
      (after ≡ none)
      ⊎ ((rest : List DatabaseKey) × (after ≡ some (ds ++ rest)) × Covers S now ds rest p)

  -- What the query on top of the stack knows after a run.
  pub record RunStamp (floor floor' : DatabaseKey → ℕ) (q q' : ActiveQuery) (a : Answer V)
      (p : Program V) : Type 0 where
    pub durable : q'.durability ≤ a.durability
    pub small : q'.durability ≤ q.durability
    pub grows : q.changed_at ≤ q'.changed_at
    pub not_later : q'.changed_at ≤ now
    pub unchanged :
        (r : Revision)
        → r < now
        → q'.changed_at ≤ r
        → Observed S (past r) r p
        → (d : Durability)
        → (b : Answer V) × (interp (den r) (world r) d p ≡ some b) × (b.value ≡ a.value)
    pub records : Records q.dependencies q'.dependencies p
    pub raised : (q'.changed_at ≤ q.changed_at) ⊎ IsLifted S floor' now p q'.changed_at
    pub above :
        (r : Revision) (f : ℕ)
        → r ≤ now
        → f ≤ r
        → (r < now → Observed S (past r) r p)
        → IsLifted S floor r p f
        → f ≤ q'.changed_at

  pub record Ran (n : ℕ) (seen : ℕ → Type 0) (busy : ℕ → Bool) (db : Database V L)
      (before : Inv S seen busy db) (q : ActiveQuery) (rest : LocalState) (a : Answer V)
      (p : Program V) (result : Outcome (Database V L) V) : Type 1 where
    pub db' : Database V L
    pub seen' : ℕ → Type 0
    pub q' : ActiveQuery
    pub returned : result ≡ returns a.value db'
    pub inv : Inv S seen' busy db'
    pub later : Later S n seen seen' before.floor inv.floor db db'
    pub stack : db'.runtime.local_state ≡ q' ∷ rest
    pub observed : Observed S seen' now p
    pub stamp : RunStamp before.floor inv.floor q q' a p

  Records-fetch :
      (before after : Option (List DatabaseKey)) (key : DatabaseKey) (k : V → Program V)
      (b : Answer V)
      → den now key ≡ some b
      → Records (insert_into key before) after (k b.value)
      → Records before after (fetch key k)
  unfolding insert_into
  Records-fetch none after key k b e r = r
  Records-fetch (some ds) after key k b e (inl n) = inl n
  Records-fetch (some ds) after key k b e (inr (rest, f, c)) = elim (insert-cases key ds) [
    | inl (i, g) ↦ inr (
      rest,
      f ∙ ap (λ t. some (t ++ rest)) g,
      (b, e, inl (i, subst (λ t. Covers S now t rest (k b.value)) g c)),
    )
    | inr g ↦ inr (
      key ∷ rest,
      f ∙ ap (λ t. some (t ++ rest)) g ∙ ap some (append_assoc ds (key ∷ []) rest),
      (b, e, inr (rest, refl, subst (λ t. Covers S now t rest (k b.value)) g c)),
    )
  ]

  Records-untracked :
      (before after : Option (List DatabaseKey)) (p : Program V)
      → after ≡ none
      → Records before after p
  Records-untracked none after p h = h
  Records-untracked (some ds) after p h = inl h

  Records-canceled :
      (before after : Option (List DatabaseKey)) (k : Bool → Program V)
      → Records before after (k false)
      → Records before after (check_canceled k)
  Records-canceled none after k h = h
  Records-canceled (some ds) after k h = h

  -- A run, once its first read is done.
  RunStamp-fetch :
      (f0 f1 f2 : DatabaseKey → ℕ) (q q' : ActiveQuery) (key : DatabaseKey) (d : Durability)
      (c : Revision) (a b : Answer V) (k : V → Program V) (seen : ℕ → Type 0)
      → ((j : DatabaseKey) → f0 j ≤ f1 j)
      → ((j : DatabaseKey) → f1 j ≤ f2 j)
      → f1 key ≡ c
      → den now key ≡ some b
      → StampOk S seen key b d c
      → RunStamp f1 f2 (add_read key d c q) q' a (k b.value)
      → RunStamp f0 f2 q q' a (fetch key k)
  unfolding add_read
  RunStamp-fetch f0 f1 f2 q q' key d c a b k seen le01 le12 at_c e st rs = record {
    durable = rs.durable;
    small = omega (arith, rs.small);
    grows = omega (arith, rs.grows);
    not_later = rs.not_later;
    unchanged = λ r lt le obs d2.
        let (b2, e2, ev) = st.unchanged r lt obs.0 (omega (arith, rs.grows)) in
        let obs2 : Observed S (past r) r (k b.value) =
          subst (λ v. Observed S (past r) r (k v)) ev (obs.1 b2 e2) in
        let (b3, e3, f3) = rs.unchanged r lt le obs2 (min d2 b2.durability) in
        (
          b3,
          fetch-interp (den r) (world r) d2 key k e2
              ∙ subst (λ v. interp (den r) (world r) (min d2 b2.durability) (k v) ≡ some b3)
                  (sym ev) e3,
          f3,
        );
    records = Records-fetch q.dependencies q'.dependencies key k b e rs.records;
    raised = elim rs.raised [
      | inl le ↦ (elim (dec_le q'.changed_at q.changed_at) [
        | yes small ↦ inl small
        | no n ↦ inr (inl (omega (arith, le12 key)))
      ])
      | inr up ↦ inr (inr (b, e, up))
    ];
    above = λ r f le_now le_r obs up. elim up [
      | inl low ↦ omega (arith, le01 key, rs.grows)
      | inr (b0, e0, up0) ↦ (elim (dec_le c r) [
        | no n ↦ omega (arith, rs.grows)
        | yes early ↦
            let same : b0.value ≡ b.value = same_value r b0 e0 early le_now obs in
            rs.above r f le_now le_r
              (λ lt. subst (λ v. Observed S (past r) r (k v)) same ((obs lt).1 b0 e0))
              (subst (λ v. IsLifted S f1 r (k v) f) same
                (IsLifted-mono S f0 f1 le01 r (k b0.value) f up0))
      ])
    ];
  }
    where
      same_value :
          (r : Revision) (b0 : Answer V)
          → den r key ≡ some b0
          → c ≤ r
          → r ≤ now
          → (r < now → Observed S (past r) r (fetch key k))
          → b0.value ≡ b.value
      same_value r b0 e0 early le_now obs = elim (dec_lt r now) [
        | yes lt ↦
            let (b2, e2, ev) = st.unchanged r lt (obs lt).0 early in
            let same : b2 ≡ b0 = cc in ap (λ (t : Answer V). t.value) (sym same) ∙ ev
        | no n ↦
            let at_now : r ≡ now = omega arith in
            let same : b0 ≡ b = cc (ap (λ t. den t key) at_now, e0, e) in
            ap (λ (t : Answer V). t.value) same
      ]

  -- Code that depends on this revision has changed now.
  RunStamp-now :
      (f0 f1 : DatabaseKey → ℕ) (q q1 q' : ActiveQuery) (a : Answer V) (p p1 : Program V)
      → IsLifted S f1 now p q'.changed_at
      → q1.durability ≤ q.durability
      → q.changed_at ≤ q1.changed_at
      → now ≤ q1.changed_at
      → Records q.dependencies q'.dependencies p
      → RunStamp f0 f1 q1 q' a p1
      → RunStamp f0 f1 q q' a p
  RunStamp-now f0 f1 q q1 q' a p p1 up hd hc hn hr rs = record {
    durable = rs.durable;
    small = omega (arith, rs.small);
    grows = omega (arith, rs.grows);
    not_later = rs.not_later;
    unchanged = λ r lt le obs d. absurd (omega (arith, rs.grows));
    records = hr;
    raised = inr up;
    above = λ r f le_now le_r obs low. omega (arith, rs.grows);
  }

  report_untracked_at :
      (seen : ℕ → Type 0) (busy : ℕ → Bool) (db : Database V L) (q : ActiveQuery)
      (rest : LocalState)
      → Inv S seen busy db
      → db.runtime.local_state ≡ q ∷ rest
      → report_untracked db ≡ returns tt (with_stack (add_untracked_read now q ∷ rest) db)
  unfolding report_untracked
  report_untracked_at seen busy db q rest inv st = rw (inv.counters, report_untracked, st)

  answer_same :
      (r : Revision) (db : Database V L)
      → answer_canceled r r db
        ≡ returns false (with_stack (report_anon_read r db.runtime.local_state) db)
  unfolding answer_canceled
  answer_same r db = ground arith

  is_canceled_at :
      (seen : ℕ → Type 0) (busy : ℕ → Bool) (db : Database V L) (q : ActiveQuery)
      (rest : LocalState)
      → Inv S seen busy db
      → db.runtime.local_state ≡ q ∷ rest
      → is_current_revision_canceled db ≡ returns false (with_stack (add_anon_read now q ∷ rest) db)
  unfolding is_current_revision_canceled report_anon_read
  is_canceled_at seen busy db q rest inv st =
      ap
        (λ (cs : Revisions).
          and_then (unwrap (get_elem? cs.revisions 0) db)
            (λ current s. answer_canceled s.runtime.counters.pending_revision current s))
        inv.counters
      ∙ ap (λ (cs : Revisions). answer_canceled cs.pending_revision now db) inv.counters
      ∙ answer_same now db
      ∙ ap (λ t. returns false (with_stack (report_anon_read now t) db)) st

  module _ (calls : Calls V L) (n : ℕ) (ok : CallsOk S calls n) where
    Ran-fetch :
        (key : DatabaseKey) (k : V → Program V) (seen : ℕ → Type 0) (busy : ℕ → Bool)
        (db : Database V L) (q : ActiveQuery) (rest : LocalState) (a x : Answer V)
        → den now key ≡ some x
        → (inv : Inv S seen busy db) (G : Got S n seen busy db inv key x (calls.get key db))
        → Ran n G.seen' busy G.db' G.inv
            (add_read key G.d G.c q)
            rest
            a
            (k x.value)
            (run_program calls (k x.value) G.db')
        → Ran n seen busy db inv q rest a (fetch key k) (run_program calls (fetch key k) db)
    unfolding run_program
    Ran-fetch key k seen busy db q rest a x found inv G R = record {
      db' = R.db';
      seen' = R.seen';
      q' = R.q';
      returned = ap (λ t. and_then t (λ v. run_program calls (k v))) G.returned ∙ R.returned;
      inv = R.inv;
      later = Later-trans S (omega arith) G.later R.later;
      stack = R.stack;
      observed = (
        IsKnown-mono S R.later.knows key G.stamp.known,
        λ t f.
            let same : x ≡ t = cc in
            subst (λ (y : Answer V). Observed S R.seen' now (k y.value)) same R.observed,
      );
      stamp =
          RunStamp-fetch inv.floor G.inv.floor R.inv.floor q R.q' key G.d G.c a x k G.seen'
            G.later.grows R.later.grows G.at_floor found G.stamp R.stamp;
    }

    pub run_ok :
        (p : Program V)
        → Below rank n p
        → (seen : ℕ → Type 0) (busy : ℕ → Bool) (db : Database V L) (q : ActiveQuery)
          (rest : LocalState) (d : Durability) (a : Answer V) (inv : Inv S seen busy db)
        → IsFree S busy n
        → db.runtime.local_state ≡ q ∷ rest
        → q.changed_at ≤ now
        → q.durability ≤ d
        → interp (den now) (world now) d p ≡ some a
        → Ran n seen busy db inv q rest a p (run_program calls p db)
    unfolding run_program report_query_read add_read add_untracked_read add_anon_read
    run_ok (done v) b seen busy db q rest d a inv free st c dur e = record {
      db' = db;
      seen' = seen;
      q' = q;
      returned = ground arith;
      inv = inv;
      later = Later-refl S n seen inv.floor db;
      stack = st;
      observed = tt;
      stamp = record {
        durable = ground arith;
        small = omega arith;
        grows = omega arith;
        not_later = c;
        unchanged = λ r lt le o d2. (record { value = v; durability = d2 }, refl, ground arith);
        records = Records-done q.dependencies v;
        raised = inl (omega arith);
        above = λ r f le_now le_r obs up. elim up [ ];
      };
    }
      where
        Records-done : (before : Option (List DatabaseKey)) (v : V) → Records before before (done v)
        Records-done none v = refl
        Records-done (some ds) v = inr ([], ap some (sym (append-nil ds)), refl)
    run_ok (fetch key k) b seen busy db q rest d a inv free st c dur e =
        let (x, found, e2) = interp-fetch (den now) (world now) d key k e in
        let G = ok.get_ok seen busy db key x inv free b.0 found in
        Ran-fetch key k seen busy db q rest a x found inv G (
          run_ok (k x.value) (b.1 x.value) G.seen' busy G.db' (add_read key G.d G.c q) rest
            (min d x.durability) a G.inv free (G.stack ∙ ap (report_query_read key G.d G.c) st)
            (omega (arith, G.stamp.not_later)) (omega (arith, G.stamp.durable)) e2)
    run_ok (read_untracked k) b seen busy db q rest d a inv free st c dur e =
        let q1 = add_untracked_read now q in
        let db1 = with_stack (q1 ∷ rest) db in
        let inv1 : Inv S seen busy db1 =
          with_outer-Inv S seen busy (q1 ∷ rest) db.lru db.events db inv in
        let R =
          run_ok (k (world now)) (b (world now)) seen busy db1 q1 rest low a inv1 free refl
            (omega arith) (omega arith) e in
        record {
          db' = R.db';
          seen' = R.seen';
          q' = R.q';
          returned =
              ap (λ t. and_then t (λ _ s. run_program calls (k s.world) s))
                (report_untracked_at seen busy db q rest inv st)
              ∙ ap (λ w. run_program calls (k w) db1) inv.outside
              ∙ R.returned;
          inv = R.inv;
          later =
              Later-trans S (omega arith)
                (with_outer-Later S n seen inv.floor (q1 ∷ rest) db.lru db.events db) R.later;
          stack = R.stack;
          observed = R.observed;
          stamp =
              RunStamp-now inv.floor R.inv.floor q q1 R.q' a (read_untracked k) (k (world now)) tt
                (omega arith) (omega arith) (omega arith)
                (Records-untracked q.dependencies R.q'.dependencies (read_untracked k)
                  R.stamp.records)
                R.stamp;
        }
    run_ok (check_canceled k) b seen busy db q rest d a inv free st c dur e =
        let q1 = add_anon_read now q in
        let db1 = with_stack (q1 ∷ rest) db in
        let inv1 : Inv S seen busy db1 =
          with_outer-Inv S seen busy (q1 ∷ rest) db.lru db.events db inv in
        let R =
          run_ok (k false) b seen busy db1 q1 rest d a inv1 free refl (omega arith) (omega arith)
            e in
        record {
          db' = R.db';
          seen' = R.seen';
          q' = R.q';
          returned =
              ap (λ t. and_then t (λ canceled. run_program calls (k canceled)))
                (is_canceled_at seen busy db q rest inv st)
              ∙ R.returned;
          inv = R.inv;
          later =
              Later-trans S (omega arith)
                (with_outer-Later S n seen inv.floor (q1 ∷ rest) db.lru db.events db) R.later;
          stack = R.stack;
          observed = R.observed;
          stamp =
              RunStamp-now inv.floor R.inv.floor q q1 R.q' a (check_canceled k) (k false) tt
                (omega arith) (omega arith) (omega arith)
                (Records-canceled q.dependencies R.q'.dependencies k R.stamp.records) R.stamp;
        }
    run_ok crash b seen busy db q rest d a inv free st c dur e = cc
