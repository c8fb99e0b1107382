-- ===== src/Sound/Recompute.antt =====
-- Running a query for its slot: `recompute`, on calls that keep their contract.
use salsa.Base.{
  ℕ, suc, ◌≤◌, ◌<◌, ◌≡◌, refl, sym, ◌∙◌, ap, subst, ◌⊎◌, inl, inr, Bool, true, ◌&&◌, Option, none,
  some, List, [], ◌∷◌, arith, leb, ◌==◌, Bool-cases, Option-cases, if◌then◌else◌, get_elem?, length,
}
use salsa.Base.Outcome.{Outcome, returns, M, and_then, unwrap, pure, clean_up, ◌>>=◌, panic}
use salsa.Revision.{Revision, start}
use salsa.Durability.{max_durability}
use salsa.Key.{DatabaseKey, derived}
use salsa.Runtime.Revisions.{Revisions}
use salsa.Runtime.ActiveQuery.{ActiveQuery, new}
use salsa.Runtime.LocalState.{LocalState, ActiveQueryGuard, pop_helper}
use salsa.Derived.Memo.{Memo, StampedValue}
use salsa.Database.State.{Database, will_execute, with_stack, current_revision}
use salsa.Database.Calls.{Calls}
use salsa.Database.Execute.{
  ComputedQueryResult, run_program, complete, execute_query_implementation, can_backdate, backdate,
  new_memo, recompute, memo_inputs, drop_guard,
}
use salsa.Sound.Spec.{Answer, Setting}
use salsa.Sound.Invariant.{
  Laws, Inv, Later, IsPastClosed, HasValue, Observed, RecordsInputs, IsFree, IsFloored, IsLifted,
  MemoOk,
}
use salsa.Sound.Paths.{Observed-mono}
use salsa.Sound.Change.{
  Later-trans, IsLifted-mono, IsFloored-mono, with_outer-Inv, with_outer-Later,
}
use salsa.Sound.Slots.{with_floor, with_floor-at, with_floor-grows}
use salsa.Sound.Contract.{CallsOk}
use salsa.Sound.Program.{Records, Ran, run_ok}
use salsa.Sound.Verify.{Added, path_value, past_path}

module _ {V L : Type 0} (S : Setting V L) (laws : Laws S) (past_closed : IsPastClosed S)
    (started : start ≤ S.now) where
  open S use {config, rank, now, den, world, past, mark_medium, mark_high}

  -- The result that a query on top of the stack gives.
  abbrev result_of : ActiveQuery → V → ComputedQueryResult V
  result_of q v = record {
    value = v;
    durability = q.durability;
    changed_at = q.changed_at;
    dependencies = q.dependencies;
  }

  complete-pop :
      (guard : ActiveQueryGuard) (q : ActiveQuery) (rest : LocalState) (v : V) (db : Database V L)
      → db.runtime.local_state ≡ q ∷ rest
      → guard.push_len ≡ suc (length rest)
      → complete guard v db ≡ returns (result_of q v) (with_stack rest db)
  unfolding complete
  complete-pop guard q rest v db st e =
      ap (λ t. and_then (unwrap t db) finish) (ap (pop_helper guard) st ∙ popped)
    where
      finish : ActiveQuery × LocalState → M (Database V L) (ComputedQueryResult V)
      finish p db' = returns (result_of p.0 v) (with_stack p.1 db')

      popped : pop_helper guard (q ∷ rest) ≡ some (q, rest)
      popped = ground (arith, e)

  -- What `recompute` does for a slot that is in progress.
  pub record Recomputed (k : ℕ) (seen : ℕ → Type 0) (busy : ℕ → Bool) (db : Database V L)
      (inv : Inv S seen busy db) (a : Answer V)
      (result : Outcome (Database V L) (StampedValue V × Memo V)) : Type 1 where
    pub db' : Database V L
    pub seen' : ℕ → Type 0
    pub value : StampedValue V
    pub memo : Memo V
    pub returned : result ≡ returns (value, memo) db'
    pub after : Inv S seen' busy db'
    pub later : Later S (rank k) seen seen' inv.floor after.floor db db'
    pub stack : db'.runtime.local_state ≡ db.runtime.local_state
    pub memo_ok : MemoOk S (Added seen' k) k memo
    pub observed : Observed S (Added seen' k) now (config.execute k)
    pub right : value.value ≡ a.value
    pub same_revision : value.changed_at ≡ memo.changed_at
    pub same_durability : value.durability ≡ memo.durability
    pub verified : memo.verified_at ≡ now
    pub above : after.floor (derived k) ≤ memo.changed_at
    pub floored : IsFloored S (Added seen' k) (with_floor after.floor k memo.changed_at) k

  -- The old memo, which the slot does not hold while it is in progress.
  abbrev pub OldOk : (ℕ → Type 0) → (DatabaseKey → ℕ) → ℕ → Option (Memo V) → Type 0
  OldOk seen floor k none = Unit {0}
  OldOk seen floor k (some m) = MemoOk S seen k m × (floor (derived k) ≡ m.changed_at)

  module _ (k : ℕ) (a : Answer V) (e : den now (derived k) ≡ some a) where
    -- The revision that goes into the new memo.
    record Dated (seen : ℕ → Type 0) (floor : DatabaseKey → ℕ) (db : Database V L)
        (result : Outcome (Database V L) Revision) : Type 0 where
      c : Revision
      returned : result ≡ returns c db
      above : floor (derived k) ≤ c
      not_later : c ≤ now
      steady : (r : Revision) → r < now → past r k → c ≤ r → HasValue S r (derived k) a.value
      floored : IsFloored S (Added seen k) (with_floor floor k c) k

    module _ (seen : ℕ → Type 0) (floor : DatabaseKey → ℕ) (db : Database V L) (q : ActiveQuery)
        (at_floor : IsFloored S seen floor k) (above : floor (derived k) ≤ q.changed_at)
        (not_later : q.changed_at ≤ now)
        (unchanged : (r : Revision)
          → r < now
          → past r k
          → q.changed_at ≤ r
          → HasValue S r (derived k) a.value)
        (raised : (q.changed_at ≤ start)
          ⊎ IsLifted S floor now (config.execute k) q.changed_at) where
      undated : Dated seen floor db (returns q.changed_at db)
      undated = record {
        c = q.changed_at;
        returned = refl;
        above = above;
        not_later = not_later;
        steady = unchanged;
        floored = elim raised [
          | inl small ↦ inl (omega (arith, with_floor-at floor k q.changed_at))
          | inr up ↦ inr (
            now,
            omega arith,
            omega (arith, with_floor-at floor k q.changed_at),
            λ lt. absurd (omega arith),
            λ _. inl (inr refl),
            subst (IsLifted S (with_floor floor k q.changed_at) now (config.execute k))
                (sym (with_floor-at floor k q.changed_at))
                (IsLifted-mono S floor (with_floor floor k q.changed_at)
                  (with_floor-grows floor k q.changed_at above) now (config.execute k) q.changed_at
                  up),
          )
        ];
      }

      redated :
          (old : Memo V) (seen0 : ℕ → Type 0)
          → MemoOk S seen0 k old
          → floor (derived k) ≡ old.changed_at
          → can_backdate config old (result_of q a.value) ≡ true
          → Dated seen floor db (returns old.changed_at db)
      unfolding can_backdate
      redated old seen0 ok f can = record {
        c = old.changed_at;
        returned = refl;
        above = omega arith;
        not_later = omega arith;
        steady = λ r lt h le. subst (HasValue S r (derived k)) same (ok.steady r lt h le);
        floored =
            IsFloored-mono S {seen = seen} {seen' = Added seen k} (λ j h. inl h) floor
              (with_floor floor k old.changed_at)
              (with_floor-grows floor k old.changed_at (omega arith)) k
              (with_floor-at floor k old.changed_at ∙ sym f) at_floor;
      }
        where
          same : ok.answer.value ≡ a.value
          same = elim (Option-cases old.value) [
            | inl none' ↦ cc (rw (none', can_backdate) at can)
            | inr (v, g) ↦
                let both : (leb old.durability q.durability && config.value_eq v a.value) ≡ true =
                  rw (g, can_backdate) at can in
                let equal : config.value_eq v a.value ≡ true = ground arith in
                sym (ok.holds v g) ∙ laws.eq_sound v a.value equal
          ]

      backdate-Dated :
          (old : Option (Memo V)) (seen0 : ℕ → Type 0)
          → OldOk seen0 floor k old
          → Dated seen floor db (backdate config old (result_of q a.value) db)
      unfolding backdate
      backdate-Dated none seen0 ok = undated
      backdate-Dated (some old) seen0 (ok, f) =
          elim (Bool-cases (can_backdate config old (result_of q a.value))) [
            | inl can ↦ subst (Dated seen floor db) (kept can) (redated old seen0 ok f can)
            | inr cannot ↦ subst (Dated seen floor db) (ground arith) undated
          ]
        where
          kept :
              can_backdate config old (result_of q a.value) ≡ true
              → returns old.changed_at db ≡ backdate config (some old) (result_of q a.value) db
          kept can = ground (arith, above, f)

    -- The database when the query function begins.
    abbrev entered : Database V L → Database V L
    entered db = record db {
      runtime = record (db.runtime) {
        local_state = new (derived k) max_durability ∷ db.runtime.local_state;
      };
      events = will_execute (derived k) ∷ db.events;
    }

    abbrev entered-Inv :
        (seen : ℕ → Type 0) (busy : ℕ → Bool) (db : Database V L)
        → Inv S seen busy db
        → Inv S seen busy (entered db)
    entered-Inv seen busy db inv =
        with_outer-Inv S seen busy (new (derived k) max_durability ∷ db.runtime.local_state) db.lru
          (will_execute (derived k) ∷ db.events) db inv

    pub current_revision-now :
        (seen : ℕ → Type 0) (busy : ℕ → Bool) (db : Database V L)
        → Inv S seen busy db
        → current_revision db ≡ returns now db
    unfolding current_revision
    current_revision-now seen busy db inv =
        ap (λ (c : Revisions). unwrap (get_elem? c.revisions 0) db) inv.counters

    records_inputs :
        (deps : Option (List DatabaseKey))
        → Records S (some []) deps (config.execute k)
        → RecordsInputs S now (memo_inputs deps) (config.execute k)
    unfolding memo_inputs
    records_inputs deps (inl e) =
        subst (λ t. RecordsInputs S now (memo_inputs t) (config.execute k)) (sym e) tt
    records_inputs deps (inr ([], e, c)) =
        subst (λ t. RecordsInputs S now (memo_inputs t) (config.execute k)) (sym e) c
    records_inputs deps (inr (d ∷ ds, e, c)) =
        subst (λ t. RecordsInputs S now (memo_inputs t) (config.execute k)) (sym e) c

    new_memo-MemoOk :
        (seen : ℕ → Type 0) (c : Revision) (q : ActiveQuery)
        → c ≤ now
        → q.durability ≤ a.durability
        → q.durability ≤ max_durability
        → ((r : Revision) → r < now → past r k → c ≤ r → HasValue S r (derived k) a.value)
        → Records S (some []) q.dependencies (config.execute k)
        → MemoOk S (Added seen k) k (new_memo config k now c (result_of q a.value))
    unfolding new_memo
    new_memo-MemoOk seen c q not_later durable small steady records = record {
      answer = a;
      means = e;
      holds = λ v h. kept v h;
      ordered = not_later;
      not_later = omega arith;
      durable = durable;
      small = small;
      latest = λ r lt h. omega arith;
      steady = steady;
      known_past = λ lt. absurd (omega arith);
      known_now = λ _. inl (inr refl);
      fresh = λ h. refl;
      inputs_ok = records_inputs q.dependencies records;
    }
      where
        kept :
            (v : V)
            → (if config.should_memoize_value k then some a.value else none) ≡ some v
            → v ≡ a.value
        kept v h = elim (Bool-cases (config.should_memoize_value k)) [
          | inl yes' ↦ cc (ap (λ (b : Bool). if b then some a.value else none) yes', h)
          | inr no' ↦ cc (ap (λ (b : Bool). if b then some a.value else none) no', h)
        ]

    module _ (seen : ℕ → Type 0) (busy : ℕ → Bool) (db : Database V L) (inv : Inv S seen busy db)
        (calls : Calls V L) where
      abbrev Entered : Type 1
      Entered =
          Ran S (rank k) seen busy (entered db) (entered-Inv seen busy db inv)
            (new (derived k) max_durability) db.runtime.local_state a (config.execute k)
            (run_program calls (config.execute k) (entered db))

      execute-run :
          (R : Entered)
          → execute_query_implementation (derived k) (run_program calls (config.execute k)) db
            ≡ returns (result_of R.q' a.value) (with_stack db.runtime.local_state R.db')
      unfolding execute_query_implementation
      execute-run R =
          ap (λ t. clean_up (drop_guard guard) (and_then t (complete guard))) R.returned
          ∙ ap (clean_up (drop_guard guard))
              (complete-pop guard R.q' db.runtime.local_state a.value R.db' R.stack refl)
        where
          guard : ActiveQueryGuard
          guard = record { push_len = suc (length db.runtime.local_state) }

      -- The floor of the query when it has run.
      reaches_floor : (R : Entered) → inv.floor (derived k) ≤ R.q'.changed_at
      unfolding new
      reaches_floor R = elim (inv.floored k) [
        | inl small ↦ omega (arith, R.stamp.grows)
        | inr (r, le, high, known, known', lifted) ↦
            R.stamp.above r (inv.floor (derived k)) le high
              (λ lt. past_path S laws past_closed r k lt (known lt)) lifted
      ]

      dated :
          (R : Entered) (old : Option (Memo V)) (seen0 : ℕ → Type 0)
          → OldOk seen0 inv.floor k old
          → Dated R.seen' R.inv.floor (with_stack db.runtime.local_state R.db') (
              backdate config old
                (result_of R.q' a.value)
                (with_stack db.runtime.local_state R.db'))
      unfolding new
      dated R old seen0 ok =
          backdate-Dated R.seen' R.inv.floor (with_stack db.runtime.local_state R.db') R.q'
            (R.inv.floored k) (omega (arith, reaches_floor R, same_floor)) R.stamp.not_later
            (λ r lt h le.
              let (b, f, v) = R.stamp.unchanged r lt le (past_closed r k lt h) max_durability in
              (b, laws.meaning r k ∙ f, v))
            R.stamp.raised old seen0 (still_ok old ok)
        where
          same_floor : R.inv.floor (derived k) ≡ inv.floor (derived k)
          same_floor = R.later.keeps k (omega arith)

          still_ok : (o : Option (Memo V)) → OldOk seen0 inv.floor k o → OldOk seen0 R.inv.floor k o
          still_ok none h = h
          still_ok (some m) h = (h.0, same_floor ∙ h.1)

      -- Running the query again gives its meaning, and a memo to store. The check on backdating
      -- holds.
      pub recompute_ok :
          CallsOk S calls (rank k)
          → IsFree S busy (rank k)
          → (old : Option (Memo V)) (seen0 : ℕ → Type 0) → OldOk seen0 inv.floor k old
          → Recomputed k seen busy db inv a (recompute config calls k now old db)
      unfolding recompute new
      recompute_ok calls_ok free old seen0 ok =
          let R =
            run_ok S calls (rank k) calls_ok (config.execute k) (laws.acyclic k) seen busy
              (entered db) (new (derived k) max_durability) db.runtime.local_state max_durability a
              (entered-Inv seen busy db inv) free refl started (omega arith)
              (path_value S laws past_closed now k e) in
          let D = dated R old seen0 ok in
          let db2 = with_stack db.runtime.local_state R.db' in
          let inv2 : Inv S R.seen' busy db2 =
            with_outer-Inv S R.seen' busy db.runtime.local_state R.db'.lru R.db'.events R.db'
              R.inv in
          let result = result_of R.q' a.value in
          record {
            db' = db2;
            seen' = R.seen';
            value = record { value = a.value; durability = R.q'.durability; changed_at = D.c };
            memo = new_memo config k now D.c result;
            returned =
                ap (λ t. and_then t (dating old)) (execute-run R)
                ∙ ap (λ t. and_then t (λ r. if r == now then storing old result else panic))
                    (current_revision-now R.seen' busy db2 inv2)
                ∙ ap (λ (b : Bool). (if b then storing old result else panic) db2) now_now
                ∙ ap (λ t. and_then t (stored result)) D.returned;
            after = inv2;
            later =
                Later-trans S (omega arith)
                  (with_outer-Later S (rank k) seen inv.floor
                    (new (derived k) max_durability ∷ db.runtime.local_state) db.lru
                    (will_execute (derived k) ∷ db.events) db)
                  (Later-trans S (omega arith) R.later (
                    with_outer-Later S (rank k) R.seen' R.inv.floor db.runtime.local_state R.db'.lru
                      R.db'.events R.db'));
            stack = refl;
            memo_ok =
                new_memo-MemoOk R.seen' D.c R.q' D.not_later R.stamp.durable R.stamp.small D.steady
                  R.stamp.records;
            observed = Observed-mono S (λ j h. inl h) now (config.execute k) R.observed;
            right = refl;
            same_revision = refl;
            same_durability = refl;
            verified = refl;
            above = D.above;
            floored = D.floored;
          }
        where
          now_now : (now == now) ≡ true
          now_now = ground arith

          stored : ComputedQueryResult V → Revision → M (Database V L) (StampedValue V × Memo V)
          stored result changed_at = pure (
            record {
              value = result.value;
              durability = result.durability;
              changed_at = changed_at;
            },
            new_memo config k now changed_at result,
          )

          storing :
              Option (Memo V) → ComputedQueryResult V → M (Database V L) (StampedValue V × Memo V)
          storing o result = backdate config o result >>= stored result

          dating :
              Option (Memo V) → ComputedQueryResult V → M (Database V L) (StampedValue V × Memo V)
          dating o result = current_revision >>= λ r. if r == now then storing o result else panic
