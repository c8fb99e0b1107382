-- ===== src/Sound/Verify.antt =====
-- What is known of a memo once its inputs were checked.
use salsa.Base.{
  ℕ, zero, suc, ◌≤◌, ◌<◌, ◌≡◌, refl, sym, ◌∙◌, ap, subst, ◌⊎◌, inl, inr, Bool, true, false, some,
  List, [], ◌∷◌, arith, leb, dec_le, Bool-cases, if◌then◌else◌, get_elem?,
}
use salsa.Base.Outcome.{Outcome, returns, and_then, unwrap, pure}
use salsa.Revision.{Revision}
use salsa.Durability.{max_durability}
use salsa.Key.{DatabaseKey, derived}
use salsa.Runtime.Revisions.{Revisions}
use salsa.Derived.Memo.{Memo, MemoInputs, tracked, no_inputs, untracked}
use salsa.Database.Program.{Program}
use salsa.Database.State.{Database}
use salsa.Database.Calls.{Calls}
use salsa.Database.Validate.{check_durability, any_changed, inputs_changed, is_stale}
use salsa.Sound.Spec.{Answer, interp, Setting}
use salsa.Sound.Invariant.{
  Laws, Inv, Later, IsKnown, IsConstant, IsPastClosed, IsUnchanged, HasValue, Observed, Covers,
  RecordsInputs, IsFree, MemoOk,
}
use salsa.Sound.Paths.{Observed-mono, Observed-high, Covers-high, IsConstant-of}
use salsa.Sound.Change.{Later-refl}
use salsa.Sound.Contract.{CallsOk}
use salsa.Sound.Inputs.{Agrees, Looped, any_changed_ok}

abbrev pub Added : (ℕ → Type 0) → ℕ → ℕ → Type 0
Added seen k j = seen j ⊎ (j ≡ k)

module _ {V L : Type 0} (S : Setting V L) (laws : Laws S) (past_closed : IsPastClosed S) where
  open S use {config, rank, now, den, world, past, mark_medium, mark_high}

  pub path_value :
      (r : Revision) (k : ℕ) {a : Answer V}
      → den r (derived k) ≡ some a
      → interp (den r) (world r) max_durability (config.execute k) ≡ some a
  path_value r k e = sym (laws.meaning r k) ∙ e

  pub past_path :
      (r : Revision) (k : ℕ)
      → r < now
      → IsKnown S (past r) (derived k)
      → Observed S (past r) r (config.execute k)
  past_path r k lt (inl h) = past_closed r k lt h
  past_path r k lt (inr (a, one, e)) =
      Observed-high S laws (past r) r (config.execute k) max_durability a (path_value r k (e r)) one

  constant_value :
      (k : ℕ) (a : Answer V)
      → den now (derived k) ≡ some a
      → IsConstant S k
      → (r : Revision) → HasValue S r (derived k) a.value
  constant_value k a e (b, one, all) r =
      let same : b ≡ a = cc (all now, e) in (b, all r, ap (λ (t : Answer V). t.value) same)

  -- A value that is steady where the query was observed has not changed there.
  pub steady-IsUnchanged :
      (k : ℕ) (c : Revision) (a : Answer V)
      → den now (derived k) ≡ some a
      → ((r : Revision) → r < now → past r k → c ≤ r → HasValue S r (derived k) a.value)
      → IsUnchanged S c (derived k) a.value
  steady-IsUnchanged k c a e h r lt (inl seen) le = h r lt seen le
  steady-IsUnchanged k c a e h r lt (inr constant) le = constant_value k a e constant r

  pub Agrees-IsUnchanged :
      (k : ℕ) (rev : Revision) (seen : ℕ → Type 0) (inputs : List DatabaseKey) (a : Answer V)
      → den now (derived k) ≡ some a
      → Agrees S rev seen [] inputs (config.execute k) a.value
      → IsUnchanged S rev (derived k) a.value
  Agrees-IsUnchanged k rev seen inputs a e g = steady-IsUnchanged k rev a e (λ r lt h le.
      let (b, f, v) = g.since r le lt (past_closed r k lt h) max_durability in
      (b, laws.meaning r k ∙ f, v))

  -- A memo of a query, the answer of which is known now.
  module _ (k : ℕ) (seen : ℕ → Type 0) (m : Memo V) (ok : MemoOk S seen k m) (a : Answer V)
      (e : den now (derived k) ≡ some a) where
    constant_answer : IsConstant S k → ok.answer ≡ a
    constant_answer (b, one, all) = cc (all now, all m.verified_at, ok.means, e)

    durable_now : m.durability ≤ a.durability
    durable_now = elim (dec_le 1 ok.answer.durability) [
      | yes one ↦
          subst (λ (t : Answer V). m.durability ≤ t.durability)
            (constant_answer (IsConstant-of S laws m.verified_at k ok.answer ok.means one))
            ok.durable
      | no n ↦ omega (arith, ok.durable)
    ]

    pub verified-MemoOk :
        (seen' : ℕ → Type 0)
        → ok.answer.value ≡ a.value
        → IsKnown S seen' (derived k)
        → RecordsInputs S now m.inputs (config.execute k)
        → MemoOk S seen' k (record m { verified_at = now })
    verified-MemoOk seen' same known records = record {
      answer = a;
      means = e;
      holds = λ v h. ok.holds v h ∙ same;
      ordered = omega (arith, ok.ordered, ok.not_later);
      not_later = omega arith;
      durable = durable_now;
      small = ok.small;
      latest = λ r lt h. omega arith;
      steady = λ r lt h le. subst (HasValue S r (derived k)) same (ok.steady r lt h le);
      known_past = λ lt. absurd (omega arith);
      known_now = λ _. known;
      fresh = λ h. refl;
      inputs_ok = records;
    }

    -- The check of the inputs that the memo recorded, since a revision in which the query was
    -- observed.
    module _ (calls : Calls V L) (calls_ok : CallsOk S calls (rank k)) (rev : Revision)
        (lt : rev < now) (known : IsKnown S (past rev) (derived k))
        (old : m.verified_at < now) where
      abbrev CheckedInputs :
          (busy : ℕ → Bool) (db : Database V L) → Inv S seen busy db → List DatabaseKey → Type 1
      CheckedInputs busy db inv inputs =
          Looped S (rank k) rev seen busy db inv [] inputs (config.execute k) a.value
            (any_changed calls inputs rev db)

      pub check_list :
          (busy : ℕ → Bool) (db : Database V L) (inv : Inv S seen busy db)
          (inputs : List DatabaseKey)
          → IsFree S busy (rank k)
          → Covers S m.verified_at [] inputs (config.execute k)
          → CheckedInputs busy db inv inputs
      check_list busy db inv inputs free c = go known
        where
          go : IsKnown S (past rev) (derived k) → CheckedInputs busy db inv inputs
          go (inl h) =
              any_changed_ok S calls (rank k) calls_ok rev m.verified_at (ok.latest rev lt h) old
                (config.execute k) (laws.acyclic k) seen busy db inv [] inputs max_durability a free
                (λ key i. elim i [ ]) c (past_path m.verified_at k old (ok.known_past old))
                (past_path rev k lt known) (path_value now k e)
          go (inr (b, one, all)) =
              any_changed_ok S calls (rank k) calls_ok rev rev (omega arith) lt (config.execute k)
                (laws.acyclic k) seen busy db inv [] inputs max_durability a free
                (λ key i. elim i [ ])
                (Covers-high S laws m.verified_at rev (config.execute k) max_durability b
                  (path_value m.verified_at k (all m.verified_at)) one [] inputs c)
                (past_path rev k lt known) (past_path rev k lt known) (path_value now k e)

      pub agreed_value :
          (seen' : ℕ → Type 0) (inputs : List DatabaseKey)
          → Agrees S rev seen' [] inputs (config.execute k) a.value
          → ok.answer.value ≡ a.value
      agreed_value seen' inputs g = go known
        where
          go : IsKnown S (past rev) (derived k) → ok.answer.value ≡ a.value
          go (inl h) =
              let (b, f, v) =
                g.since m.verified_at (ok.latest rev lt h) old
                  (past_path m.verified_at k old (ok.known_past old)) max_durability in
              let same : b ≡ ok.answer = cc (f, path_value m.verified_at k ok.means) in
              ap (λ (t : Answer V). t.value) (sym same) ∙ v
          go (inr constant) = ap (λ (t : Answer V). t.value) (constant_answer constant)

    -- A memo of a constant query holds in every revision.
    pub constant-MemoOk :
        IsConstant S k → (seen' : ℕ → Type 0) → MemoOk S seen' k (record m { verified_at = now })
    constant-MemoOk (b, one, all) seen' =
        verified-MemoOk seen' (ap (λ (t : Answer V). t.value) (constant_answer (b, one, all)))
          (inr (b, one, all)) (records m.inputs ok.inputs_ok)
      where
        across :
            (inputs : List DatabaseKey)
            → Covers S m.verified_at [] inputs (config.execute k)
            → Covers S now [] inputs (config.execute k)
        across inputs c =
            Covers-high S laws m.verified_at now (config.execute k) max_durability b
              (path_value m.verified_at k (all m.verified_at)) one [] inputs c

        records :
            (inputs : MemoInputs)
            → RecordsInputs S m.verified_at inputs (config.execute k)
            → RecordsInputs S now inputs (config.execute k)
        records untracked h = tt
        records no_inputs h = across [] h
        records (tracked []) h = h
        records (tracked (d ∷ ds)) h = across (d ∷ ds) h

    -- `check_durability` says yes only of a constant query, for a memo of an earlier revision.
    pub check_durability_at :
        (busy : ℕ → Bool) (db : Database V L)
        → Inv S seen busy db
        → m.verified_at < now
        → (durable : Bool) × (check_durability m db ≡ returns durable db)
          × (durable ≡ true → IsConstant S k)
    unfolding check_durability
    check_durability_at busy db inv old = go m.durability refl ok.small
      where
        revisions_now : List ℕ
        revisions_now = now ∷ mark_medium ∷ mark_high ∷ []

        at_revisions : db.runtime.counters.revisions ≡ revisions_now
        at_revisions = ap (λ (c : Revisions). c.revisions) inv.counters

        constant : 1 ≤ ok.answer.durability → IsConstant S k
        constant one = IsConstant-of S laws m.verified_at k ok.answer ok.means one

        at_counters :
            (revisions : List ℕ) (d last : ℕ)
            → db.runtime.counters.revisions ≡ revisions
            → m.durability ≡ d
            → get_elem? revisions d ≡ some last
            → check_durability m db ≡ returns (leb last m.verified_at) db
        at_counters revisions d last f g h =
            ap
              (λ t.
                and_then (unwrap (get_elem? t m.durability) db)
                  (λ l s. returns (leb l m.verified_at) s))
              f
            ∙ ap
                (λ t.
                  and_then (unwrap (get_elem? revisions t) db)
                    (λ l s. returns (leb l m.verified_at) s))
                g
            ∙ ap (λ t. and_then (unwrap t db) (λ l s. returns (leb l m.verified_at) s)) h

        go :
            (d : ℕ)
            → m.durability ≡ d
            → d ≤ max_durability
            → (durable : Bool) × (check_durability m db ≡ returns durable db)
              × (durable ≡ true → IsConstant S k)
        go zero f le = (
          false,
          at_counters revisions_now 0 now at_revisions f refl ∙ ground (arith, old),
          λ h. cc,
        )
        go (suc zero) f le = (
          leb mark_medium m.verified_at,
          at_counters revisions_now 1 mark_medium at_revisions f refl,
          λ h. constant (omega (arith, ok.durable)),
        )
        go (suc (suc zero)) f le = (
          leb mark_high m.verified_at,
          at_counters revisions_now 2 mark_high at_revisions f refl,
          λ h. constant (omega (arith, ok.durable)),
        )
        go (suc (suc (suc d))) f le = absurd (omega arith)

    -- The verdict on a memo of an earlier revision.
    pub record Judged (busy : ℕ → Bool) (db : Database V L) (inv : Inv S seen busy db)
        (result : Outcome (Database V L) Bool) : Type 1 where
      pub db' : Database V L
      pub seen' : ℕ → Type 0
      pub stale : Bool
      pub returned : result ≡ returns stale db'
      pub after : Inv S seen' busy db'
      pub later : Later S (rank k) seen seen' inv.floor after.floor db db'
      pub stack : db'.runtime.local_state ≡ db.runtime.local_state
      pub valid :
          stale ≡ false
          → MemoOk S (Added seen' k) k (record m { verified_at = now })
            × Observed S (Added seen' k) now (config.execute k)
            × (ok.answer.value ≡ a.value)

    constant-Judged :
        (busy : ℕ → Bool) (db : Database V L) (inv : Inv S seen busy db)
        (result : Outcome (Database V L) Bool)
        → result ≡ returns false db
        → IsConstant S k
        → Judged busy db inv result
    constant-Judged busy db inv result f (b, one, all) = record {
      db' = db;
      seen' = seen;
      stale = false;
      returned = f;
      after = inv;
      later = Later-refl S (rank k) seen inv.floor db;
      stack = refl;
      valid = λ _. (
        constant-MemoOk (b, one, all) (Added seen k),
        Observed-high S laws (Added seen k) now (config.execute k) max_durability b
            (path_value now k (all now)) one,
        ap (λ (t : Answer V). t.value) (constant_answer (b, one, all)),
      );
    }

    Observed-Added :
        (seen' : ℕ → Type 0) (p : Program V)
        → Observed S seen' now p
        → Observed S (Added seen' k) now p
    Observed-Added seen' p = Observed-mono S (λ j h. inl h) now p

    module _ (calls : Calls V L) (calls_ok : CallsOk S calls (rank k))
        (old : m.verified_at < now) where
      listed-Judged :
          (busy : ℕ → Bool) (db : Database V L) (inv : Inv S seen busy db)
          (inputs : List DatabaseKey)
          → IsFree S busy (rank k)
          → Covers S m.verified_at [] inputs (config.execute k)
          → (Covers S now [] inputs (config.execute k)
              → RecordsInputs S now m.inputs (config.execute k))
          → Judged busy db inv (any_changed calls inputs m.verified_at db)
      listed-Judged busy db inv inputs free c records =
          let R =
            check_list calls calls_ok m.verified_at old (ok.known_past old) old busy db inv inputs
              free c in
          record {
            db' = R.db';
            seen' = R.seen';
            stale = R.changed;
            returned = R.returned;
            after = R.inv;
            later = R.later;
            stack = R.stack;
            valid = λ h.
                let g = R.sound h in
                let same =
                  agreed_value calls calls_ok m.verified_at old (ok.known_past old) old R.seen'
                    inputs g in
                (
                  verified-MemoOk (Added R.seen' k) same (inl (inr refl)) (records g.covers),
                  Observed-Added R.seen' (config.execute k) g.observed,
                  same,
                );
          }

      inputs-Judged :
          (busy : ℕ → Bool) (db : Database V L) (inv : Inv S seen busy db)
          → IsFree S busy (rank k)
          → Judged busy db inv (inputs_changed calls m.inputs m.verified_at db)
      unfolding inputs_changed
      inputs-Judged busy db inv free = go m.inputs refl ok.inputs_ok
        where
          go :
              (inputs : MemoInputs)
              → m.inputs ≡ inputs
              → RecordsInputs S m.verified_at inputs (config.execute k)
              → Judged busy db inv (inputs_changed calls m.inputs m.verified_at db)
          go untracked f h = record {
            db' = db;
            seen' = seen;
            stale = true;
            returned = ap (λ t. inputs_changed calls t m.verified_at db) f;
            after = inv;
            later = Later-refl S (rank k) seen inv.floor db;
            stack = refl;
            valid = λ g. cc;
          }
          go no_inputs f h =
              subst (Judged busy db inv) (ap (λ t. inputs_changed calls t m.verified_at db) (sym f))
                (listed-Judged busy db inv [] free h
                  (λ c. subst (λ t. RecordsInputs S now t (config.execute k)) (sym f) c))
          go (tracked []) f h = elim h [ ]
          go (tracked (d ∷ ds)) f h =
              subst (Judged busy db inv) (ap (λ t. inputs_changed calls t m.verified_at db) (sym f))
                (listed-Judged busy db inv (d ∷ ds) free h
                  (λ c. subst (λ t. RecordsInputs S now t (config.execute k)) (sym f) c))

      pub is_stale-Judged :
          (busy : ℕ → Bool) (db : Database V L) (inv : Inv S seen busy db)
          → IsFree S busy (rank k)
          → Judged busy db inv (is_stale calls m db)
      unfolding is_stale
      is_stale-Judged busy db inv free =
          let (durable, run, constant) = check_durability_at busy db inv old in
          let run' : is_stale calls m db ≡ judge durable db = ap (λ t. and_then t judge) run in
          (elim (Bool-cases durable) [
            | inl yes' ↦
                constant-Judged busy db inv (is_stale calls m db) (run' ∙ ap (λ t. judge t db) yes')
                  (constant yes')
            | inr no' ↦
                subst (Judged busy db inv) (sym (run' ∙ ap (λ t. judge t db) no'))
                  (inputs-Judged busy db inv free)
          ])
        where
          judge : Bool → Database V L → Outcome (Database V L) Bool
          judge durable =
              if durable then pure false else inputs_changed calls m.inputs m.verified_at
