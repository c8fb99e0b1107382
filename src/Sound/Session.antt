-- ===== src/Sound/Session.antt =====
-- Whole sessions on one handle: writes of low durability between queries, from the first revision.
use salsa.Base.{
  ℕ, ◌+◌, ◌<◌, ◌≡◌, refl, sym, ◌∙◌, ap, inl, inr, Bool, false, Option, none, some, List, [], ◌∷◌,
  arith, length, Option-cases,
}
use mathlib.Core.Option
use salsa.Base.Outcome.{returns, M, and_then, pure, modify, ◌>>=◌, ◌>>◌}
use salsa.Revision.{Revision, u64_mod}
use salsa.Durability.{low}
use salsa.Key.{DatabaseKey}
use salsa.Sweep.{SweepStrategy}
use salsa.Runtime.LocalState.{report_query_read}
use salsa.Database.Program.{Program, Config}
use salsa.Database.State.{Database, update}
use salsa.Database.Read.{calls}
use salsa.Database.Write.{set, synthetic_write, sweep_all}
use salsa.Sound.Spec.{Answer, KeyBelow}
use salsa.Sound.Invariant.{IsKnown, IsUnchanged}
use salsa.Sound.Answers.{calls_ok}
use salsa.Sound.Meaning.{Facts, Lawful, History, meaning, setting, setting-Laws}
use salsa.Sound.History.{next_revision}
use salsa.Sound.Advance.{new_facts}
use salsa.Sound.Fresh.{no_facts, first, fresh, fresh-Ready}
use salsa.Sound.Garbage.{Discards, sweep_all-Swept}
use salsa.Sound.Writing.{idle, Ready, synthetic_write-Follows, set-Follows}

-- What a client does: it sets an input of low durability, changes what untracked reads see and
-- says so by a synthetic write, sweeps some slots, or asks a query.
pub data Request (V : Type 0) : Type 0 where
  set_input : ℕ → V → Request V
  change_world : V → Request V
  collect : SweepStrategy → List ℕ → Request V
  query : DatabaseKey → Request V

-- All queries that are asked have a rank below `n`, and every sweep discards something.
abbrev pub Fits : {V : Type 0} → (ℕ → ℕ) → ℕ → List (Request V) → Type 0
Fits rank n [] = Unit {0}
Fits rank n (set_input i v ∷ requests) = Fits rank n requests
Fits rank n (change_world w ∷ requests) = Fits rank n requests
Fits rank n (collect strategy keys ∷ requests) = Discards strategy × Fits rank n requests
Fits rank n (query key ∷ requests) = KeyBelow rank n key × Fits rank n requests

module _ {V : Type 0} (rank : ℕ → ℕ) (execute : ℕ → Program V) where
  -- The answers without any memo: every query is evaluated anew. `none` if one panics.
  abbrev pub replay : Facts V → List (Request V) → Option (List V)
  replay facts [] = some []
  replay facts (set_input i v ∷ requests) =
      replay (record facts { inputs = update facts.inputs i (some v) }) requests
  replay facts (change_world w ∷ requests) = replay (record facts { world = w }) requests
  replay facts (collect strategy keys ∷ requests) = replay facts requests
  replay facts (query key ∷ requests) = elim (meaning rank execute facts key) [
    | none ↦ none
    | some a ↦ Option.map (λ values. a.value ∷ values) (replay facts requests)
  ]

module _ {V L : Type 0} where
  -- The answers of the queries, in order.
  unfoldable pub session : Config V L → ℕ → List (Request V) → M (Database V L) (List V)
  unfolding set synthetic_write sweep_all calls
  session config fuel [] = pure []
  session config fuel (set_input i v ∷ requests) = do set i v low; session config fuel requests
  session config fuel (change_world w ∷ requests) = do
    modify (λ db. record db { world = w })
    synthetic_write low
    session config fuel requests
  session config fuel (collect strategy keys ∷ requests) = do
    sweep_all strategy keys
    session config fuel requests
  session config fuel (query key ∷ requests) = do
    value ← (calls config fuel).get key
    values ← session config fuel requests
    pure (value ∷ values)

module _ {V L : Type 0} (config : Config V L) (rank : ℕ → ℕ) (lawful : Lawful config rank)
    (fuel n : ℕ) (enough : n < fuel) where
  replay-query :
      (facts : Facts V) (key : DatabaseKey) (requests : List (Request V)) (answers : List V)
      → replay rank config.execute facts (query key ∷ requests) ≡ some answers
      → (a : Answer V) × (values : List V) × (meaning rank config.execute facts key ≡ some a)
        × (replay rank config.execute facts requests ≡ some values)
        × (a.value ∷ values ≡ answers)
  replay-query facts key requests answers e =
      elim (Option-cases (meaning rank config.execute facts key)) [
        | inl f ↦ cc (sym (ap answering f) ∙ e)
        | inr (a, f) ↦ elim (Option-cases (replay rank config.execute facts requests)) [
          | inl g ↦ cc (sym (ap answering f ∙ ap (collecting a) g) ∙ e)
          | inr (values, g) ↦
              let same : some (a.value ∷ values) ≡ some answers =
                sym (ap answering f ∙ ap (collecting a) g) ∙ e in
              (a, values, f, g, cc)
        ]
      ]
    where
      collecting : Answer V → Option (List V) → Option (List V)
      collecting a t = Option.map (λ values. a.value ∷ values) t

      answering : Option (Answer V) → Option (List V)
      answering t = elim t [
        | none ↦ none
        | some a ↦ collecting a (replay rank config.execute facts requests)
      ]

  -- Between two operations of such a session, a query that has a meaning returns it, if the
  -- fuel is above its rank, query functions have no cycles and equality holds of equal values
  -- alone. It leaves a database that is between two operations again, in which the query was
  -- observed.
  pub get-Ready :
      (h : History V) (db : Database V L)
      → Ready config rank lawful h db
      → (key : DatabaseKey) → KeyBelow rank n key
      → (a : Answer V) → meaning rank config.execute (h.facts h.now) key ≡ some a
      → (db' : Database V L) × ((calls config fuel).get key db ≡ returns a.value db')
        × (ready' : Ready config rank lawful h db') × IsKnown
            (setting config rank h)
            ready'.seen
            key
  unfolding report_query_read
  get-Ready h db ready key below a e =
      let got =
        (calls_ok (setting config rank h) (setting-Laws config rank lawful h) ready.closed
            ready.started fuel n enough).get_ok
          ready.seen idle db key a ready.inv (λ k lt. refl) below e in
      (
        got.db',
        got.returned,
        record {
          seen = got.seen';
          inv = got.inv;
          closed = ready.closed;
          started = ready.started;
          stack = got.stack ∙ ap (report_query_read key got.d got.c) ready.stack;
        },
        got.stamp.known,
      )

  -- Between two operations of such a session, `maybe_changed_since` returns for a query that
  -- has a meaning and that was observed in the given earlier revision, if the fuel is above its
  -- rank, query functions have no cycles and equality holds of equal values alone. If it says
  -- no, the key has had its present value in all revisions since then in which it was observed.
  pub maybe_changed_since-Ready :
      (h : History V) (db : Database V L)
      → Ready config rank lawful h db
      → (key : DatabaseKey) → KeyBelow rank n key
      → (a : Answer V) → meaning rank config.execute (h.facts h.now) key ≡ some a
      → (revision : Revision) → revision < h.now
      → IsKnown (setting config rank h) (h.past revision) key
      → (db' : Database V L) × (changed : Bool) × ((calls config fuel).maybe_changed_since key
            revision db
          ≡ returns changed db')
        × Ready config rank lawful h db'
        × (changed ≡ false → IsUnchanged (setting config rank h) revision key a.value)
  maybe_changed_since-Ready h db ready key below a e revision earlier known =
      let checked =
        (calls_ok (setting config rank h) (setting-Laws config rank lawful h) ready.closed
            ready.started fuel n enough).check_ok
          ready.seen idle db key a revision ready.inv (λ k lt. refl) below e earlier known in
      (
        checked.db',
        checked.changed,
        checked.returned,
        record {
          seen = checked.seen';
          inv = checked.inv;
          closed = ready.closed;
          started = ready.started;
          stack = checked.stack ∙ ready.stack;
        },
        λ no'. (checked.sound no').0,
      )

  session-answers :
      (requests : List (Request V)) (h : History V) (db : Database V L)
      → Ready config rank lawful h db
      → Fits rank n requests
      → h.now + length requests < u64_mod
      → (facts : Facts V) → h.facts h.now ≡ facts
      → (answers : List V) → replay rank config.execute facts requests ≡ some answers
      → (db' : Database V L) × (session config fuel requests db ≡ returns answers db')
  unfolding session
  session-answers [] h db ready below room facts f answers e = (db, ap (λ t. returns t db) (cc e))
  session-answers (set_input i v ∷ requests) h db ready below room facts f answers e =
      let (db1, run, ready1) = set-Follows config rank lawful h db ready (omega arith) i v in
      let with_input = λ (t : Facts V). record t { inputs = update t.inputs i (some v) } in
      let (db2, rest) =
        session-answers requests (next_revision h ready.seen (with_input (h.facts h.now))) db1
          ready1 below (omega arith) (with_input facts)
          (new_facts config rank lawful h ready.seen (with_input (h.facts h.now)) ∙ ap with_input f)
          answers e in
      (db2, ap (λ t. and_then t (λ _. session config fuel requests)) run ∙ rest)
  session-answers (change_world w ∷ requests) h db ready below room facts f answers e =
      let (db1, run, ready1) =
        synthetic_write-Follows config rank lawful h db ready (omega arith) w in
      let with_world = λ (t : Facts V). record t { world = w } in
      let (db2, rest) =
        session-answers requests (next_revision h ready.seen (with_world (h.facts h.now))) db1
          ready1 below (omega arith) (with_world facts)
          (new_facts config rank lawful h ready.seen (with_world (h.facts h.now)) ∙ ap with_world f)
          answers e in
      (db2, ap (λ t. and_then t (λ _. session config fuel requests)) run ∙ rest)
  session-answers (collect strategy keys ∷ requests) h db ready below room facts f answers e =
      let (db1, run, ready1) =
        sweep_all-Swept config rank lawful h strategy below.0 keys db ready in
      let (db2, rest) =
        session-answers requests h db1 ready1 below.1 (omega arith) facts f answers e in
      (db2, ap (λ t. and_then t (λ _. session config fuel requests)) run ∙ rest)
  session-answers (query key ∷ requests) h db ready below room facts f answers e =
      let (a, values, g, g', same) = replay-query facts key requests answers e in
      let (db1, run, ready1, known) =
        get-Ready h db ready key below.0 a (ap (λ t. meaning rank config.execute t key) f ∙ g) in
      let (db2, rest) =
        session-answers requests h db1 ready1 below.1 (omega arith) facts f values g' in
      (
        db2,
        ap (λ t. and_then t answering) run
            ∙ ap (λ t. and_then t (λ vs. pure (a.value ∷ vs))) rest
            ∙ ap (λ t. returns t db2) same,
      )
    where
      answering : V → M (Database V L) (List V)
      answering value = session config fuel requests >>= λ values. pure (value ∷ values)

  -- If query functions have no cycles and equality holds of equal values alone, a session on a
  -- fresh database returns, once the fuel is above the rank of its queries, the revision
  -- counter has room for it, every sweep discards something, and no query panics when it is
  -- evaluated anew. Its answers are then those of evaluating every query anew. A session sets
  -- inputs of low durability, changes what untracked reads see and says so by a synthetic
  -- write, sweeps slots, and asks queries.
  pub session_lem :
      (w : V) (lru : L) (requests : List (Request V)) (answers : List V)
      → Fits rank n requests
      → length requests + 1 < u64_mod
      → replay rank config.execute (no_facts w) requests ≡ some answers
      → (db : Database V L) × (session config fuel requests (fresh w lru) ≡ returns answers db)
  session_lem w lru requests answers below room e =
      session-answers requests (first w) (fresh w lru) (fresh-Ready config rank lawful w lru) below
        (omega arith) (no_facts w) refl answers e
