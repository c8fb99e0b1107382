-- ===== src/Tests/Sample.antt =====
-- A database with three inputs: the query 0 adds two of them modulo 10, the query 1 doubles that,
-- the query 2 is the third input, and the query 3 adds the query 2 and the input 0.
use salsa.Base.{
  ℕ, zero, suc, ◌+◌, ◌*◌, ◌%◌, ◌≡◌, refl, true, false, Option, none, some, List, [], ◌∷◌, ◌==◌,
  ℕ_discrete,
}
use salsa.Base.Outcome.{Outcome, returns, M, ◌>>=◌, ◌>>◌}
use salsa.Durability.{low, high}
use salsa.Key.{input, derived, DatabaseKey-discrete}
use salsa.Derived.Memo.{not_computed}
use salsa.Database.Program.{Program, done, fetch, crash, Config}
use salsa.Database.State.{
  Database, Event, did_validate_memoized_value, will_change_input_value, will_execute,
}
use salsa.Database.Read.{calls}
use salsa.Database.Write.{set}

abbrev pub Db : Type 0
Db = Database ℕ (Unit {0})

abbrev pub run_of : ℕ → Program ℕ
run_of zero = fetch (input 0) (λ a. fetch (input 1) (λ b. done ((a + b) % 10)))
run_of (suc zero) = fetch (derived 0) (λ a. done (a * 2))
run_of (suc (suc zero)) = fetch (input 2) done
run_of (suc (suc (suc zero))) = fetch (derived 2) (λ a. fetch (input 0) (λ b. done (a + b)))
run_of _ = crash

abbrev pub config : Config ℕ (Unit {0})
config = record {
  execute = run_of;
  value_eq = λ a b. a == b;
  should_memoize_value = λ k. true;
  record_use = λ k l. (none, l);
}

abbrev pub empty : Db
empty = record {
  runtime = record {
    id = 0;
    revision_guard = false;
    local_state = [];
    counters = record { pending_revision = 1; revisions = 1 ∷ 1 ∷ 1 ∷ [] };
  };
  inputs = λ i. none;
  slots = λ k. not_computed;
  lru = tt;
  world = 0;
  events = [];
}

-- Query 2 reads input 2; query 3 adds query 2 and input 0.
abbrev get : ℕ → M Db ℕ
get k = (calls config 3).get (derived k)

abbrev session : M Db ℕ
session = do set 0 3 low; set 1 4 low; a ← get 1; set 0 4 low; set 1 3 low; get 1

abbrev result : Outcome Db ℕ → Option (ℕ × List Event)
result (returns a db) = some (a, db.events)
result _ = none

-- The second read runs the query 0 again, finds the old value, and keeps the memo of query 1.
result-session :
    result (session empty)
    ≡ some (
      14,
      did_validate_memoized_value (derived 1)
          ∷ will_execute (derived 0)
          ∷ will_change_input_value (input 1)
          ∷ will_change_input_value (input 0)
          ∷ will_execute (derived 0)
          ∷ will_execute (derived 1)
          ∷ will_change_input_value (input 1)
          ∷ will_change_input_value (input 0)
          ∷ [],
    )
unfolding calls set DatabaseKey-discrete ℕ_discrete
result-session = refl

-- The inputs 0 and 1 are of low durability, the input 2 is of high durability. The last read of
-- query 3 should be 23.
abbrev stale_session : M Db ℕ
stale_session = do
  set 0 3 low
  set 1 4 low
  set 2 10 high
  a ← get 3
  set 2 20 high
  b ← get 2
  set 1 5 low
  get 3

abbrev value : Outcome Db ℕ → Option ℕ
value (returns a db) = some a
value _ = none

stale_session_value : value (stale_session empty) ≡ some 13
unfolding calls set DatabaseKey-discrete ℕ_discrete
stale_session_value = refl
