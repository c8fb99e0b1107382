-- ===== src/Tests/Session.antt =====
-- Sessions on the sample database.
use salsa.Base.{Bool, false, ℕ, zero, suc, ◌≡◌, refl, some, List, [], ◌∷◌, arith, ℕ_discrete}
use salsa.Base.Outcome.{returns}
use salsa.Key.{derived}
use salsa.Sweep.{SweepStrategy, always, everything}
use salsa.Durability.{low}
use salsa.Database.State.{update}
use salsa.Database.Read.{calls}
use salsa.Database.Write.{set}
use salsa.Sound.Spec.{Below}
use salsa.Sound.Meaning.{Lawful, History, Facts, meaning, setting}
use salsa.Sound.Invariant.{IsKnown, IsUnchanged}
use salsa.Sound.Fresh.{no_facts, first, fresh, fresh-Ready}
use salsa.Sound.History.{next_revision, now_then}
use salsa.Sound.Writing.{Ready, Follows, set-Follows}
use salsa.Sound.Session.{
  Request, set_input, change_world, collect, query, session, session_lem, get-Ready,
  maybe_changed_since-Ready,
}
use salsa.Sound.Garbage.{Discards}
use salsa.Tests.Sample.{Db, config}

abbrev rank : ℕ → ℕ
rank zero = 0
rank (suc zero) = 1
rank (suc (suc zero)) = 0
rank (suc (suc (suc zero))) = 1
rank (suc (suc (suc (suc k)))) = 0

sample-Lawful : Lawful config rank
sample-Lawful = record { acyclic = below; eq_sound = λ u v e. ground arith }
  where
    below : (k : ℕ) → Below rank (rank k) (config.execute k)
    below zero = (tt, λ a. (tt, λ b. tt))
    below (suc zero) = (omega arith, λ a. tt)
    below (suc (suc zero)) = (tt, λ a. tt)
    below (suc (suc (suc zero))) = (omega arith, λ a. (tt, λ b. tt))
    below (suc (suc (suc (suc k)))) = tt

abbrev of_all : SweepStrategy
of_all = record { discard_if = always; discard_what = everything }

of_all-Discards : Discards of_all
of_all-Discards = record { sometimes = λ e. cc; something = λ e. cc }

abbrev requests : List (Request ℕ)
requests =
    set_input 0 3
    ∷ set_input 1 4
    ∷ query (derived 1)
    ∷ set_input 0 4
    ∷ set_input 1 3
    ∷ query (derived 1)
    ∷ collect of_all (0 ∷ [])
    ∷ change_world 9
    ∷ set_input 1 8
    ∷ query (derived 1)
    ∷ []

-- The second answer is found valid without a run of the query 1, the third is computed anew.
session_lem_example :
    (db : Db) × (session config 3 requests (fresh 0 tt) ≡ returns (14 ∷ 14 ∷ 4 ∷ []) db)
unfolding ℕ_discrete
session_lem_example =
    session_lem config rank sample-Lawful 3 2 (omega arith) 0 tt requests (14 ∷ 14 ∷ 4 ∷ [])
      (omega arith, (omega arith, (of_all-Discards, (omega arith, tt)))) (omega arith) refl

-- The database with 7 in the input 2.
abbrev one_input :
    Follows config rank sample-Lawful
      (first 0)
      (fresh 0 tt)
      (fresh-Ready config rank sample-Lawful 0 tt)
      (omega arith)
      (record (no_facts 0) { inputs = update (no_facts 0).inputs 2 (some 7) })
      (set 2 7 low (fresh 0 tt))
one_input =
    set-Follows config rank sample-Lawful (first 0) (fresh 0 tt)
      (fresh-Ready config rank sample-Lawful 0 tt) (omega arith) 2 7

abbrev then_history : History ℕ
then_history =
    next_revision (first 0) (fresh-Ready config rank sample-Lawful 0 tt).seen
      (record (no_facts 0) { inputs = update (no_facts 0).inputs 2 (some 7) })

meaning_then :
    meaning rank config.execute (then_history.facts then_history.now) (derived 2)
    ≡ some (record { value = 7; durability = low })
unfolding ℕ_discrete
meaning_then = refl

get-Ready_example :
    (db : Db) × ((calls config 3).get (derived 2) one_input.0 ≡ returns 7 db)
    × (ready : Ready config rank sample-Lawful then_history db) × IsKnown
        (setting config rank then_history)
        ready.seen
        (derived 2)
get-Ready_example =
    get-Ready config rank sample-Lawful 3 2 (omega arith) then_history one_input.0 one_input.2
      (derived 2) (omega arith) (record { value = 7; durability = low }) meaning_then

-- The query 2 was read, and then its input was set to 8.
abbrev read_once :
    (db : Db) × ((calls config 3).get (derived 2) one_input.0 ≡ returns 7 db)
    × (ready : Ready config rank sample-Lawful then_history db) × IsKnown
        (setting config rank then_history)
        ready.seen
        (derived 2)
read_once =
    get-Ready config rank sample-Lawful 3 2 (omega arith) then_history one_input.0 one_input.2
      (derived 2) (omega arith) (record { value = 7; durability = low }) meaning_then

abbrev eight : Facts ℕ
eight = record (then_history.facts then_history.now) {
  inputs = update (then_history.facts then_history.now).inputs 2 (some 8);
}

abbrev set_again :
    Follows config rank sample-Lawful then_history read_once.0 read_once.2
      (omega arith)
      eight
      (set 2 8 low read_once.0)
set_again =
    set-Follows config rank sample-Lawful then_history read_once.0 read_once.2 (omega arith) 2 8

abbrev last_history : History ℕ
last_history = next_revision then_history read_once.2.seen eight

meaning_last :
    meaning rank config.execute (last_history.facts last_history.now) (derived 2)
    ≡ some (record { value = 8; durability = low })
unfolding ℕ_discrete
meaning_last = refl

maybe_changed_since-Ready_example :
    (db : Db) × (changed : Bool) × ((calls config 3).maybe_changed_since (derived 2) 2 set_again.0
      ≡ returns changed db)
    × Ready config rank sample-Lawful last_history db
    × (changed ≡ false → IsUnchanged (setting config rank last_history) 2 (derived 2) 8)
maybe_changed_since-Ready_example =
    maybe_changed_since-Ready config rank sample-Lawful 3 2 (omega arith) last_history set_again.0
      set_again.2 (derived 2) (omega arith) (record { value = 8; durability = low }) meaning_last 2
      (omega arith)
      (now_then config rank sample-Lawful then_history read_once.2.seen eight 2 (derived 2) refl
        read_once.3)
